-- ===== src/Examples/Serial.antt =====
-- Packets of readers/osdp/osdp.c and the keypad of readers/reader-idesco.c.
use osdp_roger_acs.Base.{ℕ, ◌≡◌, refl, arith, List, [], ◌∷◌, ◌++◌, some}
use osdp_roger_acs.Base.{Bool, true, ◌&&◌, ltb, ◌>>=◌, replicate}
use osdp_roger_acs.Base.{◌≢◌, inl}
use osdp_roger_acs.Reader.{UserInfo, DataType, DataMode}
use osdp_roger_acs.Osdp.Crc.{f_crc_blk, crc_from, crc_round}
use osdp_roger_acs.Osdp.Table.{crc16_table}
use osdp_roger_acs.Osdp.Crc.Register.{AreBytes, f_crc_blk-eq}
use osdp_roger_acs.Osdp.Crc.Shift.{crc_register}
use osdp_roger_acs.Osdp.Crc.Register.Burst.{detects_burst}
use osdp_roger_acs.Osdp.Packet.{fill_packet}
use osdp_roger_acs.Osdp.Packet.Frame.{frame, fill_packet-frame}
use osdp_roger_acs.Osdp.Process.{Response, process_packet, by_code, osdp_raw, osdp_ack}
use osdp_roger_acs.Osdp.Process.Accept.{Accepted, process_packet-Accepted}
use osdp_roger_acs.Osdp.Process.Roundtrip.{fill_packet-process_packet}
use osdp_roger_acs.Base.{List, none, Option}
use osdp_roger_acs.Osdp.Packet.{Packet}
use osdp_roger_acs.Reader.{Signal}
use osdp_roger_acs.Idesco.{reader_signal}
use osdp_roger_acs.Idesco.Signals.{ReadsPackets, AreFrames, flash, beep, reader_signal-AreFrames}
use osdp_roger_acs.Idesco.Keypad.{IsReady}
use osdp_roger_acs.Idesco.Typed.{Delivers, typed_pin}
use osdp_roger_acs.Examples.Data.{
  empty_packet, empty_response, ack_packet, keypad, half_typed, note_down,
}

all_small : List ℕ → Bool
all_small [] = true
all_small (b ∷ bs) = ltb b 256 && all_small bs

all_small-AreBytes : (bs : List ℕ) → all_small bs ≡ true → AreBytes bs
unfolding all_small
all_small-AreBytes [] h = tt
all_small-AreBytes (b ∷ bs) h = (ground arith, all_small-AreBytes bs (ground arith))

ack_bytes : AreBytes ack_packet.bytes
unfolding all_small
ack_bytes = all_small-AreBytes ack_packet.bytes refl

abbrev ack_response : Response
ack_response = record empty_response { response = osdp_ack }

ack_accepted : process_packet ack_packet empty_response ≡ some (true, ack_packet, ack_response)
unfolding process_packet by_code f_crc_blk crc_from crc_round crc16_table
ack_accepted = refl

process_packet-Accepted_example : Accepted ack_packet ack_packet ack_response
process_packet-Accepted_example =
    process_packet-Accepted ack_packet ack_packet empty_response ack_response refl ack_bytes
      ack_accepted

abbrev poll : List ℕ
poll = 0x53 ∷ 0x7f ∷ 0x08 ∷ 0x00 ∷ 0x04 ∷ 0x60 ∷ []

poll_bytes : AreBytes poll
unfolding all_small
poll_bytes = all_small-AreBytes poll refl

f_crc_blk-eq_example : f_crc_blk poll ≡ crc_register 0x1D0F poll
f_crc_blk-eq_example = f_crc_blk-eq poll poll_bytes

detects_burst_example : f_crc_blk poll ≢ f_crc_blk (0x53 ∷ 0x7e ∷ 0x08 ∷ 0x00 ∷ 0x04 ∷ 0x60 ∷ [])
detects_burst_example =
    detects_burst 0x7f 0x08 0x7e 0x08 (0x53 ∷ []) (0x00 ∷ 0x04 ∷ 0x60 ∷ []) poll_bytes (omega arith)
      (omega arith) (inl (λ h. omega (arith, h)))

abbrev card : List ℕ
card = 1 ∷ 2 ∷ 3 ∷ 4 ∷ 5 ∷ []

fill_packet-frame_example :
    fill_packet empty_packet 1 osdp_raw card 5
    ≡ some (record { len = 13; bytes = frame 1 osdp_raw card (replicate 51 0) })
fill_packet-frame_example = fill_packet-frame empty_packet 1 osdp_raw card refl (omega arith)

fill_packet-process_packet_example :
    (fill_packet empty_packet 1 osdp_raw card 5 >>= λ q. process_packet q empty_response)
    ≡ some (
      true,
      record { len = 13; bytes = frame 1 osdp_raw card (replicate 51 0) },
      record { response = osdp_raw; payload_len = 5; payload = card ++ replicate 59 0 },
    )
fill_packet-process_packet_example =
    fill_packet-process_packet empty_packet empty_response 1 card refl refl (omega arith)

keypad-IsReady : IsReady keypad
keypad-IsReady = record { size = refl; room = omega arith }

half_typed-IsReady : IsReady half_typed
half_typed-IsReady = record { size = refl; room = omega arith }

abbrev digits : List ℕ
digits = 0x31 ∷ 0x32 ∷ []

typed_pin_example :
    Delivers note_down 20 (digits ++ 0x0d ∷ []) (digits ++ 0 ∷ replicate 26 0) 2 keypad []
typed_pin_example =
    typed_pin note_down 20 [] digits keypad
      ((omega arith, omega arith), ((omega arith, omega arith), tt)) (omega arith) keypad-IsReady
      refl

abbrev timed_out : UserInfo
timed_out = record {
  bytes = replicate 29 0;
  len = 2;
  type = DataType.is_pin;
  mode = DataMode.timeout;
}

-- The line stays silent.
abbrev silence : ℕ → Option (ℕ × List ℕ)
silence n = none

silent-ReadsPackets : ReadsPackets silence
silent-ReadsPackets n count bytes h = absurd (ground arith)

reader_signal-AreFrames_example :
    (sent : List Packet) × (reader_signal silence empty_packet Signal.ok keypad ≡ some sent)
    × AreFrames 1 (flash 1 2 2 48 ∷ beep 1 1 1 ∷ []) sent
reader_signal-AreFrames_example =
    reader_signal-AreFrames silence empty_packet Signal.ok keypad silent-ReadsPackets refl
