-- ===== src/Idesco/Signals.antt =====
-- What `reader_signal` of readers/reader-idesco.c sends.
use osdp_roger_acs.Base.{ℕ, suc, ◌+◌, ◌≤◌, ◌≡◌, refl, arith, List, [], ◌∷◌}
use osdp_roger_acs.Base.{
  Bool, true, false, Option, none, some, truth, bit_and, ◌>>>◌, drop, length, length-append,
  length-drop,
}
use osdp_roger_acs.Base.{Bool-cases, inl, inr}
use osdp_roger_acs.Reader.{Signal}
use osdp_roger_acs.Osdp.Crc.{f_crc_blk}
use osdp_roger_acs.Osdp.Packet.{
  Packet, packet_len, fill_packet, osdp_led, osdp_buz, led_settings, ledset, beepset,
}
use osdp_roger_acs.Osdp.Packet.Frame.{body, frame, fill_packet-frame}
use osdp_roger_acs.Osdp.Process.{recv_packet}
use osdp_roger_acs.Idesco.{Reader, signal_packets, send_all, reader_signal}

-- A command with its payload. The colours are 0 for off, 1 for red, 2 for green and 3 for amber.
abbrev pub Command : Type 0
Command = ℕ × List ℕ

-- A light of the reader in a colour, for good; `off` is the colour in between.
abbrev pub light : ℕ → ℕ → ℕ → Command
light led color off = (0x69, 0 ∷ led ∷ 1 ∷ 0 ∷ 0 ∷ 0 ∷ 0 ∷ 0 ∷ 0 ∷ 1 ∷ 1 ∷ 1 ∷ color ∷ off ∷ [])

-- And for some tenths of a second.
abbrev pub flash : ℕ → ℕ → ℕ → ℕ → Command
flash led color off time =
    (0x69, 0 ∷ led ∷ 2 ∷ 1 ∷ 1 ∷ color ∷ off ∷ time ∷ 0 ∷ 0 ∷ 0 ∷ 0 ∷ 0 ∷ 0 ∷ [])

abbrev pub beep : ℕ → ℕ → ℕ → Command
beep on off count = (0x6a, 0 ∷ 2 ∷ on ∷ off ∷ count ∷ [])

-- What a reader is to show and sound.
abbrev pub commands : Signal → List Command
commands Signal.ok = flash 1 2 2 48 ∷ beep 1 1 1 ∷ []
commands Signal.door_open = light 1 2 2 ∷ beep 1 1 1 ∷ []
commands Signal.door_lock = light 1 0 0 ∷ []
commands Signal.err = flash 1 1 0 24 ∷ beep 3 1 3 ∷ []
commands Signal.err_auth = flash 1 1 0 24 ∷ beep 3 1 3 ∷ []
commands Signal.err_usage = flash 1 1 0 24 ∷ beep 3 1 3 ∷ []
commands Signal.err_comm = flash 1 1 0 24 ∷ beep 3 1 3 ∷ []
commands Signal.pin_entry = flash 1 3 0 12 ∷ beep 1 1 2 ∷ []
commands Signal.pin_quiet = flash 1 3 0 12 ∷ []
commands Signal.blocked = light 2 3 0 ∷ light 1 3 0 ∷ []
commands Signal.unblocked = light 2 0 0 ∷ light 1 0 0 ∷ []

-- A packet that is the frame of a command to the address, in a buffer of its size.
pub record IsFrame (address : ℕ) (c : Command) (p : Packet) : Type 0 where
  pub rest : List ℕ
  pub framed : p.bytes ≡ frame address c.0 c.1 rest
  pub counted : p.len ≡ 8 + length c.1
  pub size : length p.bytes ≡ packet_len

-- A way to fill a packet that makes a frame in any buffer of the size.
abbrev Frames : ℕ → Command → (Packet → Option Packet) → Type 0
Frames address c fill =
    (p : Packet)
    → length p.bytes ≡ packet_len
    → (q : Packet) × (fill p ≡ some q) × IsFrame address c q

filled :
    (address command : ℕ) (payload : List ℕ)
    → length payload ≤ 56
    → Frames address
        (command, payload)
        (λ p. fill_packet p address command payload (length payload))
filled address command payload h p size =
    let rest = drop (length payload + 2) (drop 6 p.bytes) in
    let b = body address command payload in
    let q : Packet = record {
      len = 8 + length payload;
      bytes = frame address command payload rest;
    } in
    (
      q,
      fill_packet-frame p address command payload size h,
      record {
        rest = rest;
        framed = refl;
        counted = refl;
        size = omega (
          arith,
          size,
          length-append payload (bit_and (f_crc_blk b) 0xff ∷ f_crc_blk b >>> 8 ∷ rest),
          length-drop (length payload + 2) (drop 6 p.bytes),
          length-drop 6 p.bytes,
        );
      },
    )

led_settings-length :
    (led color : ℕ) (blink : Bool) (time : ℕ) → length (led_settings led color blink time) ≡ 14
unfolding led_settings
led_settings-length led color blink time = elim (Bool-cases (truth time)) [
  | inl e ↦ rw e refl
  | inr e ↦ rw e refl
]

ledset-Frames :
    (a led color : ℕ) (blink : Bool) (time : ℕ)
    → Frames a (osdp_led, led_settings led color blink time) (λ p. ledset p a led color blink time)
unfolding ledset
ledset-Frames a led color blink time =
    let settings = led_settings led color blink time in
    let size = led_settings-length led color blink time in
    rw size at (filled a osdp_led settings (omega (arith, size)))

beepset-Frames : (a on off count : ℕ) → Frames a (beep on off count) (λ p. beepset p a on off count)
unfolding beepset
beepset-Frames a on off count = filled a osdp_buz (0 ∷ 2 ∷ on ∷ off ∷ count ∷ []) (omega arith)

abbrev AllFrame : ℕ → List Command → List (Packet → Option Packet) → Type 0
AllFrame a [] [] = Unit
AllFrame a (c ∷ cs) (fill ∷ fills) = Frames a c fill × AllFrame a cs fills
AllFrame a _ _ = ⊥

-- The packets are the frames of the commands, one for each.
abbrev pub AreFrames : ℕ → List Command → List Packet → Type 0
AreFrames a [] [] = Unit
AreFrames a (c ∷ cs) (p ∷ ps) = IsFrame a c p × AreFrames a cs ps
AreFrames a _ _ = ⊥

signal_packets-AllFrame :
    (a : ℕ) (signal : Signal) → AllFrame a (commands signal) (signal_packets a signal)
unfolding signal_packets led_settings
signal_packets-AllFrame a Signal.ok = (ledset-Frames a 1 2 false 48, (beepset-Frames a 1 1 1, tt))
signal_packets-AllFrame a Signal.door_open =
    (ledset-Frames a 1 2 false 0, (beepset-Frames a 1 1 1, tt))
signal_packets-AllFrame a Signal.door_lock = (ledset-Frames a 1 0 false 0, tt)
signal_packets-AllFrame a Signal.err = (ledset-Frames a 1 1 true 24, (beepset-Frames a 3 1 3, tt))
signal_packets-AllFrame a Signal.err_auth =
    (ledset-Frames a 1 1 true 24, (beepset-Frames a 3 1 3, tt))
signal_packets-AllFrame a Signal.err_usage =
    (ledset-Frames a 1 1 true 24, (beepset-Frames a 3 1 3, tt))
signal_packets-AllFrame a Signal.err_comm =
    (ledset-Frames a 1 1 true 24, (beepset-Frames a 3 1 3, tt))
signal_packets-AllFrame a Signal.pin_entry =
    (ledset-Frames a 1 3 true 12, (beepset-Frames a 1 1 2, tt))
signal_packets-AllFrame a Signal.pin_quiet = (ledset-Frames a 1 3 true 12, tt)
signal_packets-AllFrame a Signal.blocked =
    (ledset-Frames a 2 3 true 0, (ledset-Frames a 1 3 true 0, tt))
signal_packets-AllFrame a Signal.unblocked =
    (ledset-Frames a 2 0 false 0, (ledset-Frames a 1 0 true 0, tt))

-- What `read` gives leaves the buffer its size.
abbrev pub ReadsPackets : (ℕ → Option (ℕ × List ℕ)) → Type 0
ReadsPackets read =
    (n count : ℕ) (bytes : List ℕ) → read n ≡ some (count, bytes) → length bytes ≡ packet_len

received-size :
    (p : Packet) (answer : Option (ℕ × List ℕ))
    → length p.bytes ≡ packet_len
    → ((count : ℕ) (bytes : List ℕ) → answer ≡ some (count, bytes) → length bytes ≡ packet_len)
    → length (recv_packet p answer).1.bytes ≡ packet_len
unfolding recv_packet
received-size p none size reads = size
received-size p (some (count, [])) size reads = reads count [] refl
received-size p (some (count, b ∷ bytes)) size reads = reads count (b ∷ bytes) refl

send_all-AreFrames :
    (a : ℕ) (cs : List Command) (fills : List (Packet → Option Packet))
    (read : ℕ → Option (ℕ × List ℕ)) (p : Packet)
    → AllFrame a cs fills
    → ReadsPackets read
    → length p.bytes ≡ packet_len
    → (sent : List Packet) × (send_all read fills p ≡ some sent) × AreFrames a cs sent
unfolding send_all
send_all-AreFrames a [] [] read p all reads size = ([], refl, tt)
send_all-AreFrames a [] (fill ∷ fills) read p all reads size = absurd all
send_all-AreFrames a (c ∷ cs) [] read p all reads size = absurd all
send_all-AreFrames a (c ∷ cs) (fill ∷ fills) read p all reads size =
    let (q, e, frame_q) = all.0 p size in
    let next = received-size q (read 0) frame_q.size (reads 0) in
    let (sent, f, frames) =
      send_all-AreFrames a cs fills (λ n. read (suc n)) (recv_packet q (read 0)).1 all.1
        (λ n. reads (suc n)) next in
    (q ∷ sent, rw (e, f) refl, (frame_q, frames))

-- Every signal is sent to the end: one packet for each of its commands to the lights and the sound, in
-- their order, and no other, each the frame of that command with its payload to the reader's address,
-- with its checksum, whatever packets of the buffer's size are read in between.
pub reader_signal-AreFrames :
    (read : ℕ → Option (ℕ × List ℕ)) (p : Packet) (signal : Signal) (r : Reader)
    → ReadsPackets read
    → length p.bytes ≡ packet_len
    → (sent : List Packet) × (reader_signal read p signal r ≡ some sent)
      × AreFrames r.address (commands signal) sent
unfolding reader_signal
reader_signal-AreFrames read p signal r reads size =
    send_all-AreFrames r.address (commands signal) (signal_packets r.address signal) read p
      (signal_packets-AllFrame r.address signal) reads size
