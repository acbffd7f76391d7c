-- ===== src/Examples/Tools.antt =====
-- The tools: a wrong checksum after a card, an address that is set, a packet that is dumped, and a port
-- that is opened.
use osdp_roger_acs.Base.{
  ◌≡◌, ◌≢◌, refl, arith, [], ◌∷◌, some, true, replicate, bit_or, ◌<<<◌, u16, take,
}
use osdp_roger_acs.CString.{codes}
use osdp_roger_acs.Door.{Text}
use osdp_roger_acs.Osdp.Crc.{f_crc_blk, crc_from, crc_round}
use osdp_roger_acs.Osdp.Table.{crc16_table}
use osdp_roger_acs.Osdp.Packet.{Packet}
use osdp_roger_acs.Osdp.Process.{Response, osdp_raw}
use osdp_roger_acs.Osdp.Process.Total.{BadChecksum}
use osdp_roger_acs.Osdp.Dump.{heading, packet_dump}
use osdp_roger_acs.Osdp.Dump.Lines.{dump_lines, packet_dump-lines}
use osdp_roger_acs.Base.{not32, bit_and, bit-bit_and, bit-bit_or, bit-not32}
use osdp_roger_acs.Osdp.Port.{
  Termios, PortFlags, PortSystem, set_rs485, set_attributes, flush, rs485_flags, portsetup,
  MakesRaw, Is8N1, portsetup-Is8N1,
}
use osdp_roger_acs.Tools.ReaderTest.{Variables, test_round, print_response, test_round-stale}
use osdp_roger_acs.Tools.SetAddress.{SetSetting, Outcome, set_address_main, set_address-sends}
use osdp_roger_acs.Examples.Data.{empty_packet, ack_packet}
use osdp_roger_acs.Examples.Wire.{bad_bytes, bad-IsAnswer}

-- The card 0xcafe was read before.
abbrev card_before : Response
card_before = record {
  response = osdp_raw;
  payload_len = 2;
  payload = 0xca ∷ 0xfe ∷ replicate 62 0;
}

abbrev variables : Variables
variables = record { packet = empty_packet; answer = empty_packet; res = card_before }

bad_crc : f_crc_blk (take 8 bad_bytes) ≢ u16 (bit_or (4 <<< 8) 3)
unfolding f_crc_blk crc_from crc_round crc16_table
bad_crc h = absurd (omega (arith, h))

bad-BadChecksum : BadChecksum bad_bytes bad-IsAnswer
bad-BadChecksum = record {
  crc_high = 4;
  crc_low = 3;
  at_high = refl;
  at_low = refl;
  differs = bad_crc;
}

test_round-stale_example :
    (poll : Packet) × (text : Text) × (v' : Variables) × (test_round
        (some (10, bad_bytes))
        variables
      ≡ some (poll, text, v'))
    × (print_response card_before ≡ some text)
    × (v'.res ≡ card_before)
test_round-stale_example =
    test_round-stale variables 10 bad_bytes refl (record { size = refl; room = omega arith })
      bad-IsAnswer refl bad-BadChecksum

packet_dump-lines_example :
    packet_dump ack_packet 0 0 [] ≡ some (heading 8 ∷ dump_lines 0 (take 8 ack_packet.bytes))
packet_dump-lines_example =
    packet_dump-lines ack_packet [] (take 8 ack_packet.bytes) (replicate 56 0) 0 [] refl
      (omega arith) (omega arith) (omega arith) (omega arith)

abbrev set_setting : SetSetting
set_setting = record {
  portsetup = λ device. 3;
  strtol = λ text. 5;
  packet = empty_packet;
  answer = empty_packet;
  res = card_before;
  trash = 0 ∷ 0 ∷ 0 ∷ [];
  buf = [];
  received = some (10, bad_bytes);
}

set_address-sends_example :
    Outcome set_setting
      (codes "/dev/ttyS1")
      (codes "5")
      (set_address_main set_setting (codes "set") (codes "/dev/ttyS1" ∷ codes "5" ∷ []))
set_address-sends_example =
    set_address-sends set_setting (codes "set") (codes "/dev/ttyS1") (codes "5") [] refl refl
      (record { size = refl; room = omega arith }) bad-IsAnswer (omega arith)

-- The flags of Linux.
abbrev port_flags : PortFlags
port_flags = record {
  parenb = 0x100;
  cstopb = 0x40;
  csize = 0x30;
  cs8 = 0x30;
  clocal = 0x800;
  cread = 0x80;
  icanon = 0x2;
  echo = 0x8;
  echoe = 0x10;
  isig = 0x1;
  ser_rs485_enabled = 0x1;
  ser_rs485_rts_after_send = 0x4;
  ser_rs485_rts_on_send = 0x2;
}

-- A port that was set to 7 bits with parity and two stop bits.
abbrev port_system : PortSystem
port_system = record {
  opens = some 3;
  attributes = record { c_cflag = 0x16d; c_lflag = 0x1b };
  set_9600 = λ t. t;
  cfmakeraw =
      λ t. record t { c_cflag = bit_or (bit_and t.c_cflag (not32 (bit_or 0x30 0x100))) 0x30 };
}

port_system-MakesRaw : MakesRaw port_system port_flags
port_system-MakesRaw = record {
  control = λ t k h.
      let cleared = not32 (bit_or 0x30 0x100) in
      rw
        (
          bit-bit_or k (bit_and t.c_cflag cleared) 0x30,
          bit-bit_and k t.c_cflag cleared,
          bit-not32 k (bit_or 0x30 0x100) h,
          bit-bit_or k 0x30 0x100,
        )
        refl;
}

portsetup-Is8N1_example :
    (t : Termios) × (portsetup port_system port_flags true
      ≡ (some 3, set_rs485 (rs485_flags port_flags) ∷ set_attributes t ∷ flush ∷ []))
    × Is8N1 port_flags 0x16d t.c_cflag
portsetup-Is8N1_example = portsetup-Is8N1 port_system port_flags true 3 port_system-MakesRaw refl
