-- ===== src/Examples/Wire.antt =====
-- Polls of a reader: a card and a PIN on the line, and a packet with a wrong checksum.
use osdp_roger_acs.Base.{
  ℕ, ◌≡◌, refl, arith, List, [], ◌∷◌, some, none, inl, memcpy, set, replicate, drop,
}
use osdp_roger_acs.Reader.{UserInfo}
use osdp_roger_acs.Osdp.Packet.{Packet, fill_packet}
use osdp_roger_acs.Osdp.Packet.Frame.{frame, fill_packet-frame}
use osdp_roger_acs.Osdp.Process.{osdp_raw, osdp_kpd}
use osdp_roger_acs.Osdp.Process.Total.{IsAnswer}
use osdp_roger_acs.Idesco.{Reader, Exchange, get_reader_data}
use osdp_roger_acs.Idesco.Keypad.{IsReady}
use osdp_roger_acs.Idesco.Poll.{poll_packet, card_info}
use osdp_roger_acs.Idesco.Pin.{pin_info}
use osdp_roger_acs.Idesco.Ends.{get_reader_data-EndsReady}
use osdp_roger_acs.Door.{side_a, side_b, World, put_reader, Event}
use osdp_roger_acs.Door.Auth.{Verdict, mode_card, mode_pin}
use osdp_roger_acs.UserDb.{
  query_of, get_access_mask2, uses_card, uses_pin, card_text, pin_text, on_row, on_rows,
  pin_refused, subdoor, verdict_of,
}
use osdp_roger_acs.UserDb.Policy.{Admits}
use osdp_roger_acs.Access.{get_access_mask}
use osdp_roger_acs.Access.Shown.{Drives}
use osdp_roger_acs.Access.Wire.{controller, card_packet-Drives, pin_packet-Drives}
use osdp_roger_acs.Examples.Data.{
  user_libraries, building, card_reader, empty_packet, empty_response, keypad, note_down,
}
use osdp_roger_acs.Examples.Users.{user_db, user_db-Answers, let_in}

abbrev sent_card : List ℕ
sent_card = 1 ∷ 0 ∷ 16 ∷ 0 ∷ 0xca ∷ 0xfe ∷ []

abbrev card_packet : Packet
card_packet = record { len = 14; bytes = frame 1 osdp_raw sent_card (replicate 50 0) }

abbrev line : Exchange
line = record {
  packet = empty_packet;
  answer = empty_packet;
  res = empty_response;
  received = some (14, card_packet.bytes);
  reopened = none;
}

card_built : fill_packet empty_packet 1 osdp_raw sent_card 6 ≡ some card_packet
card_built = fill_packet-frame empty_packet 1 osdp_raw sent_card refl (omega arith)

abbrev read_card : List ℕ
read_card = memcpy (replicate 16 0) (drop 4 sent_card) 2

sent_granted :
    get_access_mask user_libraries
      (record (card_reader 0) {
        card = memcpy (replicate 16 0) (card_info sent_card empty_response).bytes 2;
        card_len = 2;
      })
      mode_card
      (building.doors 0).door_name
    ≡ some let_in
unfolding get_access_mask2 query_of uses_card uses_pin card_text on_rows on_row pin_refused subdoor
    verdict_of memcpy
sent_granted = refl

card_packet-Drives_example :
    (w' : World) × (get_reader_data (controller user_db 0 0) line 20 keypad building
      ≡ some (poll_packet empty_packet 1, record keypad { pin_buf_pos = 0 }, w'))
    × Drives building w' 0 (
        Admits user_libraries
          (replicate 17 0)
          0
          (memcpy (replicate 16 0) (card_info sent_card empty_response).bytes 2)
          2
          mode_card
          (building.doors 0).door_name)
card_packet-Drives_example =
    card_packet-Drives user_libraries user_db side_a 0 0 building let_in line 20 keypad empty_packet
      card_packet 1 14 sent_card user_db-Answers refl (inl refl) refl refl refl refl (omega arith)
      (omega arith) card_built refl sent_granted

-- Ten bytes with a checksum that is not theirs.
abbrev pub bad_bytes : List ℕ
bad_bytes = 0x53 ∷ 1 ∷ 10 ∷ 0 ∷ 4 ∷ osdp_raw ∷ 1 ∷ 2 ∷ 3 ∷ 4 ∷ replicate 54 0

abbrev bad_line : Exchange
bad_line = record line { received = some (10, bad_bytes) }

abbrev pub bad-IsAnswer : IsAnswer bad_bytes
bad-IsAnswer = record {
  size = refl;
  high = 0;
  low = 10;
  keys = 2;
  at_high = refl;
  at_low = refl;
  at_keys = refl;
  long = omega arith;
  short = omega arith;
  few = omega arith;
}

get_reader_data-EndsReady_example :
    (r' : Reader) × (s' : List UserInfo) × (get_reader_data note_down bad_line 20 keypad []
      ≡ some (poll_packet empty_packet 1, r', s'))
    × IsReady r'
get_reader_data-EndsReady_example =
    get_reader_data-EndsReady note_down bad_line 20 keypad [] (λ info r s h. h) refl
      (record { size = refl; room = omega arith }) bad-IsAnswer
      (record { size = refl; room = omega arith })

-- A keypad on the other side of the door.
abbrev with_keypad : World
with_keypad = put_reader 0 side_b (record (card_reader 7) { access_mode = mode_pin }) building

abbrev let_in_silent : Verdict
let_in_silent = record { mask = 1; sent = Event.auth_ok (0x64 ∷ []) 1 (some (0x61 ∷ [])) [] ∷ [] }

-- The keys 1, 2 and `#`.
abbrev sent_keys : List ℕ
sent_keys = 0 ∷ 3 ∷ 0x31 ∷ 0x32 ∷ 0x0d ∷ []

abbrev key_packet : Packet
key_packet = record { len = 13; bytes = frame 1 osdp_kpd sent_keys (replicate 51 0) }

keys_built : fill_packet empty_packet 1 osdp_kpd sent_keys 5 ≡ some key_packet
keys_built = fill_packet-frame empty_packet 1 osdp_kpd sent_keys refl (omega arith)

abbrev pin_line : Exchange
pin_line = record line { received = some (13, key_packet.bytes) }

abbrev typed_keys : List ℕ
typed_keys = 0x31 ∷ 0x32 ∷ []

abbrev read_pin : List ℕ
read_pin = set (memcpy (replicate 17 0) (pin_info typed_keys keypad.pin_buf).bytes 2) 2 0

keys_granted :
    get_access_mask user_libraries
      (record (card_reader 7) { access_mode = mode_pin; pin = read_pin; pin_len = 2 })
      mode_pin
      (with_keypad.doors 0).door_name
    ≡ some let_in_silent
unfolding get_access_mask2 query_of uses_card uses_pin card_text pin_text on_rows on_row pin_refused
    subdoor verdict_of memcpy
keys_granted = refl

pin_packet-Drives_example :
    (r' : Reader) × (w' : World) × (get_reader_data
        (controller user_db 7 0)
        pin_line
        20
        keypad
        with_keypad
      ≡ some (poll_packet empty_packet 1, r', w'))
    × (r'.pin_buf_pos ≡ 0)
    × Drives with_keypad w' 0 (
        Admits user_libraries read_pin 2
          (replicate 16 0)
          0
          mode_pin
          (with_keypad.doors 0).door_name)
pin_packet-Drives_example =
    pin_packet-Drives user_libraries user_db side_b 7 0 with_keypad let_in_silent pin_line 20 keypad
      empty_packet key_packet 1 0 13 typed_keys user_db-Answers (refl, refl) (inl refl) refl
      (record { size = refl; room = omega arith }) refl
      ((omega arith, omega arith), ((omega arith, omega arith), tt)) (omega arith) (omega arith)
      refl refl refl keys_built refl keys_granted
