-- ===== src/Examples/Data.antt =====
-- The inputs of the examples.
use osdp_roger_acs.Base.{ℕ, zero, suc, List, [], ◌∷◌, Option, none, some, replicate, Bool}
use osdp_roger_acs.Reader.{UserInfo, DataType, DataMode}
use osdp_roger_acs.Door.{DoorReader, Door, World}
use osdp_roger_acs.Door.Auth.{UserDb, mode_card}
use osdp_roger_acs.Osdp.Packet.{Packet}
use osdp_roger_acs.Osdp.Process.{Response}
use osdp_roger_acs.UserDb.{Row, Libraries}
use osdp_roger_acs.Idesco.{Reader, Callback}

abbrev pub card_reader : ℕ → DoorReader
card_reader handle = record {
  reader = some handle;
  access_mode = mode_card;
  two_factor_timer = 0;
  card_len = 0;
  card2_len = 0;
  pin_len = 0;
  card = replicate 16 0;
  card2 = replicate 16 0;
  pin = replicate 17 0;
}

abbrev pub no_reader : DoorReader
no_reader = record (card_reader 0) { reader = none }

abbrev pub closed_door : ℕ → ℕ → Option ℕ → Door
closed_door handle offset partner = record {
  door_name = 0x64 ∷ [];
  reader_a = card_reader handle;
  reader_b = no_reader;
  last_input = 0x04;
  alarm_timers = 0;
  mask_offset = offset;
  mask_full = 1;
  door_lock_timer = 0;
  adm_disable_mask = 0;
  air_lock_mask = 0;
  air_lock_partner_local = partner;
}

abbrev pub airlock : ℕ → Door
airlock zero = closed_door 0 0 (some 1)
airlock (suc zero) = closed_door 1 1 (some 0)
airlock (suc (suc j)) = closed_door 2 2 none

abbrev pub building : World
building = record { doors = airlock; doors_count = 2; log = [] }

-- It grants the one subdoor to every card.
abbrev pub open_house : UserDb
open_house = record {
  get_access_mask = λ r mode name. record { mask = 1; sent = [] };
  check_key_access = λ r. record { mask = 0; sent = [] };
}

abbrev pub shown_card : UserInfo
shown_card = record {
  bytes = 0xca ∷ 0xfe ∷ [];
  len = 2;
  type = DataType.is_card;
  mode = DataMode.complete;
}

abbrev pub shown_to_all : ℕ → List UserInfo
shown_to_all handle = shown_card ∷ []

abbrev pub all_closed : List ℕ
all_closed = 0 ∷ 0 ∷ 1 ∷ 0 ∷ 0 ∷ 0 ∷ 1 ∷ 0 ∷ []

abbrev pub nothing_read : ℕ → ℕ
nothing_read i = 0

abbrev pub empty_packet : Packet
empty_packet = record { len = 0; bytes = replicate 64 0 }

abbrev pub empty_response : Response
empty_response = record { response = 0; payload_len = 0; payload = replicate 64 0 }

-- An acknowledgement from the reader at address 1, with its checksum.
abbrev pub ack_packet : Packet
ack_packet = record {
  len = 8;
  bytes = 0x53 ∷ 0x81 ∷ 0x08 ∷ 0x00 ∷ 0x04 ∷ 0x40 ∷ 0x08 ∷ 0x06 ∷ replicate 56 0;
}

abbrev pub keypad : Reader
keypad = record {
  serial = 3;
  use_rs485_te = Bool.false;
  address = 1;
  pin_buf = replicate 29 0;
  pin_buf_pos = 0;
  code_timeout = 0;
}

abbrev pub half_typed : Reader
half_typed = record keypad { pin_buf_pos = 2; code_timeout = 3 }

-- It writes down what it is told.
abbrev pub note_down : Callback (List UserInfo)
note_down info r s = (r, info ∷ s)

abbrev pub known_user : Row
known_user = record {
  user_name = some (0x61 ∷ []);
  user_pin = some (0x70 ∷ []);
  expire = 100;
  allow_no_pin = 0;
  door = some (0x64 ∷ []);
  curr_time = 50;
}

abbrev pub user_libraries : Libraries
user_libraries = record {
  query = λ q. known_user ∷ [];
  md5 = λ bytes. replicate 16 0;
  atoi = λ text. some 0;
  trash = [];
}
