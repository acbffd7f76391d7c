-- ===== src/Roger.antt =====
-- readers/reader-roger.c: the reader that is asked over the EPSO protocol.
pub mod Digits
pub mod Card
use osdp_roger_acs.Base.{
  ℕ, zero, suc, ◌/◌, ◌%◌, ◌^◌, List, [], ◌∷◌, Option, none, some, ◌==◌, if◌then◌else◌,
}
use osdp_roger_acs.Base.{length, take, ◌>>=◌, u8, map}
use osdp_roger_acs.CString.{dec}
use osdp_roger_acs.Reader.{Signal, UserInfo, DataType, DataMode}
use osdp_roger_acs.Epso.{Incoming, CardPin, read_card_pin, epso_write}

abbrev pub led_cmd : ℕ
led_cmd = 0xe8

abbrev pub led_red : ℕ
led_red = 0x4

abbrev pub led_green : ℕ
led_green = 0xa

abbrev pub led_orange : ℕ
led_orange = 0xd

abbrev pub led_default : ℕ
led_default = 0x0

abbrev pub beep_on : ℕ
beep_on = 0xB1

abbrev pub beep_off : ℕ
beep_off = 0xB0

abbrev pub beep_len : ℕ
beep_len = 62

-- A `uint64_t` as its bytes, on a processor that is little-endian.
unfoldable pub bytes_of : ℕ → ℕ → List ℕ
bytes_of zero n = []
bytes_of (suc k) n = n % 256 ∷ bytes_of k (n / 256)

-- `cardNum & 0x00ffffff00000000`.
abbrev pub card_len_of : ℕ → ℕ
card_len_of card = if card / 2 ^ 32 % 2 ^ 24 == 0 then 4 else 7

abbrev info_of : CardPin → List UserInfo
info_of found = elim found.card [
  | some card ↦
      record {
        bytes = bytes_of 8 card;
        len = card_len_of card;
        type = DataType.is_card;
        mode = DataMode.complete;
      }
      ∷ []
  | none ↦ elim found.pin [
    | some pin ↦
        record {
          bytes = dec pin;
          len = length (dec pin);
          type = DataType.is_pin;
          mode = DataMode.complete;
        }
        ∷ []
    | none ↦ []
  ]
]

-- `get_reader_data`: the calls of `process_user_info`. `buf` is what the stack held.
unfoldable pub get_reader_data : Incoming → List ℕ → Option (List UserInfo)
get_reader_data incoming buf = read_card_pin incoming buf >>= λ found. some (info_of found)

-- The commands of a signal, each with its function and its value. The program sleeps between some.
unfoldable pub signal_commands : Signal → List (ℕ × ℕ)
signal_commands Signal.ok = (led_cmd, led_green) ∷ (led_cmd, led_default) ∷ []
signal_commands Signal.door_open = (led_cmd, led_green) ∷ []
signal_commands Signal.door_lock = (led_cmd, led_default) ∷ []
signal_commands Signal.err =
    (led_cmd, led_red) ∷ (beep_on, beep_len) ∷ (beep_off, beep_len) ∷ (led_cmd, led_default) ∷ []
signal_commands Signal.err_auth =
    (led_cmd, led_red) ∷ (beep_on, beep_len) ∷ (beep_off, beep_len) ∷ (led_cmd, led_default) ∷ []
signal_commands Signal.err_comm =
    (led_cmd, led_red) ∷ (beep_on, beep_len) ∷ (beep_off, beep_len) ∷ (led_cmd, led_default) ∷ []
signal_commands Signal.err_usage = (beep_on, beep_len) ∷ (beep_off, beep_len) ∷ []
signal_commands Signal.pin_entry = (led_cmd, led_orange) ∷ []
signal_commands Signal.pin_quiet = []
signal_commands Signal.blocked = []
signal_commands Signal.unblocked = []

-- What `reader_signal` writes, if no answer comes. Every call of `epso_write_read` passes a null
-- buffer of length 0: an answer would be waited for without an end.
unfoldable pub reader_signal : ℕ → Signal → List (List ℕ)
reader_signal address signal = map (λ c. epso_write address c.0 c.1) (signal_commands signal)

unfoldable pub init_commands : List (ℕ × ℕ)
init_commands = (beep_on, beep_len) ∷ (led_cmd, led_default) ∷ (beep_off, beep_len) ∷ []

-- What `init_reader` writes.
unfoldable pub init_reader : ℕ → List (List ℕ)
init_reader address = map (λ c. epso_write address c.0 c.1) init_commands
