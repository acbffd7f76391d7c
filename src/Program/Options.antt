-- ===== src/Program/Options.antt =====
-- The options of door_controller/main.c.
use osdp_roger_acs.Base.{ℕ, List, [], ◌∷◌, Option, none, some, Bool, true, false}
use osdp_roger_acs.Base.{◌||◌, ◌==◌, if◌then◌else◌, u32}
use osdp_roger_acs.CString.{strtoll}
use osdp_roger_acs.Door.{Text}
use osdp_roger_acs.Door.Auth.{mode_card, mode_pin, mode_card_or_pin, mode_card_and_pin}
use osdp_roger_acs.Door.Auth.{mode_card_and_pin_always, mode_two_cards}
use osdp_roger_acs.Program.Config.{byte_of}

-- The options, as `getopt_long` gives them.
pub record Options : Type 0 where
  pub database_path : Option Text
  pub state_db_path : Option Text
  pub config_file : Option Text
  pub door_name : Option Text
  pub access_mode : ℕ
  pub serial_dev : Option Text
  pub reader_addres : ℕ
  pub use_rs485 : Bool
  pub port : ℕ
  pub event_host : Option Text
  pub log_host : Option Text
  pub log_port : Option Text

unfoldable pub no_options : ℕ → Options
no_options default_address = record {
  database_path = none;
  state_db_path = none;
  config_file = none;
  door_name = none;
  access_mode = 0;
  serial_dev = none;
  reader_addres = default_address;
  use_rs485 = false;
  port = 0;
  event_host = none;
  log_host = none;
  log_port = none;
}

-- The `switch` over an option and its argument.
unfoldable pub on_option : ℕ → Text → Options → Options
on_option c arg o =
    if c == b'd'
    then record o { database_path = some arg }
    else if c == b'D'
    then record o { state_db_path = some arg }
    else if c == b'c'
    then record o { config_file = some arg }
    else if c == b'n'
    then record o { door_name = some arg }
    else if c == b'm'
    then record o { access_mode = byte_of arg }
    else if c == b's'
    then record o { serial_dev = some arg }
    else if c == b'a'
    then record o { reader_addres = byte_of arg }
    else if c == b'r'
    then record o { use_rs485 = true }
    else if c == b'p'
    then record o { port = u32 (strtoll arg) }
    else if c == b'e'
    then record o { event_host = some arg }
    else if c == b'l'
    then record o { log_host = some arg }
    else if c == b'L'
    then record o { log_port = some arg }
    else o

unfoldable pub parse_options : List (ℕ × Text) → Options → Options
parse_options [] o = o
parse_options ((c, arg) ∷ given) o = parse_options given (on_option c arg o)

-- The modes that the program has for a single door.
abbrev pub is_mode : ℕ → Bool
is_mode m =
    m == mode_card
    || m == mode_pin
    || m == mode_card_or_pin
    || m == mode_card_and_pin
    || m == mode_card_and_pin_always
    || m == mode_two_cards
