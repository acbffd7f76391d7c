-- ===== src/Examples/Programs.antt =====
-- Runs of door_controller/main.c: a configuration of one door, the single door of the options, and
-- an event.
use osdp_roger_acs.Base.{ℕ, ◌≡◌, ◌<◌, refl, arith, List, [], ◌∷◌, none, some, true, false, length}
use mathlib.Core.Option.{some-injective}
use osdp_roger_acs.EventSend.{event_name, log_line, send_event, Address, sent, send_to, tcp_send}
use osdp_roger_acs.EventSend.Commands.{arguments, command_for, send_event-runs}
use osdp_roger_acs.EventSend.Messages.{FirstTakes, tcp_send-first}
use osdp_roger_acs.Remote.{request_of}
use osdp_roger_acs.Remote.Airlock.{writes_mask}
use osdp_roger_acs.CString.{
  c_string, codes, strtok, skip_separators, split_word, strtoll, skip_spaces, scan_prefixed,
  scan_digits, digit_value, clamp64,
}
use osdp_roger_acs.Door.{Text, World, auth_err, Event}
use osdp_roger_acs.Door.Credentials.{IsSound}
use osdp_roger_acs.Door.Readers.{AllReaders}
use osdp_roger_acs.Program.Config.{
  goes, config_parse, reader_words, parse_line, fresh_reader, fresh_door, partner_string,
  is_counted, is_skipped, count_doors, Parsed, link_partners,
}
use osdp_roger_acs.Program.Options.{no_options, on_option, parse_options}
use osdp_roger_acs.Program.Main.{
  Setting, start_reader, start_door, start_doors, single_door, single_world, start_remote, start,
  Turn, turns,
}
use osdp_roger_acs.Program.Fresh.{Fresh}
use osdp_roger_acs.Program.Start.{start_doors-length}
use osdp_roger_acs.Program.Run.{program-IsSound, single_door-idle}
use osdp_roger_acs.Remote.Restore.{StoredRow}
use osdp_roger_acs.Examples.Data.{open_house, shown_to_all, all_closed, nothing_read}
use osdp_roger_acs.Examples.Commands.{table_of}

abbrev config : List Text
config = codes "# doors\n" ∷ codes "front 1 /dev/ttyS1 0 1 - - - - 0 1 -\n" ∷ []

abbrev pub board : Setting
board = record {
  default_address = 0x7f;
  init_reader = λ k side v. some k;
  fgets = λ file. some config;
  database_opens = λ path. true;
  network_opens = λ port. true;
  state_opens = λ path. true;
  state_created = λ path. true;
}

abbrev pub given : List (ℕ × Text)
given = (b'd', codes "users.db") ∷ (b'c', codes "doors.conf") ∷ []

abbrev front : Parsed
front = (fresh_door (codes "front") (fresh_reader 1 (some 0)) (fresh_reader 0 none) 0 1, none)

front_starts : start_doors board 0 config ≡ goes (front ∷ [])
unfolding start_doors start_door start_reader parse_line reader_words config_parse strtok
    skip_separators split_word strtoll skip_spaces scan_prefixed scan_digits digit_value clamp64
    is_counted is_skipped partner_string
front_starts = refl

started : start board table_of [] given ≡ goes (false, link_partners (front ∷ []))
unfolding start start_remote parse_options no_options on_option count_doors start_doors start_door
    start_reader parse_line reader_words config_parse strtok skip_separators split_word strtoll
    skip_spaces scan_prefixed scan_digits digit_value clamp64 is_counted is_skipped partner_string
started = refl

start_doors-length_example : length (front ∷ []) ≡ count_doors config
start_doors-length_example = start_doors-length board config (front ∷ []) front_starts

-- A turn in which cards are shown at all readers and no datagram comes, and one with a command.
abbrev pub quiet : Turn
quiet = record { inputs = shown_to_all; lines = all_closed; stack = nothing_read; datagram = none }

abbrev asked_info : Turn
asked_info = record quiet { datagram = some (codes "get d info\n") }

asked_fits : (d : List ℕ) → some (codes "get d info\n") ≡ some d → length d < 128
asked_fits d e = rw (← some-injective _ _ e) (omega arith)

asked_plain :
    (d : List ℕ)
    → some (codes "get d info\n") ≡ some d
    → writes_mask (request_of (c_string d)) ≡ false
unfolding writes_mask request_of c_string strtok skip_separators split_word
asked_plain d e = rw (← some-injective _ _ e) refl

program-IsSound_example :
    (s : World × List StoredRow) × (turns table_of open_house false
        (quiet ∷ asked_info ∷ [])
        (link_partners (front ∷ []), [])
      ≡ some s)
    × AllReaders IsSound s.0
program-IsSound_example =
    program-IsSound board table_of open_house [] [] given false (link_partners (front ∷ []))
      (quiet ∷ asked_info ∷ []) started
      (
        (λ handle. (omega arith, tt), λ d e. absurd (ground arith)),
        ((λ handle. (omega arith, tt), asked_fits), tt),
      )

abbrev alone : List (ℕ × Text)
alone =
    (b'd', codes "users.db")
    ∷ (b'n', codes "front")
    ∷ (b's', codes "/dev/ttyS1")
    ∷ (b'm', codes "1")
    ∷ []

abbrev alone_world : World
alone_world = single_world (codes "front") (fresh_reader 1 (some 0))

started_alone : start board table_of [] alone ≡ goes (false, alone_world)
unfolding start start_remote parse_options no_options on_option single_door strtoll skip_spaces
    scan_prefixed scan_digits digit_value clamp64
started_alone = refl

no_file : (parse_options alone (no_options 0x7f)).config_file ≡ none
unfolding parse_options no_options on_option
no_file = refl

single_door-idle_example :
    turns table_of open_house false (quiet ∷ []) (alone_world, []) ≡ some (alone_world, [])
single_door-idle_example =
    single_door-idle board table_of open_house [] alone alone_world (quiet ∷ []) no_file
      started_alone

abbrev refused_card : Event
refused_card = auth_err (codes "front") (some (codes "ann")) (codes "CAFE")

named : event_name refused_card ≡ some (codes "auth_err")
unfolding event_name
named = refl

refused_fits : length (command_for (codes "door.local") (codes "auth_err") refused_card) < 256
unfolding command_for arguments
refused_fits = omega arith

send_event-runs_example :
    send_event (some (codes "door.local")) refused_card
    ≡ some (
      some (log_line refused_card),
      some (command_for (codes "door.local") (codes "auth_err") refused_card),
    )
send_event-runs_example =
    send_event-runs (codes "door.local") (codes "auth_err") refused_card named refused_fits

abbrev tried : List Address
tried =
    record { is_stream = true; opens = true; connects = false; sends = none }
    ∷ record { is_stream = true; opens = true; connects = true; sends = some 20 }
    ∷ []

tried_sent : tcp_send (some tried) ≡ sent 20
unfolding tcp_send send_to
tried_sent = refl

tcp_send-first_example : FirstTakes tried 20
tcp_send-first_example = tcp_send-first tried 20 tried_sent
