-- ===== src/Examples/Lobby.antt =====
-- A run of door_controller/main.c with a configuration of two doors that form an airlock.
use osdp_roger_acs.Base.{ℕ, zero, suc, ◌≡◌, refl, arith, List, [], ◌∷◌, none, some, false}
use osdp_roger_acs.CString.{
  codes, strtok, skip_separators, split_word, strtoll, skip_spaces, scan_prefixed, scan_digits,
  digit_value, clamp64,
}
use osdp_roger_acs.Door.{Text, World, get_door_by_name}
use osdp_roger_acs.Door.Interlock.{Paired}
use osdp_roger_acs.Program.Config.{
  goes, config_parse, reader_words, parse_line, fresh_reader, fresh_door, partner_string,
  is_counted, is_skipped, count_doors, Parsed, link_partner, link_partners, world_of, door_at,
}
use osdp_roger_acs.Program.Options.{no_options, on_option, parse_options}
use osdp_roger_acs.Program.Main.{
  Setting, start_reader, start_door, start_doors, start_remote, start, turns,
}
use osdp_roger_acs.Program.Airlock.{Excludes, program-Interlocked}
use osdp_roger_acs.Remote.Restore.{StoredRow}
use osdp_roger_acs.Examples.Data.{open_house}
use osdp_roger_acs.Examples.Commands.{table_of}
use osdp_roger_acs.Examples.Programs.{board, given, quiet}

abbrev lobby_config : List Text
lobby_config =
    codes "in 1 /dev/ttyS1 0 1 - - - - 0 1 out\n"
    ∷ codes "out 1 /dev/ttyS2 0 1 - - - - 1 1 in\n"
    ∷ []

abbrev lobby_board : Setting
lobby_board = record board { fgets = λ file. some lobby_config }

abbrev both : List Parsed
both =
    (
      fresh_door (codes "in") (fresh_reader 1 (some 0)) (fresh_reader 0 none) 0 1,
      some (codes "out"),
    )
    ∷ (
      fresh_door (codes "out") (fresh_reader 1 (some 1)) (fresh_reader 0 none) 1 1,
      some (codes "in"),
    )
    ∷ []

lobby_starts : start lobby_board table_of [] given ≡ goes (false, link_partners both)
unfolding start start_remote parse_options no_options on_option count_doors start_doors start_door
    start_reader parse_line reader_words config_parse strtok skip_separators split_word strtoll
    skip_spaces scan_prefixed scan_digits digit_value clamp64 is_counted is_skipped partner_string
lobby_starts = refl

lobby_partner_of_one :
    (j : ℕ) → ((link_partners both).doors j).air_lock_partner_local ≡ some 1 → j ≡ 0
unfolding link_partners link_partner world_of door_at get_door_by_name fresh_door
lobby_partner_of_one zero h = refl
lobby_partner_of_one (suc zero) h = absurd (ground arith)
lobby_partner_of_one (suc (suc j)) h = absurd (ground arith)

lobby_partner_of_zero :
    (j : ℕ) → ((link_partners both).doors j).air_lock_partner_local ≡ some 0 → j ≡ 1
unfolding link_partners link_partner world_of door_at get_door_by_name fresh_door
lobby_partner_of_zero zero h = absurd (ground arith)
lobby_partner_of_zero (suc zero) h = refl
lobby_partner_of_zero (suc (suc j)) h = absurd (ground arith)

lobby-Paired : Paired 0 1 (link_partners both).doors
unfolding link_partners link_partner world_of door_at get_door_by_name fresh_door
lobby-Paired = record {
  apart = omega arith;
  partner_i = refl;
  partner_p = refl;
  only_i = lobby_partner_of_one;
  only_p = lobby_partner_of_zero;
  fits_i = omega arith;
  fits_p = omega arith;
}

lobby_count : (link_partners both).doors_count ≡ 2
unfolding link_partners world_of
lobby_count = refl

program-Interlocked_example :
    (s : World × List StoredRow) × (turns table_of open_house false
        (quiet ∷ quiet ∷ [])
        (link_partners both, [])
      ≡ some s)
    × Excludes 0 1 s.0
program-Interlocked_example =
    program-Interlocked lobby_board table_of open_house [] [] given false (link_partners both) quiet
      (quiet ∷ []) lobby_starts lobby-Paired (omega (arith, lobby_count))
      (omega (arith, lobby_count))
      (
        (λ d e. absurd (ground arith), λ d e. absurd (ground arith)),
        ((λ d e. absurd (ground arith), λ d e. absurd (ground arith)), tt),
      )
