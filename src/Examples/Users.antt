-- ===== src/Examples/Users.antt =====
-- The user database of door_controller/user_db.c.
use osdp_roger_acs.Base.{ℕ, ◌≡◌, ◌↔◌, bit, refl, arith, List, [], ◌∷◌, some}
use osdp_roger_acs.Door.{Text, Event}
use osdp_roger_acs.Door.Auth.{Verdict, mode_card}
use osdp_roger_acs.UserDb.{
  query_of, get_access_mask2, uses_card, uses_pin, card_text, on_row, on_rows,
}
use osdp_roger_acs.UserDb.{pin_refused, subdoor, verdict_of}
use osdp_roger_acs.UserDb.Policy.{Admits}
use osdp_roger_acs.UserDb.Mask.{get_access_mask2-bit}
use osdp_roger_acs.Base.{◌≢◌, ap, length, not32, memcpy, Option, none}
use osdp_roger_acs.Door.{Side, DoorReader, DoorOperation, door_reader}
use osdp_roger_acs.Door.Auth.{
  UserDb, process_user_info, process_side, continue_with, conclude, check_access, store_input,
  stored, reset_door_auth,
}
use osdp_roger_acs.Door.Lock.{
  unlock_door, unlock_mask, door_signal, air_lock_on_partner, signal_door_status,
}
use osdp_roger_acs.Door.Grants.{outputs}
use osdp_roger_acs.Access.{
  get_access_mask, check_key_access, Answers, RowGrants, process_user_info-RowGrants,
}
use osdp_roger_acs.Examples.Data.{user_libraries, building, shown_card}

abbrev card : List ℕ
card = 0xca ∷ 0xfe ∷ []

abbrev name : Text
name = 0x64 ∷ []

abbrev pub let_in : Verdict
let_in = record {
  mask = 1;
  sent = Event.auth_ok name 1 (some (0x61 ∷ [])) (0x43 ∷ 0x41 ∷ 0x46 ∷ 0x45 ∷ []) ∷ [];
}

granted : get_access_mask2 user_libraries [] 0 card 2 mode_card name ≡ some let_in
unfolding get_access_mask2 query_of uses_card uses_pin card_text on_rows on_row pin_refused subdoor
    verdict_of
granted = refl

-- The functions of the user database, and a door that stays closed where they give nothing.
abbrev or_silent : Option Verdict → Verdict
or_silent none = record { mask = 0; sent = [] }
or_silent (some v) = v

abbrev pub user_db : UserDb
user_db = record {
  get_access_mask = λ r mode door. or_silent (get_access_mask user_libraries r mode door);
  check_key_access = λ r. or_silent (check_key_access user_libraries r);
}

pub user_db-Answers : Answers user_libraries user_db
user_db-Answers = record {
  by_mask = λ r mode door v e. ap or_silent e;
  by_keys = λ r v e. ap or_silent e;
}

opens_once : length (outputs (process_user_info user_db 0 shown_card 0 building).log) ≡ 1
unfolding process_user_info process_side continue_with conclude check_access outputs store_input
    reset_door_auth unlock_door unlock_mask not32 door_signal air_lock_on_partner signal_door_status
    get_access_mask2 query_of uses_card uses_pin card_text on_rows on_row pin_refused subdoor
    verdict_of memcpy
opens_once = refl

opens : outputs (process_user_info user_db 0 shown_card 0 building).log ≢ outputs building.log
unfolding outputs
opens h = omega (arith, opens_once, ap (λ (l : List (DoorOperation × ℕ)). length l) h)

process_user_info-RowGrants_example :
    (side : Side) × (r : DoorReader) × ((door_reader side (building.doors 0)).reader ≡ some 0)
    × (store_input (door_reader side (building.doors 0)) shown_card ≡ stored r)
    × RowGrants user_libraries (building.doors 0).door_name r
process_user_info-RowGrants_example =
    process_user_info-RowGrants user_libraries user_db 0 shown_card 0 building user_db-Answers opens

get_access_mask2-bit_example :
    (bit 0 let_in.mask ≡ 1) ↔ Admits user_libraries [] 0 card 2 mode_card name 0
get_access_mask2-bit_example =
    get_access_mask2-bit user_libraries [] 0 card 2 mode_card name let_in 0 granted
