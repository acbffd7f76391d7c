-- ===== src/Door/Grants.antt =====
-- Who opens a door: what `process_user_info` of door_controller/door_controller.c needs from the
-- user database before it drives an output.
use osdp_roger_acs.Base.{ℕ, ◌≡◌, refl, ap, ◌∙◌, ◌≢◌, ◌⊎◌, inl, inr, arith, ==_iff}
use osdp_roger_acs.Base.{true, Bool-cases, List, [], ◌∷◌, ◌++◌, map, Option, none, some}
use osdp_roger_acs.Reader.{UserInfo}
use osdp_roger_acs.Door.{DoorReader, Text, World, Side, side_a, side_b, door_reader, Effect, Event}
use osdp_roger_acs.Door.{DoorOperation, door_state, signal, clear, null_reader, event, reply}
use osdp_roger_acs.Door.Auth.{UserDb, Stored, stored, refused_data, refused_usage, store_input}
use osdp_roger_acs.Door.Auth.{Checked, check_access, conclude, continue_with, process_side}
use osdp_roger_acs.Door.Auth.{process_user_info, is_reader}
use osdp_roger_acs.Door.Auth.{mode_card, mode_pin, mode_card_or_pin, mode_card_and_pin}
use osdp_roger_acs.Door.Auth.{mode_card_and_pin_always, mode_two_cards}

-- The calls of `set_door_state` in a log.
unfoldable pub outputs : List Effect → List (DoorOperation × ℕ)
outputs [] = []
outputs (door_state op m ∷ l) = (op, m) ∷ outputs l
outputs (signal s r ∷ l) = outputs l
outputs (clear r ∷ l) = outputs l
outputs (null_reader ∷ l) = outputs l
outputs (event e ∷ l) = outputs l
outputs (reply t ∷ l) = outputs l

-- The access policy: which credentials each mode asks for, and which question the user database
-- has to answer with a mask that is not empty.
pub data Grants (db : UserDb) (name : Text) (r : DoorReader) : Type 0 where
  by_card :
      (r.access_mode ≡ mode_card) ⊎ (r.access_mode ≡ mode_card_or_pin)
      → r.card_len ≢ 0
      → (db.get_access_mask r mode_card name).mask ≢ 0
      → Grants db name r
  by_pin :
      (r.access_mode ≡ mode_pin) ⊎ (r.access_mode ≡ mode_card_or_pin)
      → r.pin_len ≢ 0
      → (db.get_access_mask r mode_pin name).mask ≢ 0
      → Grants db name r
  by_card_and_pin :
      (r.access_mode ≡ mode_card_and_pin) ⊎ (r.access_mode ≡ mode_card_and_pin_always)
      → r.card_len ≢ 0
      → r.pin_len ≢ 0
      → (db.get_access_mask r mode_card_and_pin_always name).mask ≢ 0
      → Grants db name r
  by_card_alone :
      r.access_mode ≡ mode_card_and_pin
      → r.card_len ≢ 0
      → (db.get_access_mask r mode_card_and_pin name).mask ≢ 0
      → Grants db name r
  by_two_cards :
      r.access_mode ≡ mode_two_cards
      → r.card_len ≢ 0
      → r.card2_len ≢ 0
      → (db.check_key_access r).mask ≢ 0
      → Grants db name r

pub check_access-Grants :
    (db : UserDb) (name : Text) (handle : ℕ) (r : DoorReader)
    → (check_access db name handle r).auth_mask ≢ 0
    → Grants db name r
unfolding check_access
check_access-Grants db name handle r h =
    grind (arith, by_card, by_pin, by_card_and_pin, by_card_alone, by_two_cards)

outputs-events : (es : List Event) (l : List Effect) → outputs (map event es ++ l) ≡ outputs l
unfolding outputs
outputs-events [] l = refl
outputs-events (e ∷ es) l = outputs-events es l

pub outputs-check_access :
    (db : UserDb) (name : Text) (handle : ℕ) (r : DoorReader) (l : List Effect)
    → outputs ((check_access db name handle r).sent ++ l) ≡ outputs l
unfolding check_access outputs
outputs-check_access db name handle r l = ground (
  arith,
  outputs-events (db.get_access_mask r mode_card name).sent l,
  outputs-events (db.get_access_mask r mode_pin name).sent l,
  outputs-events (db.get_access_mask r mode_card_and_pin name).sent l,
  outputs-events (db.get_access_mask r mode_card_and_pin_always name).sent l,
  outputs-events (db.check_key_access r).sent l,
)

pub outputs-conclude :
    (i : ℕ) (side : Side) (handle : ℕ) (c : Checked) (w : World)
    → c.auth_mask ≡ 0
    → outputs (conclude i side handle c w).log ≡ outputs (c.sent ++ w.log)
unfolding conclude outputs
outputs-conclude i side handle c w e = ground arith

-- What `continue_with` does on an input that was refused: it drives no output.
continue_with-Grants :
    (db : UserDb) (i : ℕ) (side : Side) (handle : ℕ) (s : Stored) (w : World)
    → outputs (continue_with db i side handle s w).log ≢ outputs w.log
    → (r : DoorReader) × (s ≡ stored r) × Grants db (w.doors i).door_name r
unfolding continue_with outputs
continue_with-Grants db i side handle refused_data w h = absurd (h (ground arith))
continue_with-Grants db i side handle refused_usage w h = absurd (h (ground arith))
continue_with-Grants db i side handle (stored r) w h =
    let name = (w.doors i).door_name in
    let c = check_access db name handle r in
    let denied : c.auth_mask ≢ 0 =
      λ z. h (outputs-conclude i side handle c w z ∙ outputs-check_access db name handle r w.log) in
    (r, refl, check_access-Grants db name handle r denied)

is_reader-eq : (o : Option ℕ) (handle : ℕ) → is_reader o handle ≡ true → o ≡ some handle
is_reader-eq none handle e = cc
is_reader-eq (some r) handle e = ap some ((==_iff r handle).0 e)

process_user_info_cases :
    (db : UserDb) (handle : ℕ) (u : UserInfo) (i : ℕ) (w : World)
    → ((side : Side) × ((door_reader side (w.doors i)).reader ≡ some handle)
        × (process_user_info db handle u i w ≡ process_side db i side handle u w))
      ⊎ (outputs (process_user_info db handle u i w).log ≡ outputs w.log)
unfolding process_user_info outputs
process_user_info_cases db handle u i w =
    elim (Bool-cases (is_reader (w.doors i).reader_a.reader handle)) [
      | inl e ↦ inl (side_a, is_reader-eq _ handle e, rw e)
      | inr e ↦ elim (Bool-cases (is_reader (w.doors i).reader_b.reader handle)) [
        | inl f ↦ inl (side_b, is_reader-eq _ handle f, rw (e, f))
        | inr f ↦ inr (rw (e, f))
      ]
    ]

-- A call of `process_user_info` drives an output only if it comes from a reader of the door, the
-- input could be stored in that reader, and the user database then grants what the access policy
-- asks for in the reader's mode.
pub process_user_info-Grants :
    (db : UserDb) (handle : ℕ) (u : UserInfo) (i : ℕ) (w : World)
    → outputs (process_user_info db handle u i w).log ≢ outputs w.log
    → (side : Side) × (r : DoorReader) × ((door_reader side (w.doors i)).reader ≡ some handle)
      × (store_input (door_reader side (w.doors i)) u ≡ stored r)
      × Grants db (w.doors i).door_name r
unfolding process_side
process_user_info-Grants db handle u i w h = elim (process_user_info_cases db handle u i w) [
  | inl (side, at_side, same) ↦
      let s = store_input (door_reader side (w.doors i)) u in
      let (r, is_stored, grants) =
        continue_with-Grants db i side handle s w
          (λ z. h (ap (λ (w' : World). outputs w'.log) same ∙ z)) in
      (side, r, at_side, is_stored, grants)
  | inr same ↦ absurd (h same)
]
