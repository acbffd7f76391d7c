-- ===== src/Access.antt =====
-- door_controller/door_controller.c over door_controller/user_db.c: which rows of the user database
-- open a door.
pub mod Shown
pub mod Wire
use osdp_roger_acs.Base.{
  ℕ, ◌≡◌, ◌≢◌, ◌<◌, ◌⊎◌, inl, inr, ap, ◌∙◌, List, [], ◌∷◌, Option, none, some,
}
use osdp_roger_acs.Base.{Option-cases}
use osdp_roger_acs.Reader.{UserInfo}
use osdp_roger_acs.Door.{Text, DoorReader, World, Side, door_reader}
use osdp_roger_acs.Door.Auth.{
  UserDb, Verdict, store_input, stored, process_user_info, mode_card, mode_pin, mode_card_or_pin,
  mode_card_and_pin, mode_card_and_pin_always, mode_two_cards,
}
use osdp_roger_acs.Door.Grants.{
  Grants, by_card, by_pin, by_card_and_pin, by_card_alone, by_two_cards, outputs,
  process_user_info-Grants,
}
use osdp_roger_acs.UserDb.{
  Libraries, Query, Row, get_access_mask2, check_key_access2, query_of, card_text,
}
use osdp_roger_acs.UserDb.Keys.{check_key_access2-first}
use osdp_roger_acs.UserDb.Rows.{SomeNotRefused, pin_md5_of, get_access_mask2-NotRefused}
use osdp_roger_acs.UserDb.Policy.{AsksFor, LetsIn, SomeRow, card_name}
use osdp_roger_acs.UserDb.Exact.{pin_refused-HasPin, query_of-AsksFor, card_text-eq}

-- `getAccessMask` and `checkKeyAccess` for a reader (door_controller/user_db.h).
abbrev pub get_access_mask : Libraries → DoorReader → ℕ → Text → Option Verdict
get_access_mask lib r mode name = get_access_mask2 lib r.pin r.pin_len r.card r.card_len mode name

abbrev pub check_key_access : Libraries → DoorReader → Option Verdict
check_key_access lib r = check_key_access2 lib r.card r.card_len r.card2 r.card2_len

-- What the door controller is told is what the functions return, where they return.
pub record Answers (lib : Libraries) (db : UserDb) : Type 0 where
  pub by_mask :
      (r : DoorReader) (mode : ℕ) (name : Text) (v : Verdict)
      → get_access_mask lib r mode name ≡ some v
      → db.get_access_mask r mode name ≡ v
  pub by_keys :
      (r : DoorReader) (v : Verdict) → check_key_access lib r ≡ some v → db.check_key_access r ≡ v

-- A row that lets the reader's credentials in, in a mode, or a call that C leaves undefined.
abbrev pub RowLetsIn : Libraries → Text → DoorReader → ℕ → Type 0
RowLetsIn lib name r mode =
    (get_access_mask lib r mode name ≡ none)
    ⊎ ((q : Query) × AsksFor lib r.pin r.pin_len r.card r.card_len mode name q
        × SomeRow (LetsIn lib r.pin r.pin_len mode) (lib.query q))

-- The first row for two cards, which has not expired.
abbrev pub KeysLetIn : Libraries → DoorReader → Type 0
KeysLetIn lib r =
    (check_key_access lib r ≡ none)
    ⊎ ((row : Row) × (rest : List Row) × (lib.query
            (Query.by_key (card_name lib r.card r.card_len) (card_name lib r.card2 r.card2_len))
          ≡ row ∷ rest)
        × (row.curr_time < row.expire))

-- The access policy over the rows.
pub data RowGrants (lib : Libraries) (name : Text) (r : DoorReader) : Type 0 where
  card_row :
      (r.access_mode ≡ mode_card) ⊎ (r.access_mode ≡ mode_card_or_pin)
      → r.card_len ≢ 0
      → RowLetsIn lib name r mode_card
      → RowGrants lib name r
  pin_row :
      (r.access_mode ≡ mode_pin) ⊎ (r.access_mode ≡ mode_card_or_pin)
      → r.pin_len ≢ 0
      → RowLetsIn lib name r mode_pin
      → RowGrants lib name r
  card_and_pin_row :
      (r.access_mode ≡ mode_card_and_pin) ⊎ (r.access_mode ≡ mode_card_and_pin_always)
      → r.card_len ≢ 0
      → r.pin_len ≢ 0
      → RowLetsIn lib name r mode_card_and_pin_always
      → RowGrants lib name r
  no_pin_row :
      r.access_mode ≡ mode_card_and_pin
      → r.card_len ≢ 0
      → RowLetsIn lib name r mode_card_and_pin
      → RowGrants lib name r
  keys_row :
      r.access_mode ≡ mode_two_cards
      → r.card_len ≢ 0
      → r.card2_len ≢ 0
      → KeysLetIn lib r
      → RowGrants lib name r

SomeNotRefused-SomeRow :
    (lib : Libraries) (pin : List ℕ) (pin_len mode : ℕ) (rows : List Row)
    → SomeNotRefused mode (pin_md5_of lib pin pin_len mode) rows
    → SomeRow (LetsIn lib pin pin_len mode) rows
SomeNotRefused-SomeRow lib pin pin_len mode [] o = o
SomeNotRefused-SomeRow lib pin pin_len mode (row ∷ rows) (inl o) = inl (record {
  current = o.current;
  has_pin = (pin_refused-HasPin lib pin pin_len mode row).0 o.pin_right;
})
SomeNotRefused-SomeRow lib pin pin_len mode (row ∷ rows) (inr o) =
    inr (SomeNotRefused-SomeRow lib pin pin_len mode rows o)

module _ (lib : Libraries) (db : UserDb) (answers : Answers lib db) where
  mask-RowLetsIn :
      (r : DoorReader) (mode : ℕ) (name : Text)
      → (db.get_access_mask r mode name).mask ≢ 0
      → RowLetsIn lib name r mode
  mask-RowLetsIn r mode name granted = elim (Option-cases (get_access_mask lib r mode name)) [
    | inl e ↦ inl e
    | inr (v, e) ↦
        let same = answers.by_mask r mode name v e in
        let (q, fits, asked, row) =
          get_access_mask2-NotRefused lib r.pin r.pin_len r.card r.card_len mode name v e
            (λ z. granted (ap (λ (u : Verdict). u.mask) same ∙ z)) in
        inr (
          q,
          query_of-AsksFor lib r.pin r.pin_len r.card r.card_len mode name q fits asked,
          SomeNotRefused-SomeRow lib r.pin r.pin_len mode (lib.query q) row,
        )
  ]

  keys-KeysLetIn : (r : DoorReader) → (db.check_key_access r).mask ≢ 0 → KeysLetIn lib r
  keys-KeysLetIn r granted = elim (Option-cases (check_key_access lib r)) [
    | inl e ↦ inl e
    | inr (v, e) ↦
        let (row, rest, asked, current) =
          check_key_access2-first lib r.card r.card_len r.card2 r.card2_len v e
            (λ z. granted (ap (λ (u : Verdict). u.mask) (answers.by_keys r v e) ∙ z)) in
        let one = card_text-eq lib r.card r.card_len in
        let two = card_text-eq lib r.card2 r.card2_len in
        inr (row, rest, rw (one, two) at asked, current)
  ]

  Grants-RowGrants : (name : Text) (r : DoorReader) → Grants db name r → RowGrants lib name r
  Grants-RowGrants name r (by_card m c g) = card_row m c (mask-RowLetsIn r mode_card name g)
  Grants-RowGrants name r (by_pin m c g) = pin_row m c (mask-RowLetsIn r mode_pin name g)
  Grants-RowGrants name r (by_card_and_pin m c p g) =
      card_and_pin_row m c p (mask-RowLetsIn r mode_card_and_pin_always name g)
  Grants-RowGrants name r (by_card_alone m c g) =
      no_pin_row m c (mask-RowLetsIn r mode_card_and_pin name g)
  Grants-RowGrants name r (by_two_cards m c d g) = keys_row m c d (keys-KeysLetIn r g)

-- Which row opens a door. A call of `process_user_info` drives an output only if it comes from a
-- reader of the door, the input could be stored in that reader, and a row of the user database lets
-- the stored credentials in, in a way that the access policy of the reader's mode allows: a row of
-- the door and the MD5 sum of the PIN, or of the door and the digits of the card, that has not expired
-- and has the sum of the PIN where the mode asks for both, or may do without one or has an empty one
-- where the mode asks for the card first; or the first row for the digits of the two cards. The
-- controller is told what the functions of the user database return, where C defines what they do.
pub process_user_info-RowGrants :
    (lib : Libraries) (db : UserDb) (handle : ℕ) (u : UserInfo) (i : ℕ) (w : World)
    → Answers lib db
    → outputs (process_user_info db handle u i w).log ≢ outputs w.log
    → (side : Side) × (r : DoorReader) × ((door_reader side (w.doors i)).reader ≡ some handle)
      × (store_input (door_reader side (w.doors i)) u ≡ stored r)
      × RowGrants lib (w.doors i).door_name r
process_user_info-RowGrants lib db handle u i w answers driven =
    let (side, r, at_side, is_stored, grants) = process_user_info-Grants db handle u i w driven in
    (side, r, at_side, is_stored, Grants-RowGrants lib db answers (w.doors i).door_name r grants)
