-- ===== src/Access/Shown.antt =====
-- A credential that is shown at a door, through door_controller/door_controller.c and
-- door_controller/user_db.c to the outputs.
use osdp_roger_acs.Base.{
  ℕ, ◌+◌, ◌-◌, ◌≤◌, ◌<◌, min, ◌≡◌, ◌↔◌, ◌⊎◌, refl, sym, ap, ◌∙◌, arith, some, true, false,
}
use osdp_roger_acs.Base.{Option, ==_iff, memcpy, bit, bit-le-one, set}
use osdp_roger_acs.Reader.{UserInfo, DataType, DataMode}
use osdp_roger_acs.Door.{
  DoorReader, Door, World, Side, side_a, side_b, door_reader, max_card_len, max_pin_len,
}
use osdp_roger_acs.Door.Lock.{unlock_mask}
use osdp_roger_acs.Door.Masks.{unlock_mask-bit, unlock_mask-outside}
use osdp_roger_acs.Door.Auth.{
  UserDb, Verdict, store_input, stored, process_user_info, process_side, check_access, is_reader,
  mode_card, mode_pin, mode_card_or_pin,
}
use osdp_roger_acs.Door.Grants.{outputs}
use osdp_roger_acs.Door.Outputs.{unlocking, process_side-outputs}
use osdp_roger_acs.UserDb.{Libraries}
use osdp_roger_acs.UserDb.Policy.{Admits}
use osdp_roger_acs.UserDb.Mask.{get_access_mask2-bit}
use osdp_roger_acs.Access.{get_access_mask, Answers}

-- Reader `handle` is that side of the door, and not the other side before it.
abbrev pub At : Side → ℕ → Door → Type 0
At side_a handle d = d.reader_a.reader ≡ some handle
At side_b handle d =
    (is_reader d.reader_a.reader handle ≡ false) × (d.reader_b.reader ≡ some handle)

is_reader_self : (o : Option ℕ) (handle : ℕ) → o ≡ some handle → is_reader o handle ≡ true
is_reader_self o handle e = rw e ((==_iff handle handle).1 refl)

process_user_info-At :
    (db : UserDb) (side : Side) (handle : ℕ) (u : UserInfo) (i : ℕ) (w : World)
    → At side handle (w.doors i)
    → process_user_info db handle u i w ≡ process_side db i side handle u w
unfolding process_user_info
process_user_info-At db side_a handle u i w at = rw (is_reader_self _ handle at) refl
process_user_info-At db side_b handle u i w (other, at) =
    rw other (rw (is_reader_self _ handle at) refl)

-- What is driven: the subdoors that a row of the user database admits and that are the door's, and
-- neither held by the airlock nor disabled, each at its output, and no other output.
pub record Drives (w w' : World) (i : ℕ) (admits : ℕ → Type 0) : Type 0 where
  pub driven : ℕ
  pub as_output : outputs w'.log ≡ unlocking driven (outputs w.log)
  pub exactly :
      (k : ℕ)
      → (w.doors i).mask_offset + k < 32
      → (bit ((w.doors i).mask_offset + k) driven ≡ 1) ↔ (
          admits k
          × (bit k (w.doors i).mask_full ≡ 1)
          × (bit k (w.doors i).air_lock_mask ≡ 0)
          × (bit k (w.doors i).adm_disable_mask ≡ 0))
  pub no_other : (k : ℕ) → (k < (w.doors i).mask_offset) ⊎ (32 ≤ k) → bit k driven ≡ 0

all_four :
    (a b c d : ℕ)
    → a ≤ 1
    → b ≤ 1
    → (min (min (min a b) (1 - c)) (1 - d) ≡ 1) ↔ ((a ≡ 1) × (b ≡ 1) × (c ≡ 0) × (d ≡ 0))
all_four a b c d ha hb = (λ e. omega arith, λ e. omega arith)

module _ (lib : Libraries) (db : UserDb) (answers : Answers lib db) (side : Side) (handle i : ℕ)
    (u : UserInfo) (w : World) (at : At side handle (w.doors i)) where
  abbrev door : Door
  door = w.doors i

  abbrev shown : DoorReader
  shown = door_reader side door

  abbrev after : World
  after = process_user_info db handle u i w

  -- The switch on the mode asks the user database once.
  asked-Drives :
      (r : DoorReader) (mode : ℕ) (v : Verdict)
      → store_input shown u ≡ stored r
      → (check_access db door.door_name handle r).auth_mask
        ≡ (db.get_access_mask r mode door.door_name).mask
      → get_access_mask lib r mode door.door_name ≡ some v
      → Drives w after i (Admits lib r.pin r.pin_len r.card r.card_len mode door.door_name)
  asked-Drives r mode v is_stored asks e =
      let mask = (check_access db door.door_name handle r).auth_mask in
      let same : mask ≡ v.mask =
        asks ∙ ap (λ (x : Verdict). x.mask) (answers.by_mask r mode door.door_name v e) in
      record {
        driven = unlock_mask door mask;
        as_output =
            ap (λ (x : World). outputs x.log) (process_user_info-At db side handle u i w at)
            ∙ process_side-outputs db i side handle u r w is_stored;
        exactly = λ k fits.
            let bits =
              get_access_mask2-bit lib r.pin r.pin_len r.card r.card_len mode door.door_name v k
                e in
            let four =
              all_four (bit k mask) (bit k door.mask_full) (bit k door.air_lock_mask)
                (bit k door.adm_disable_mask) (bit-le-one k mask) (bit-le-one k door.mask_full) in
            let is = unlock_mask-bit door mask k fits in
            (
              λ b.
                  let (m, f, a, d) = four.0 (sym is ∙ b) in
                  (bits.0 (ap (bit k) (sym same) ∙ m), f, a, d),
              λ (o, f, a, d). is ∙ four.1 (ap (bit k) same ∙ bits.1 o, f, a, d),
            );
        no_other = λ k outside. unlock_mask-outside door mask k outside;
      }

  abbrev with_card : DoorReader
  with_card = record shown { card = memcpy shown.card u.bytes u.len; card_len = u.len }

  abbrev with_pin : DoorReader
  with_pin = record shown { pin = set (memcpy shown.pin u.bytes u.len) u.len 0; pin_len = u.len }

  card_asks :
      (shown.access_mode ≡ mode_card) ⊎ (shown.access_mode ≡ mode_card_or_pin)
      → 0 < u.len
      → (check_access db door.door_name handle with_card).auth_mask
        ≡ (db.get_access_mask with_card mode_card door.door_name).mask
  unfolding check_access
  card_asks m some_card = ground (arith, m)

  pin_asks :
      (shown.access_mode ≡ mode_pin)
        ⊎ ((shown.access_mode ≡ mode_card_or_pin) × (shown.card_len ≡ 0))
      → 0 < u.len
      → (check_access db door.door_name handle with_pin).auth_mask
        ≡ (db.get_access_mask with_pin mode_pin door.door_name).mask
  unfolding check_access
  pin_asks m some_pin = ground (arith, m)

  stores_card :
      shown.card_len ≡ 0
      → u.type ≡ DataType.is_card
      → u.mode ≡ DataMode.complete
      → u.len ≤ max_card_len
      → store_input shown u ≡ stored with_card
  unfolding store_input
  stores_card empty t m fits = ground (arith, empty, t, m, fits)

  stores_pin :
      shown.pin_len ≡ 0
      → u.type ≡ DataType.is_pin
      → u.mode ≡ DataMode.complete
      → u.len ≤ max_pin_len
      → store_input shown u ≡ stored with_pin
  unfolding store_input
  stores_pin empty t m fits = ground (arith, empty, t, m, fits)

  -- A card of at most 16 bytes that is shown at a reader of the door, in the mode MODE_CARD or
  -- MODE_CARD_OR_PIN and while no card is stored, unlocks exactly the outputs of the subdoors for which
  -- a row of the user database admits the card, and that are the door's and neither held by the airlock
  -- nor disabled; nothing else is driven. The user database answers without an undefined access, and
  -- the controller is told what it answers.
  pub card-Drives :
      (v : Verdict)
      → (shown.access_mode ≡ mode_card) ⊎ (shown.access_mode ≡ mode_card_or_pin)
      → shown.card_len ≡ 0
      → u.type ≡ DataType.is_card
      → u.mode ≡ DataMode.complete
      → 0 < u.len
      → u.len ≤ max_card_len
      → get_access_mask lib with_card mode_card door.door_name ≡ some v
      → Drives w after i
          (Admits lib shown.pin shown.pin_len with_card.card u.len mode_card door.door_name)
  card-Drives v m empty t complete some_card fits e =
      asked-Drives with_card mode_card v (stores_card empty t complete fits) (card_asks m some_card)
        e

  -- A PIN of at most 16 digits that is typed at a reader of the door, in the mode MODE_PIN, or in
  -- MODE_CARD_OR_PIN while no card is stored, and while no PIN is stored, unlocks exactly the outputs of
  -- the subdoors for which a row of the user database admits the PIN, and that are the door's and
  -- neither held by the airlock nor disabled; nothing else is driven. The user database answers without
  -- an undefined access, and the controller is told what it answers.
  pub pin-Drives :
      (v : Verdict)
      → (shown.access_mode ≡ mode_pin)
        ⊎ ((shown.access_mode ≡ mode_card_or_pin) × (shown.card_len ≡ 0))
      → shown.pin_len ≡ 0
      → u.type ≡ DataType.is_pin
      → u.mode ≡ DataMode.complete
      → 0 < u.len
      → u.len ≤ max_pin_len
      → get_access_mask lib with_pin mode_pin door.door_name ≡ some v
      → Drives w after i
          (Admits lib with_pin.pin u.len shown.card shown.card_len mode_pin door.door_name)
  pin-Drives v m empty t complete some_pin fits e =
      asked-Drives with_pin mode_pin v (stores_pin empty t complete fits) (pin_asks m some_pin) e
