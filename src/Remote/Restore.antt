-- ===== src/Remote/Restore.antt =====
-- The state that door_controller/remoteControl.c stores and restores when the program starts.
use osdp_roger_acs.Base.{ℕ, ◌≡◌, ◌≢◌, refl, sym, ap, ◌∙◌, ◌⊎◌, inl, inr, arith, some}
use osdp_roger_acs.Base.{Option-cases, if◌then◌else◌, List, [], ◌∷◌}
use native.Mathlib.Decide.{ℕ_discrete}
use mathlib.Core.List.{List-discrete}
use osdp_roger_acs.CString.{codes}
use osdp_roger_acs.Door.{Text, text_eq, World, get_door_by_name}
use osdp_roger_acs.Door.Lock.{unlock_door, lock_door}
use osdp_roger_acs.Door.Frame.{doors-signal_door_status, doors_count-signal_door_status}
use osdp_roger_acs.Door.Frame.{unlock_door-SameButLock, lock_door-SameButLock}
use osdp_roger_acs.Door.Frame.{doors_count-unlock_door, doors_count-lock_door}
use osdp_roger_acs.Door.Names.{get_door_by_name-name, get_door_by_name-same}
use osdp_roger_acs.Remote.{set_adm, restore_row, restore_rows}

-- A row of the table: the door, the mode and the mask.
abbrev pub StoredRow : Type 0
StoredRow = Text × Text × ℕ

abbrev pub HasRow : StoredRow → List StoredRow → Type 0
HasRow row [] = ⊥
HasRow row (r ∷ rows) = (row ≡ r) ⊎ HasRow row rows

abbrev pub IsMode : Text → Type 0
IsMode mode = (mode ≡ codes "lock") ⊎ (mode ≡ codes "unlock")

-- The masks of the doors, their names and their number: what a row may change, and what it may not.
record SameNames (w w' : World) : Type 0 where
  same_count : w'.doors_count ≡ w.doors_count
  same_names : (j : ℕ) → (w'.doors j).door_name ≡ (w.doors j).door_name

abbrev adm : World → ℕ → ℕ
adm w j = (w.doors j).adm_disable_mask

-- A row for door `i`, in the two branches that do something.
abbrev driven : ℕ → Text → ℕ → World → World
driven i mode m w =
    if text_eq mode (codes "unlock")
    then set_adm i m (unlock_door i m w).1
    else (if text_eq mode (codes "lock") then set_adm i m (lock_door i m w).1 else w)

driven-SameNames : (i m : ℕ) (mode : Text) (w : World) → SameNames w (driven i mode m w)
driven-SameNames i m mode w = record {
  same_count = ground (arith, doors_count-unlock_door i m w, doors_count-lock_door i m w);
  same_names = λ j. ground (arith, unlock_door-SameButLock i m w j, lock_door-SameButLock i m w j);
}

driven-adm_ne : (i m j : ℕ) (mode : Text) (w : World) → j ≢ i → adm (driven i mode m w) j ≡ adm w j
driven-adm_ne i m j mode w h =
    ground (arith, unlock_door-SameButLock i m w j, lock_door-SameButLock i m w j)

driven-adm : (i m : ℕ) (mode : Text) (w : World) → IsMode mode → adm (driven i mode m w) i ≡ m
driven-adm i m mode w (inl e) = rw e (ground arith)
driven-adm i m mode w (inr e) = rw e (ground arith)

restore_row-SameNames : (row : StoredRow) (w : World) → SameNames w (restore_row row w)
unfolding restore_row
restore_row-SameNames (name, mode, m) w = elim (Option-cases (get_door_by_name w name)) [
  | inl e ↦ rw (e, restore_row) (record { same_count = refl; same_names = λ j. refl })
  | inr (i, e) ↦
      let v = driven-SameNames i m mode w in
      rw (e, restore_row)
        (record {
          same_count = doors_count-signal_door_status i _ ∙ v.same_count;
          same_names = λ j. rw doors-signal_door_status (v.same_names j);
        })
]

restore_row-adm :
    (name mode : Text) (i m : ℕ) (w : World)
    → get_door_by_name w name ≡ some i
    → IsMode mode
    → adm (restore_row (name, mode, m) w) i ≡ m
unfolding restore_row
restore_row-adm name mode i m w e is_mode =
    rw (e, restore_row) (rw doors-signal_door_status (driven-adm i m mode w is_mode))

-- The row of another door leaves this one's mask.
restore_row-adm_ne :
    (name name' mode : Text) (i m : ℕ) (w : World)
    → get_door_by_name w name ≡ some i
    → name' ≢ name
    → adm (restore_row (name', mode, m) w) i ≡ adm w i
unfolding restore_row
restore_row-adm_ne name name' mode i m w e h = elim (Option-cases (get_door_by_name w name')) [
  | inl f ↦ rw (f, restore_row)
  | inr (j, f) ↦
      let apart : i ≢ j = λ same. h (
        sym (get_door_by_name-name w j name' f)
        ∙ (ap (λ (k : ℕ). (w.doors k).door_name) (sym same) ∙ get_door_by_name-name w i name e)) in
      rw (f, restore_row) (rw doors-signal_door_status (driven-adm_ne j m i mode w apart))
]

-- Every row of door `name` says `m`.
abbrev pub Says : Text → ℕ → List StoredRow → Type 0
Says name m rows = (mode : Text) (m' : ℕ) → HasRow (name, mode, m') rows → IsMode mode × (m' ≡ m)

step-adm :
    (name name' mode : Text) (i m m' : ℕ) (rows : List StoredRow) (w : World)
    → get_door_by_name w name ≡ some i
    → Says name m ((name', mode, m') ∷ rows)
    → (adm w i ≡ m) ⊎ ((k : Text) × HasRow (name, k, m) ((name', mode, m') ∷ rows))
    → (adm (restore_row (name', mode, m') w) i ≡ m) ⊎ ((k : Text) × HasRow (name, k, m) rows)
step-adm name name' mode i m m' rows w e says h = elim (List-discrete ℕ_discrete name' name) [
  | yes same ↦
      let row : (name, mode, m') ≡ (name', mode, m') =
        ap (λ (n : Text). (n, mode, m')) (sym same) in
      let (is_mode, same_mask) = says mode m' (inl row) in
      let e' = ap (get_door_by_name w) same ∙ e in
      inl (restore_row-adm name' mode i m' w e' is_mode ∙ same_mask)
  | no ne ↦ elim h [
    | inl a ↦ inl (restore_row-adm_ne name name' mode i m' w e ne ∙ a)
    | inr (k, inl q) ↦ absurd (ne (sym (ap (λ (r : StoredRow). r.0) q)))
    | inr (k, inr q) ↦ inr (k, q)
  ]
]

pub restore_rows-adm :
    (name : Text) (i m : ℕ) (rows : List StoredRow) (w : World)
    → get_door_by_name w name ≡ some i
    → Says name m rows
    → (adm w i ≡ m) ⊎ ((mode : Text) × HasRow (name, mode, m) rows)
    → adm (restore_rows rows w) i ≡ m
unfolding restore_rows
restore_rows-adm name i m [] w e says (inl h) = h
restore_rows-adm name i m [] w e says (inr (mode, h)) = absurd h
restore_rows-adm name i m ((name', mode, m') ∷ rows) w e says h =
    let after = restore_row (name', mode, m') w in
    let v = restore_row-SameNames (name', mode, m') w in
    let found = get_door_by_name-same w after name v.same_count v.same_names ∙ e in
    restore_rows-adm name i m rows after found (λ mode k has. says mode k (inr has))
      (step-adm name name' mode i m m' rows w e says h)

pub lock_only : (mode : Text) → IsMode mode → mode ≢ codes "unlock" → mode ≡ codes "lock"
lock_only mode (inl e) ne = e
lock_only mode (inr e) ne = absurd (ne e)

pub unlock_only : (mode : Text) → IsMode mode → mode ≢ codes "lock" → mode ≡ codes "unlock"
unlock_only mode (inl e) ne = absurd (ne e)
unlock_only mode (inr e) ne = e
