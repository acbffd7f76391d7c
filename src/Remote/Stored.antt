-- ===== src/Remote/Stored.antt =====
-- What the table of door_controller/remoteControl.c promises, and that the commands keep it: for each
-- door at most one mode, with its mask.
use osdp_roger_acs.Base.{
  ℕ, ◌≡◌, ◌≢◌, refl, sym, ap, ◌∙◌, ◌⊎◌, inl, inr, arith, Option, none, some, Bool, true, false,
}
use osdp_roger_acs.Base.{Bool-cases, if◌then◌else◌, ◌&&◌, List}
use mathlib.Core.Option.{some-injective}
use osdp_roger_acs.Door.{Text, text_eq}
use osdp_roger_acs.Door.Names.{text_eq-eq, text_eq_refl}
use osdp_roger_acs.Remote.{StateDb}
use osdp_roger_acs.Remote.Restore.{StoredRow, HasRow, IsMode}

-- The mode and the mask of each door.
abbrev pub Modes : Type 0
Modes = Text → Option (Text × ℕ)

unfoldable pub put : Text → Text → ℕ → Modes → Modes
put name mode m st n = if text_eq n name then some (mode, m) else st n

abbrev has_mode : Option (Text × ℕ) → Text → Bool
has_mode none mode = false
has_mode (some (k, m)) mode = text_eq k mode

unfoldable pub clear : Text → Text → Modes → Modes
clear name mode st n = if text_eq n name && has_mode (st n) mode then none else st n

-- The table is the graph of such a function, and its modes are two.
pub record Represents (rows : List StoredRow) (st : Modes) : Type 0 where
  pub to_stored : (n k : Text) (m : ℕ) → HasRow (n, k, m) rows → st n ≡ some (k, m)
  pub to_row : (n k : Text) (m : ℕ) → st n ≡ some (k, m) → HasRow (n, k, m) rows
  pub modes : (n k : Text) (m : ℕ) → st n ≡ some (k, m) → IsMode k

-- A table of SQLite with one row for each door and mode, whose statements all take effect.
pub record Table {D : Type 0} (state_db : StateDb D) : Type 0 where
  pub inserted :
      (n k : Text) (m : ℕ) (db : D)
      → HasRow (n, k, m) (state_db.rows (state_db.insert_or_replace n k m db).1)
  pub insert_keeps :
      (n k : Text) (m : ℕ) (db : D) (n' k' : Text) (m' : ℕ)
      → n' ≢ n
      → HasRow (n', k', m') (state_db.rows db)
      → HasRow (n', k', m') (state_db.rows (state_db.insert_or_replace n k m db).1)
  pub insert_only :
      (n k : Text) (m : ℕ) (db : D) (n' k' : Text) (m' : ℕ)
      → HasRow (n', k', m') (state_db.rows (state_db.insert_or_replace n k m db).1)
      → ((n' ≡ n) × (k' ≡ k) × (m' ≡ m))
        ⊎ (HasRow (n', k', m') (state_db.rows db) × ((n' ≡ n) → k' ≢ k))
  pub delete_keeps :
      (n k : Text) (db : D) (n' k' : Text) (m' : ℕ)
      → ((n' ≡ n) → k' ≢ k)
      → HasRow (n', k', m') (state_db.rows db)
      → HasRow (n', k', m') (state_db.rows (state_db.delete n k db).1)
  pub delete_only :
      (n k : Text) (db : D) (n' k' : Text) (m' : ℕ)
      → HasRow (n', k', m') (state_db.rows (state_db.delete n k db).1)
      → HasRow (n', k', m') (state_db.rows db) × ((n' ≡ n) → k' ≢ k)

put-same : (name mode : Text) (m : ℕ) (st : Modes) → put name mode m st name ≡ some (mode, m)
unfolding put
put-same name mode m st = rw (text_eq_refl name) refl

put-ne : (name mode n : Text) (m : ℕ) (st : Modes) → n ≢ name → put name mode m st n ≡ st n
unfolding put
put-ne name mode n m st ne = elim (Bool-cases (text_eq n name)) [
  | inl e ↦ absurd (ne (text_eq-eq n name e))
  | inr e ↦ rw e refl
]

text_cases : (s t : Text) → (s ≡ t) ⊎ (s ≢ t)
text_cases s t = elim (Bool-cases (text_eq s t)) [
  | inl e ↦ inl (text_eq-eq s t e)
  | inr e ↦ inr (λ same. ground (arith, text_eq_refl t, rw same at e))
]

put_cases :
    (name on n k : Text) (m m' : ℕ) (st : Modes)
    → put name on m st n ≡ some (k, m')
    → ((n ≡ name) × (k ≡ on) × (m' ≡ m)) ⊎ ((n ≢ name) × (st n ≡ some (k, m')))
put_cases name on n k m m' st e = elim (text_cases n name) [
  | inl s ↦
      let f = some-injective _ _ (sym (put-same name on m st) ∙ (rw s at e)) in
      inl (s, sym (ap (λ (q : Text × ℕ). q.0) f), sym (ap (λ (q : Text × ℕ). q.1) f))
  | inr ne ↦ inr (ne, sym (put-ne name on n m st ne) ∙ e)
]

clear_cases :
    (name mode n k : Text) (m : ℕ) (st : Modes)
    → clear name mode st n ≡ some (k, m)
    → (st n ≡ some (k, m)) × ((n ≡ name) → k ≢ mode)
unfolding clear
clear_cases name mode n k m st e = elim (Bool-cases (text_eq n name && has_mode (st n) mode)) [
  | inl f ↦ absurd (ground (arith, rw f at e))
  | inr f ↦
      let stored : st n ≡ some (k, m) = rw f at e in
      (
        stored,
        λ s t. ground (arith, text_eq_refl name, text_eq_refl mode, rw (s, t) at (rw stored at f)),
      )
]

clear-other :
    (name mode n k : Text) (m : ℕ) (st : Modes)
    → st n ≡ some (k, m)
    → ((n ≡ name) → k ≢ mode)
    → clear name mode st n ≡ some (k, m)
unfolding clear
clear-other name mode n k m st e ne = elim (Bool-cases (text_eq n name && has_mode (st n) mode)) [
  | inr f ↦ rw f e
  | inl f ↦
      let g = rw e at f in
      let same_name : text_eq n name ≡ true = ground (arith, g) in
      let same_mode : text_eq k mode ≡ true = ground (arith, g) in
      absurd (ne (text_eq-eq n name same_name) (text_eq-eq k mode same_mode))
]

module _ {D : Type 0} (state_db : StateDb D) (table : Table state_db) where
  open state_db use {insert_or_replace, delete, rows}

  pub set-Represents :
      (off on name : Text) (m : ℕ) (db : D) (st : Modes)
      → IsMode on
      → ((k : Text) → IsMode k → k ≢ off → k ≡ on)
      → Represents (rows db) st
      → Represents (rows (insert_or_replace name on m (delete name off db).1).1) (put name on m st)
  set-Represents off on name m db st is_mode both v =
      let db₁ = (delete name off db).1 in
      record {
        to_stored = λ n k m' has. elim (table.insert_only name on m db₁ n k m' has) [
          | inl (e, f, g) ↦ rw (e, f, g) (put-same name on m st)
          | inr (before, ne) ↦
              let (old, kept) = table.delete_only name off db n k m' before in
              let stored = v.to_stored n k m' old in
              let other : n ≢ name = λ e. ne e (both k (v.modes n k m' stored) (kept e)) in
              put-ne name on n m st other ∙ stored
        ];
        to_row = λ n k m' e. elim (put_cases name on n k m m' st e) [
          | inl (f, g, h) ↦ rw (f, g, h) (table.inserted name on m db₁)
          | inr (other, stored) ↦
              let before =
                table.delete_keeps name off db n k m' (λ f. absurd (other f))
                  (v.to_row n k m' stored) in
              table.insert_keeps name on m db₁ n k m' other before
        ];
        modes = λ n k m' e. elim (put_cases name on n k m m' st e) [
          | inl (f, g, h) ↦ rw g is_mode
          | inr (other, stored) ↦ v.modes n k m' stored
        ];
      }

  pub unset-Represents :
      (name mode : Text) (db : D) (st : Modes)
      → Represents (rows db) st
      → Represents (rows (delete name mode db).1) (clear name mode st)
  unset-Represents name mode db st v = record {
    to_stored = λ n k m has.
        let (old, ne) = table.delete_only name mode db n k m has in
        clear-other name mode n k m st (v.to_stored n k m old) ne;
    to_row = λ n k m e.
        let (stored, ne) = clear_cases name mode n k m st e in
        table.delete_keeps name mode db n k m ne (v.to_row n k m stored);
    modes = λ n k m e. v.modes n k m (clear_cases name mode n k m st e).0;
  }
