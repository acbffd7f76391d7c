-- ===== src/Remote/Refinement.antt =====
-- The commands of door_controller/remoteControl.c against what the table of modes promises.
use osdp_roger_acs.Base.{ℕ, ◌≡◌, refl, sym, ap, ◌∙◌, inl, inr, arith, Option, none, some}
use osdp_roger_acs.Base.{Option-cases, List, [], ◌∷◌}
use mathlib.Core.Option.{some-injective}
use osdp_roger_acs.Door.{Text, World, get_door_by_name}
use osdp_roger_acs.Remote.{StateDb, Request, serve}
use osdp_roger_acs.Remote.{restore_rows}
use osdp_roger_acs.Remote.Restore.{StoredRow, HasRow, IsMode, restore_rows-adm}
use osdp_roger_acs.Remote.Stored.{Modes, Represents, Table}
use osdp_roger_acs.Remote.OneCommand.{stored_after, serve-Represents}

-- Commands one after the other.
unfoldable pub serve_all : {D : Type 0} → StateDb D → List Request → World → D → World × D
serve_all state_db [] w db = (w, db)
serve_all state_db (r ∷ rs) w db =
    let (w', db') = serve state_db r w db in serve_all state_db rs w' db'

-- And what they make of the stored modes.
unfoldable pub stored_after_all :
    {D : Type 0} → StateDb D → List Request → World → D → Modes → Modes
stored_after_all state_db [] w db st = st
stored_after_all state_db (r ∷ rs) w db st =
    let (w', db') = serve state_db r w db in
    stored_after_all state_db rs w' db' (stored_after r w st)

serve_all-Represents :
    {D : Type 0} (state_db : StateDb D) (table : Table state_db) (rs : List Request) (w : World)
    (db : D) (st : Modes)
    → Represents (state_db.rows db) st
    → Represents
        (state_db.rows (serve_all state_db rs w db).1)
        (stored_after_all state_db rs w db st)
unfolding serve_all stored_after_all
serve_all-Represents state_db table [] w db st v = v
serve_all-Represents state_db table (r ∷ rs) w db st v =
    serve_all-Represents state_db table rs _ _ (stored_after r w st)
      (serve-Represents state_db table r w db st v)

-- The mask that a door has disabled after a restart.
abbrev pub restored : Option (Text × ℕ) → ℕ → ℕ
restored none m = m
restored (some (mode, m')) m = m'

says :
    {rs : List StoredRow} {st : Modes}
    → Represents rs st
    → (name mode k : Text) (m m' : ℕ) → st name ≡ some (mode, m)
    → HasRow (name, k, m') rs
    → IsMode k × (m' ≡ m)
says v name mode k m m' e has =
    let same = some-injective _ _ (sym (v.to_stored name k m' has) ∙ e) in
    (v.modes name k m' (v.to_stored name k m' has), ap (λ (q : Text × ℕ). q.1) same)

restore_rows-Represents :
    (rs : List StoredRow) (st : Modes) (name : Text) (i : ℕ) (w : World)
    → Represents rs st
    → get_door_by_name w name ≡ some i
    → ((restore_rows rs w).doors i).adm_disable_mask
      ≡ restored (st name) ((w.doors i).adm_disable_mask)
restore_rows-Represents rs st name i w v found = elim (Option-cases (st name)) [
  | inl e ↦ rw e (
      restore_rows-adm name i _ rs w found
        (λ mode m has. absurd (ground (arith, v.to_stored name mode m has, e))) (inl refl))
  | inr ((mode, m), e) ↦ rw e (
      restore_rows-adm name i m rs w found (λ k m' has. says v name mode k m m' e has)
        (inr (mode, v.to_row name mode m e)))
]

-- The table implements a function from doors to a mode and a mask. Begin with a table that
-- represents one, serve any commands, in any state of the doors, and start again with the table that
-- they left: then each door that is found by its name has the mask disabled that the commands make
-- of the function, `set` by replacing the door's mode and mask, `unset` by removing them if the mode
-- is the one that is named, and the others not at all; a door for which nothing is stored keeps its
-- mask. The statements of the table take effect.
pub serve_all-restart :
    {D : Type 0} (state_db : StateDb D)
    → Table state_db
    → (rs : List Request) (w w₀ : World) (db : D) (st : Modes) (name : Text) (i : ℕ)
    → Represents (state_db.rows db) st
    → get_door_by_name w₀ name ≡ some i
    → ((restore_rows (state_db.rows (serve_all state_db rs w db).1) w₀).doors i).adm_disable_mask
      ≡ restored (stored_after_all state_db rs w db st name) ((w₀.doors i).adm_disable_mask)
serve_all-restart state_db table rs w w₀ db st name i v found =
    restore_rows-Represents _ _ name i w₀ (serve_all-Represents state_db table rs w db st v) found
