-- ===== src/Program/Airlock.antt =====
-- The airlock over a whole run of door_controller/main.c, from its start.
use osdp_roger_acs.Base.{ℕ, ◌<◌, ◌≡◌, sym, inl, inr, List, [], ◌∷◌, Option-cases, some, arith}
use osdp_roger_acs.Base.{Bool}
use osdp_roger_acs.CString.{codes}
use osdp_roger_acs.Door.{Text, text_eq, World, get_door_by_name}
use osdp_roger_acs.Door.Auth.{UserDb}
use osdp_roger_acs.Door.Lock.{unlock_door, lock_door}
use osdp_roger_acs.Door.Frame.{doors-signal_door_status, unlock_door-zero}
use osdp_roger_acs.Door.Airlock.{unlock_mask-IsHeld}
use osdp_roger_acs.Base.{◌⊎◌}
use osdp_roger_acs.Door.Interlock.{Paired, Paired-agree, Interlocked}
use osdp_roger_acs.Door.Steps.{if-keeps}
use osdp_roger_acs.Door.FirstRound.{Waiting}
use osdp_roger_acs.Door.FirstRound.Waits.{Waiting-same, unlock_door-Waiting, lock_door-Waiting}
use osdp_roger_acs.Door.FirstRound.Phases.{main_loop-first}
use osdp_roger_acs.Remote.{StateDb, set_adm, restore_row, restore_rows}
use osdp_roger_acs.Remote.Airlock.{serve-Interlocked}
use osdp_roger_acs.Remote.Frame.{restore_rows-SameDoors}
use osdp_roger_acs.Remote.Same.{SameDoors-refl}
use osdp_roger_acs.Program.Config.{goes}
use osdp_roger_acs.Program.Main.{Turn, turns, Setting, start}
use osdp_roger_acs.Program.Fresh.{Fresh}
use osdp_roger_acs.Program.Start.{start-cases}
use osdp_roger_acs.Program.Run.{AllTurns, IsPlain, turn_cases, turns-Interlocked}

module _ {i p : ℕ} where
  set_adm-Waiting : (k m : ℕ) (w : World) → Waiting i p w.doors → Waiting i p (set_adm k m w).doors
  set_adm-Waiting k m w v = Waiting-same w.doors _ (λ j. ground arith) v

  -- What a row of the table of the remote control brings.
  restore_row-Waiting :
      (row : Text × Text × ℕ) (w : World)
      → Waiting i p w.doors
      → Waiting i p (restore_row row w).doors
  unfolding restore_row
  restore_row-Waiting (name, arg1, m) w v = elim (Option-cases (get_door_by_name w name)) [
    | inl e ↦ rw (e, restore_row) v
    | inr (k, e) ↦
        let unlocked = set_adm-Waiting k m (unlock_door k m w).1 (unlock_door-Waiting k m w v) in
        let locked = set_adm-Waiting k m (lock_door k m w).1 (lock_door-Waiting k m w v) in
        rw (e, restore_row)
          (rw doors-signal_door_status (
            if-keeps (Waiting i p) (text_eq arg1 (codes "unlock")) _ _ unlocked
              (if-keeps (Waiting i p) (text_eq arg1 (codes "lock")) _ _ locked v)))
  ]

  restore_rows-Waiting :
      (rows : List (Text × Text × ℕ)) (w : World)
      → Waiting i p w.doors
      → Waiting i p (restore_rows rows w).doors
  unfolding restore_rows
  restore_rows-Waiting [] w v = v
  restore_rows-Waiting (row ∷ rows) w v = restore_rows-Waiting rows _ (restore_row-Waiting row w v)

  Fresh-Waiting : (w : World) → Fresh w → Paired i p w.doors → Waiting i p w.doors
  Fresh-Waiting w fresh v =
      let a = fresh i in
      let b = fresh p in
      record {
        paired = v;
        timer_i = ground (arith, a.fresh_timer);
        timer_p = ground (arith, b.fresh_timer);
        holds_p = ground (arith, a.fresh_timer);
        holds_i = ground (arith, b.fresh_timer);
        one_waits = inl (ground (arith, a.fresh_timer));
      }

  restored-Waiting :
      (rows : List (Text × Text × ℕ)) (w : World)
      → Fresh w
      → Paired i p (restore_rows rows w).doors
      → Waiting i p (restore_rows rows w).doors
  restored-Waiting rows w fresh v =
      let same = (restore_rows-SameDoors w rows w (SameDoors-refl w)).same in
      let before : Paired i p w.doors =
        Paired-agree (restore_rows rows w).doors w.doors (λ j. sym (same j).same_partner)
          (λ j. sym (same j).same_full) v in
      restore_rows-Waiting rows w (Fresh-Waiting w fresh before)

  start-Waiting :
      {D : Type 0} (env : Setting) (state_db : StateDb D) (db : D) (given : List (ℕ × Text))
      (on : Bool) (w : World)
      → start env state_db db given ≡ goes (on, w)
      → Paired i p w.doors
      → Waiting i p w.doors
  start-Waiting env state_db db given on w started v =
      let (w₀, fresh, how, _) = start-cases env state_db db given on w started in
      elim how [
        | inl e ↦ rw e (Fresh-Waiting w₀ fresh (rw e at v))
        | inr (_, e) ↦ rw e (restored-Waiting (state_db.rows db) w₀ fresh (rw e at v))
      ]

-- At most one of the two doors has its lock timer running, and while it runs, `unlock_door` of the
-- other drives nothing and changes nothing, whatever subdoors it asks for.
pub record Excludes (i p : ℕ) (w : World) : Type 0 where
  pub one_runs : ((w.doors i).door_lock_timer ≡ 0) ⊎ ((w.doors p).door_lock_timer ≡ 0)
  pub i_bars_p : 0 < (w.doors i).door_lock_timer → (mask : ℕ) → unlock_door p mask w ≡ (0, w)
  pub p_bars_i : 0 < (w.doors p).door_lock_timer → (mask : ℕ) → unlock_door i mask w ≡ (0, w)

Interlocked-Excludes : (i p : ℕ) (w : World) → Interlocked i p w.doors → Excludes i p w
Interlocked-Excludes i p w v = record {
  one_runs = v.exclusive.one_unlocked;
  i_bars_p = λ runs mask.
      unlock_door-zero p mask w
        (unlock_mask-IsHeld (w.doors p) mask v.paired.fits_p (v.exclusive.holds_e runs));
  p_bars_i = λ runs mask.
      unlock_door-zero i mask w
        (unlock_mask-IsHeld (w.doors i) mask v.paired.fits_i (v.exclusive.holds_d runs));
}

-- From the start of the program, whatever the options, the configuration and the table of the remote
-- control are: two doors of the configuration that are each other's airlock partner, and no third
-- door's, are after each positive number of turns such that at most one of them has its lock timer
-- running, and while it runs, `unlock_door` of the other drives nothing and changes nothing, if the
-- datagrams have less than 128 bytes and none of them is a `set`, a `do block` or a `do unblock`. The
-- turns end. It is not about outputs that an administrative mask, as one of the stored table, keeps
-- from being locked when the timer ends.
pub program-Interlocked :
    {D : Type 0} {i p : ℕ} (env : Setting) (state_db : StateDb D) (user_db : UserDb) (db db' : D)
    (given : List (ℕ × Text)) (on : Bool) (w : World) (t : Turn) (ts : List Turn)
    → start env state_db db given ≡ goes (on, w)
    → Paired i p w.doors
    → i < w.doors_count
    → p < w.doors_count
    → AllTurns IsPlain (t ∷ ts)
    → (s : World × D) × (turns state_db user_db on (t ∷ ts) (w, db') ≡ some s) × Excludes i p s.0
unfolding turns
program-Interlocked {D} {i} {p} env state_db user_db db db' given on w t ts started v hi hp
      (q, all) =
    let waits = start-Waiting env state_db db given on w started v in
    let looped = main_loop-first user_db t.inputs t.lines t.stack w hi hp waits in
    let (s, e, how) = turn_cases state_db user_db on t w db' q.0 in
    let first : Interlocked i p s.0.doors = elim how [
      | inl f ↦ rw f looped
      | inr (d, f, g) ↦ rw g (serve-Interlocked state_db _ _ db' (q.1 d f) looped)
    ] in
    let (last, ran, kept) = turns-Interlocked state_db user_db on ts s.0 s.1 all first in
    (last, rw (e, turns) ran, Interlocked-Excludes i p last.0 kept)
