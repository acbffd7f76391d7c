-- ===== src/Remote/Frame.antt =====
-- What door_controller/remoteControl.c leaves alone: it changes of the doors the lock timers and the
-- masks that block them.
use Prim.Native.String.{String}
use osdp_roger_acs.Base.{ℕ, inl, inr, Option, none, some, Bool, true, false, arith}
use osdp_roger_acs.Base.{
  Option-cases, if◌then◌else◌, ◌==◌, bit_and, bit_or, not32, ◌||◌, List, [], ◌∷◌,
}
use osdp_roger_acs.CString.{codes}
use osdp_roger_acs.Door.{Text, text_eq, World, get_door_by_name}
use osdp_roger_acs.Door.Lock.{signal_door_status, unlock_door, lock_door}
use osdp_roger_acs.Door.Frame.{doors-signal_door_status}
use osdp_roger_acs.Door.Frame.{unlock_door-SameButLock, lock_door-SameButLock}
use osdp_roger_acs.Remote.{
  Done, get_command, get_info, get_dbinfo, set_adm, set_air, store_set, set_command, clear_masks,
}
use osdp_roger_acs.Remote.{unset_command, do_command, answer_ok, number_of}
use osdp_roger_acs.Remote.{
  Request, StateDb, serve, on_words, on_door, run_command, finish, restore_row, restore_rows,
}
use osdp_roger_acs.Remote.Same.{SameDoors}

data Kept {D : Type 0} (w₀ : World) (done : Done D) : Type 0 where
  keeps : SameDoors w₀ done.1 → Kept w₀ done

if-Kept :
    {D : Type 0} (w₀ : World) (b : Bool) (x y : Done D)
    → Kept w₀ x
    → Kept w₀ y
    → Kept w₀ (if b then x else y)
if-Kept w₀ true x y k l = k
if-Kept w₀ false x y k l = l

module _ (w₀ : World) where
  if-SameDoors :
      (b : Bool) (w₁ w₂ : World)
      → SameDoors w₀ w₁
      → SameDoors w₀ w₂
      → SameDoors w₀ (if b then w₁ else w₂)
  if-SameDoors true w₁ w₂ k l = k
  if-SameDoors false w₁ w₂ k l = l

  status-SameDoors : (k : ℕ) (w : World) → SameDoors w₀ w → SameDoors w₀ (signal_door_status k w)
  status-SameDoors k w v = record { same = rw doors-signal_door_status v.same }

  unlock-SameDoors : (k m : ℕ) (w : World) → SameDoors w₀ w → SameDoors w₀ (unlock_door k m w).1
  unlock-SameDoors k m w v = record {
    same = λ j. ground (arith, v.same j, unlock_door-SameButLock k m w j);
  }

  lock-SameDoors : (k m : ℕ) (w : World) → SameDoors w₀ w → SameDoors w₀ (lock_door k m w).1
  lock-SameDoors k m w v = record {
    same = λ j. ground (arith, v.same j, lock_door-SameButLock k m w j);
  }

  adm-SameDoors : (k m : ℕ) (w : World) → SameDoors w₀ w → SameDoors w₀ (set_adm k m w)
  adm-SameDoors k m w v = record { same = λ j. ground (arith, v.same j, v.same k) }

  air-SameDoors : (k m : ℕ) (w : World) → SameDoors w₀ w → SameDoors w₀ (set_air k m w)
  air-SameDoors k m w v = record { same = λ j. ground (arith, v.same j, v.same k) }

  clear-SameDoors : (k : ℕ) (w : World) → SameDoors w₀ w → SameDoors w₀ (clear_masks k w)
  unfolding clear_masks
  clear-SameDoors k w v = record { same = λ j. ground (arith, v.same j, v.same k) }

  ok-SameDoors : (w : World) → SameDoors w₀ w → SameDoors w₀ (answer_ok w)
  ok-SameDoors w v = record { same = v.same }

  restore_row-SameDoors :
      (row : Text × Text × ℕ) (w : World) → SameDoors w₀ w → SameDoors w₀ (restore_row row w)
  unfolding restore_row
  restore_row-SameDoors (name, mode, m) w v = elim (Option-cases (get_door_by_name w name)) [
    | inl e ↦ rw (e, restore_row) v
    | inr (i, e) ↦
        rw (e, restore_row)
          (status-SameDoors i _ (
            if-SameDoors _ _ _ (adm-SameDoors i m _ (unlock-SameDoors i m w v))
              (if-SameDoors _ _ _ (adm-SameDoors i m _ (lock-SameDoors i m w v)) v)))
  ]

  pub restore_rows-SameDoors :
      (rows : List (Text × Text × ℕ)) (w : World)
      → SameDoors w₀ w
      → SameDoors w₀ (restore_rows rows w)
  unfolding restore_rows
  restore_rows-SameDoors [] w v = v
  restore_rows-SameDoors (row ∷ rows) w v =
      restore_rows-SameDoors rows _ (restore_row-SameDoors row w v)

  module _ {D : Type 0} (state_db : StateDb D) where
    keeps_at : (b : Bool) (w : World) (db : D) → SameDoors w₀ w → Kept {D = D} w₀ (b, w, db)
    keeps_at b w db v = keeps v

    get_info-Kept :
        (name : Text) (k : ℕ) (w : World) (db : D)
        → SameDoors w₀ w
        → Kept w₀ (get_info state_db name k w db)
    unfolding get_info
    get_info-Kept name k w db v =
        if-Kept w₀ _ (true, _, db) (false, w, db) (keeps (record { same = v.same })) (keeps v)

    get_dbinfo-Kept :
        (name : Text) (w : World) (db : D)
        → SameDoors w₀ w
        → Kept w₀ (get_dbinfo state_db name w db)
    unfolding get_dbinfo
    get_dbinfo-Kept name w db v =
        if-Kept w₀ _ (true, _, db) (false, w, db) (keeps (record { same = v.same })) (keeps v)

    store_set-Kept :
        (off on name : Text) (k m : ℕ) (w : World) (db : D)
        → SameDoors w₀ w
        → Kept w₀ (store_set state_db off on name k m w db)
    unfolding store_set
    store_set-Kept off on name k m w db v =
        let w' = signal_door_status k (set_adm k m w) in
        let v' = status-SameDoors k _ (adm-SameDoors k m w v) in
        let db₁ = (state_db.delete name off db).1 in
        let db₂ = (state_db.insert_or_replace name on m db₁).1 in
        if-Kept w₀ _ _ _ (keeps_at true (answer_ok w') db₂ (ok-SameDoors w' v'))
          (keeps_at false w' db₂ v')

    set_command-Kept :
        (arg1 name : Text) (k m : ℕ) (w : World) (db : D)
        → SameDoors w₀ w
        → Kept w₀ (set_command state_db arg1 name k m w db)
    unfolding set_command
    set_command-Kept arg1 name k m w db v =
        let v' = clear-SameDoors k w v in
        let unlocked =
          store_set-Kept (codes "lock") (codes "unlock") name k m _ db
            (unlock-SameDoors k m _ v') in
        let locked =
          store_set-Kept (codes "unlock") (codes "lock") name k m _ db (lock-SameDoors k m _ v') in
        if-Kept w₀ _ _ _ unlocked (if-Kept w₀ _ _ (false, w, db) locked (keeps v))

    get_command-Kept :
        (arg1 name : Text) (k : ℕ) (w : World) (db : D)
        → SameDoors w₀ w
        → Kept w₀ (get_command state_db arg1 name k w db)
    unfolding get_command
    get_command-Kept arg1 name k w db v =
        if-Kept w₀ _ _ _ (get_info-Kept name k w db v)
          (if-Kept w₀ _ _ _ (get_dbinfo-Kept name w db v) (keeps_at false w db v))

    unset_command-Kept :
        (arg1 name : Text) (k arg2 : ℕ) (w : World) (db : D)
        → SameDoors w₀ w
        → Kept w₀ (unset_command state_db arg1 name k arg2 w db)
    unfolding unset_command
    unset_command-Kept arg1 name k arg2 w db v =
        let db' = (state_db.delete name arg1 db).1 in
        let freed = status-SameDoors k _ (adm-SameDoors k 0 w v) in
        let set? = text_eq arg1 (codes "unlock") || text_eq arg1 (codes "lock") in
        let w' = if set? then signal_door_status k (set_adm k 0 w) else w in
        if-Kept w₀ _ _ _
          (keeps_at true (answer_ok w') db' (ok-SameDoors w' (if-SameDoors set? _ w freed v)))
          (keeps_at false w db' v)

    do_command-Kept :
        (arg1 : Text) (k m : ℕ) (w : World) (db : D)
        → SameDoors w₀ w
        → Kept w₀ (do_command state_db arg1 k m w db)
    unfolding do_command
    do_command-Kept arg1 k m w db v =
        let is : String → Bool = λ s. text_eq arg1 (codes s) in
        let w₁ = (unlock_door k m w).1 in
        let w₂ = (lock_door k m w).1 in
        let v₁ = unlock-SameDoors k m w v in
        let v₂ = lock-SameDoors k m w v in
        let air = (w.doors k).air_lock_mask in
        let done : (w' : World)
            → SameDoors w₀ w'
            → Kept w₀ (true, signal_door_status k (answer_ok w'), db) =
          λ w' h. keeps (status-SameDoors k (answer_ok w') (ok-SameDoors w' h)) in
        let masked : (m' : ℕ) → Kept w₀ (true, answer_ok (set_air k m' w), db) =
          λ m'. keeps (ok-SameDoors _ (air-SameDoors k m' w v)) in
        let unlocked =
          if-Kept w₀ ((unlock_door k m w).0 == 0) _ _ (keeps_at false w₁ db v₁) (done w₁ v₁) in
        let locked =
          if-Kept w₀ ((lock_door k m w).0 == 0) _ _ (keeps_at false w₂ db v₂) (done w₂ v₂) in
        if-Kept w₀ (is "unlock") _ _ unlocked (
          if-Kept w₀ (is "lock") _ _ locked (
            if-Kept w₀ (is "block") _ _ (masked (bit_or air m)) (
              if-Kept w₀ (is "unblock") _ _ (masked (bit_and air (not32 m)))
                (keeps_at false w db v))))

    run_command-Kept :
        (cmd name arg1 : Text) (arg_x : Option Text) (k : ℕ) (w : World) (db : D)
        → SameDoors w₀ w
        → Kept w₀ (run_command state_db cmd name arg1 arg_x k w db)
    unfolding run_command
    run_command-Kept cmd name arg1 arg_x k w db v =
        if-Kept w₀ _ _ _ (get_command-Kept arg1 name k w db v) (
          if-Kept w₀ _ _ _ (set_command-Kept arg1 name k (number_of arg_x) w db v) (
            if-Kept w₀ _ _ _ (unset_command-Kept arg1 name k (number_of arg_x) w db v) (
              if-Kept w₀ _ _ _ (do_command-Kept arg1 k (number_of arg_x) w db v)
                (keeps_at false w db v))))

    finish-SameDoors : (done : Done D) → Kept w₀ done → SameDoors w₀ (finish state_db done).0
    finish-SameDoors (true, w', db) (keeps v) = v
    finish-SameDoors (false, w', db) (keeps v) = record { same = v.same }

    on_door-SameDoors :
        (o : Option ℕ) (cmd name arg1 : Text) (arg_x : Option Text) (w : World) (db : D)
        → SameDoors w₀ w
        → SameDoors w₀ (on_door state_db o cmd name arg1 arg_x w db).0
    on_door-SameDoors none cmd name arg1 arg_x w db v = record { same = v.same }
    on_door-SameDoors (some k) cmd name arg1 arg_x w db v =
        finish-SameDoors _ (run_command-Kept cmd name arg1 arg_x k w db v)

    on_words-SameDoors :
        (cmd door arg1 arg_x : Option Text) (w : World) (db : D)
        → SameDoors w₀ w
        → SameDoors w₀ (on_words state_db cmd door arg1 arg_x w db).0
    on_words-SameDoors none door arg1 arg_x w db v = record { same = v.same }
    on_words-SameDoors (some cmd) none arg1 arg_x w db v = record { same = v.same }
    on_words-SameDoors (some cmd) (some name) none arg_x w db v = record { same = v.same }
    on_words-SameDoors (some cmd) (some name) (some arg1) arg_x w db v =
        on_door-SameDoors (get_door_by_name w name) cmd name arg1 arg_x w db v

-- A command leaves of all doors the names, the readers with their credentials, the inputs, the alarm
-- timers, the outputs and the airlock partners: it changes only lock timers and the masks that block
-- a door.
pub serve-SameDoors :
    {D : Type 0} (state_db : StateDb D) (r : Request) (w : World) (db : D)
    → SameDoors w (serve state_db r w db).0
unfolding serve
serve-SameDoors state_db r w db =
    on_words-SameDoors w state_db r.cmd r.door r.arg1 r.arg_x _ db
      (record { same = λ j. ground arith })
