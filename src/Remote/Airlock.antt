-- ===== src/Remote/Airlock.antt =====
-- What the commands of door_controller/remoteControl.c leave of the airlock.
use Prim.Native.String.{String}
use osdp_roger_acs.Base.{ℕ, ◌≡◌, inl, inr, Option, none, some, Bool, true, false, arith, ◌&&◌}
use osdp_roger_acs.Base.{Bool-cases, if◌then◌else◌, ◌==◌, ◌||◌}
use osdp_roger_acs.CString.{codes}
use osdp_roger_acs.Door.{Text, text_eq, World, get_door_by_name}
use osdp_roger_acs.Door.Lock.{signal_door_status, unlock_door, lock_door}
use osdp_roger_acs.Door.Frame.{doors-signal_door_status}
use osdp_roger_acs.Door.Interlock.{Interlocked, unlock_door-Interlocked, lock_door-Interlocked}
use osdp_roger_acs.Door.Rounds.{SameLock-Interlocked}
use osdp_roger_acs.Door.Steps.{if-keeps}
use osdp_roger_acs.Remote.{
  Done, get_command, get_info, get_dbinfo, set_adm, unset_command, do_command, answer_ok,
}
use osdp_roger_acs.Remote.{
  Request, StateDb, serve, on_words, on_door, run_command, finish, is_some, number_of,
}

-- The commands that write an airlock mask: `set`, `do <door> block` and `do <door> unblock`.
abbrev writes : Option Text → Option Text → Bool
writes (some cmd) (some arg1) =
    text_eq cmd (codes "set")
    || text_eq cmd (codes "do") && (text_eq arg1 (codes "block") || text_eq arg1 (codes "unblock"))
writes _ _ = false

unfoldable pub writes_mask : Request → Bool
writes_mask r = writes r.cmd r.arg1

data Kept {D : Type 0} (i p : ℕ) (done : Done D) : Type 0 where
  keeps : Interlocked i p done.1.doors → Kept i p done

if-Kept :
    {D : Type 0} {i p : ℕ} (b : Bool) (x y : Done D)
    → Kept i p x
    → Kept i p y
    → Kept i p (if b then x else y)
if-Kept true x y k l = k
if-Kept false x y k l = l

module _ {D : Type 0} (state_db : StateDb D) {i p : ℕ} where
  status-Interlocked :
      (k : ℕ) (w : World) → Interlocked i p w.doors → Interlocked i p (signal_door_status k w).doors
  status-Interlocked k w v = rw doors-signal_door_status v

  set_adm-Interlocked :
      (k m : ℕ) (w : World) → Interlocked i p w.doors → Interlocked i p (set_adm k m w).doors
  set_adm-Interlocked k m w v = SameLock-Interlocked w.doors _ (λ j. ground arith) v

  get_info-Kept :
      (name : Text) (k : ℕ) (w : World) (db : D)
      → Interlocked i p w.doors
      → Kept i p (get_info state_db name k w db)
  unfolding get_info
  get_info-Kept name k w db v = if-Kept _ (true, _, db) (false, w, db) (keeps v) (keeps v)

  get_dbinfo-Kept :
      (name : Text) (w : World) (db : D)
      → Interlocked i p w.doors
      → Kept i p (get_dbinfo state_db name w db)
  unfolding get_dbinfo
  get_dbinfo-Kept name w db v = if-Kept _ (true, _, db) (false, w, db) (keeps v) (keeps v)

  get_command-Kept :
      (arg1 name : Text) (k : ℕ) (w : World) (db : D)
      → Interlocked i p w.doors
      → Kept i p (get_command state_db arg1 name k w db)
  unfolding get_command
  get_command-Kept arg1 name k w db v =
      if-Kept _ _ _ (get_info-Kept name k w db v)
        (if-Kept _ _ (false, w, db) (get_dbinfo-Kept name w db v) (keeps v))

  unset_command-Kept :
      (arg1 name : Text) (k arg2 : ℕ) (w : World) (db : D)
      → Interlocked i p w.doors
      → Kept i p (unset_command state_db arg1 name k arg2 w db)
  unfolding unset_command
  unset_command-Kept arg1 name k arg2 w db v =
      let (unset, db') = state_db.delete name arg1 db in
      let freed = status-Interlocked k _ (set_adm-Interlocked k 0 w v) in
      let at : (b : Bool) (w' : World) → Interlocked i p w'.doors → Kept i p (b, w', db') =
        λ b w' h. keeps h in
      if-Kept unset _ _
        (at true _ (
          if-keeps (Interlocked i p) (text_eq arg1 (codes "unlock") || text_eq arg1 (codes "lock"))
            _ _ freed v))
        (at false w v)

  do_command-Kept :
      (arg1 : Text) (k m : ℕ) (w : World) (db : D)
      → text_eq arg1 (codes "block") ≡ false
      → text_eq arg1 (codes "unblock") ≡ false
      → Interlocked i p w.doors
      → Kept i p (do_command state_db arg1 k m w db)
  unfolding do_command
  do_command-Kept arg1 k m w db e f v =
      let is : String → Bool = λ s. text_eq arg1 (codes s) in
      let at : (b : Bool) (w' : World) → Interlocked i p w'.doors → Kept i p (b, w', db) =
        λ b w' h. keeps h in
      let w₁ = (unlock_door k m w).1 in
      let w₂ = (lock_door k m w).1 in
      let v₁ = unlock_door-Interlocked k m w v in
      let v₂ = lock_door-Interlocked k m w v in
      let unlocked =
        if-Kept ((unlock_door k m w).0 == 0) _ _ (at false w₁ v₁)
          (at true _ (status-Interlocked k (answer_ok w₁) v₁)) in
      let locked =
        if-Kept ((lock_door k m w).0 == 0) _ _ (at false w₂ v₂)
          (at true _ (status-Interlocked k (answer_ok w₂) v₂)) in
      rw (e, f) (if-Kept (is "unlock") _ _ unlocked (if-Kept (is "lock") _ _ locked (at false w v)))

  run_command-Kept :
      (cmd name arg1 : Text) (arg_x : Option Text) (k : ℕ) (w : World) (db : D)
      → writes (some cmd) (some arg1) ≡ false
      → Interlocked i p w.doors
      → Kept i p (run_command state_db cmd name arg1 arg_x k w db)
  unfolding run_command
  run_command-Kept cmd name arg1 arg_x k w db e v =
      let got = get_command-Kept arg1 name k w db v in
      let unset = unset_command-Kept arg1 name k (number_of arg_x) w db v in
      let other : Kept i p (false, w, db) = keeps v in
      elim (Bool-cases (text_eq cmd (codes "set"))) [
        | inl f ↦ absurd (ground arith)
        | inr f ↦ elim (Bool-cases (text_eq cmd (codes "do"))) [
          | inl g ↦
              let did =
                do_command-Kept arg1 k (number_of arg_x) w db (ground arith) (ground arith) v in
              rw (f, g)
                (if-Kept _ _ _ got (if-Kept _ _ _ unset (if-Kept (is_some arg_x) _ _ did other)))
          | inr g ↦ rw (f, g) (if-Kept _ _ _ got (if-Kept _ _ _ unset other))
        ]
      ]

  finish-Kept : (done : Done D) → Kept i p done → Interlocked i p (finish state_db done).0.doors
  finish-Kept (true, w', db) (keeps v) = v
  finish-Kept (false, w', db) (keeps v) = v

  on_door-Interlocked :
      (o : Option ℕ) (cmd name arg1 : Text) (arg_x : Option Text) (w : World) (db : D)
      → writes (some cmd) (some arg1) ≡ false
      → Interlocked i p w.doors
      → Interlocked i p (on_door state_db o cmd name arg1 arg_x w db).0.doors
  on_door-Interlocked none cmd name arg1 arg_x w db e v = v
  on_door-Interlocked (some k) cmd name arg1 arg_x w db e v =
      finish-Kept _ (run_command-Kept cmd name arg1 arg_x k w db e v)

  on_words-Interlocked :
      (cmd door arg1 arg_x : Option Text) (w : World) (db : D)
      → writes cmd arg1 ≡ false
      → Interlocked i p w.doors
      → Interlocked i p (on_words state_db cmd door arg1 arg_x w db).0.doors
  on_words-Interlocked none door arg1 arg_x w db e v = v
  on_words-Interlocked (some cmd) none arg1 arg_x w db e v = v
  on_words-Interlocked (some cmd) (some name) none arg_x w db e v = v
  on_words-Interlocked (some cmd) (some name) (some arg1) arg_x w db e v =
      on_door-Interlocked (get_door_by_name w name) cmd name arg1 arg_x w db e v

-- A command that writes no airlock mask keeps what a round of the main loop keeps of two doors that
-- are each other's airlock partner: the lock timer of at most one runs, and the other is held
-- meanwhile. That
-- is, every command but `set` and `do <door> block|unblock`, with any mask and any table.
pub serve-Interlocked :
    {D : Type 0} (state_db : StateDb D) {i p : ℕ} (r : Request) (w : World) (db : D)
    → writes_mask r ≡ false
    → Interlocked i p w.doors
    → Interlocked i p (serve state_db r w db).0.doors
unfolding serve writes_mask
serve-Interlocked state_db r w db e v =
    on_words-Interlocked state_db r.cmd r.door r.arg1 r.arg_x _ db e v
