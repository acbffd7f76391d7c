-- ===== src/Remote/Replies.antt =====
-- `check_network` of door_controller/remoteControl.c answers each command once.
use Prim.Native.String.{String}
use osdp_roger_acs.Base.{ℕ, ◌≡◌, refl, Option, none, some, Bool, true, false, arith}
use osdp_roger_acs.Base.{if◌then◌else◌, ap, ◌∙◌, ◌∷◌}
use osdp_roger_acs.CString.{codes}
use osdp_roger_acs.Base.{◌==◌, bit_and, bit_or, not32, ◌||◌}
use osdp_roger_acs.Door.{Text, text_eq, World, emit, get_door_by_name}
use osdp_roger_acs.Door.{reply}
use osdp_roger_acs.Door.Lock.{signal_door_status}
use osdp_roger_acs.Door.Lock.{unlock_door, lock_door}
use osdp_roger_acs.Remote.{
  number_of, Done, answer_ok, get_command, get_info, get_dbinfo, store_set, set_adm, set_air,
  set_command, clear_masks, unset_command, do_command,
}
use osdp_roger_acs.Remote.{Request, StateDb, serve, on_words, on_door, run_command, finish}
use osdp_roger_acs.Remote.Logs.{
  replies, replies-signal_door_status, replies-unlock_door, replies-lock_door,
}

-- What a command did to the answers: one more, if it says that it answered.
data Answered {D : Type 0} (w : World) (done : Done D) : Type 0 where
  by_reply : (t : Text) → done.0 ≡ true → replies done.1.log ≡ t ∷ replies w.log → Answered w done
  unanswered : done.0 ≡ false → replies done.1.log ≡ replies w.log → Answered w done

module _ {D : Type 0} (state_db : StateDb D) where
  if-Answered :
      (b : Bool) (w : World) (x y : Done D)
      → Answered w x
      → Answered w y
      → Answered w (if b then x else y)
  if-Answered true w x y p q = p
  if-Answered false w x y p q = q

  replied : (t : Text) (w : World) (db : D) → Answered w (true, emit (reply t) w, db)
  unfolding replies
  replied t w db = by_reply t refl refl

  declined : (w : World) (db : D) → Answered w (false, w, db)
  declined w db = unanswered refl refl

  get_info-Answered :
      (name : Text) (i : ℕ) (w : World) (db : D) → Answered w (get_info state_db name i w db)
  unfolding get_info
  get_info-Answered name i w db = if-Answered _ w _ _ (replied _ w db) (declined w db)

  get_dbinfo-Answered :
      (name : Text) (w : World) (db : D) → Answered w (get_dbinfo state_db name w db)
  unfolding get_dbinfo
  get_dbinfo-Answered name w db = if-Answered _ w _ _ (replied _ w db) (declined w db)

  get_command-Answered :
      (arg1 name : Text) (i : ℕ) (w : World) (db : D)
      → Answered w (get_command state_db arg1 name i w db)
  unfolding get_command
  get_command-Answered arg1 name i w db =
      if-Answered _ w _ _ (get_info-Answered name i w db)
        (if-Answered _ w _ _ (get_dbinfo-Answered name w db) (declined w db))

  if-replies :
      (b : Bool) (w₁ w₂ w : World)
      → replies w₁.log ≡ replies w.log
      → replies w₂.log ≡ replies w.log
      → replies (if b then w₁ else w₂).log ≡ replies w.log
  if-replies true w₁ w₂ w e f = e
  if-replies false w₁ w₂ w e f = f

  store_set-Answered :
      (off on name : Text) (i m : ℕ) (w w₀ : World) (db : D)
      → replies w.log ≡ replies w₀.log
      → Answered w₀ (store_set state_db off on name i m w db)
  unfolding store_set replies
  store_set-Answered off on name i m w w₀ db e =
      let same = replies-signal_door_status i (set_adm i m w) ∙ e in
      if-Answered _ w₀ _ _ (by_reply _ refl (ap (◌∷◌ (codes "OK\n")) same)) (unanswered refl same)

  set_command-Answered :
      (arg1 name : Text) (i m : ℕ) (w : World) (db : D)
      → Answered w (set_command state_db arg1 name i m w db)
  unfolding set_command clear_masks
  set_command-Answered arg1 name i m w db =
      let cleared = clear_masks i w in
      let unlocked =
        store_set-Answered (codes "lock") (codes "unlock") name i m (unlock_door i m cleared).1 w db
          (replies-unlock_door i m cleared) in
      let locked =
        store_set-Answered (codes "unlock") (codes "lock") name i m (lock_door i m cleared).1 w db
          (replies-lock_door i m cleared) in
      if-Answered _ w _ _ unlocked (if-Answered _ w _ _ locked (declined w db))

  unset_command-Answered :
      (arg1 name : Text) (i arg2 : ℕ) (w : World) (db : D)
      → Answered w (unset_command state_db arg1 name i arg2 w db)
  unfolding unset_command replies
  unset_command-Answered arg1 name i arg2 w db =
      let freed = replies-signal_door_status i (set_adm i 0 w) in
      let set? = text_eq arg1 (codes "unlock") || text_eq arg1 (codes "lock") in
      let db' = (state_db.delete name arg1 db).1 in
      let w' = if set? then signal_door_status i (set_adm i 0 w) else w in
      let done : Answered w (true, answer_ok w', db') =
        by_reply _ refl (ap (◌∷◌ (codes "OK\n")) (if-replies set? _ w w freed refl)) in
      if-Answered _ w _ _ done (declined w db')

  do_command-Answered :
      (arg1 : Text) (i m : ℕ) (w : World) (db : D) → Answered w (do_command state_db arg1 i m w db)
  unfolding do_command replies
  do_command-Answered arg1 i m w db =
      let ok : (w' : World)
          → replies w'.log ≡ replies w.log
          → Answered w (true, signal_door_status i (answer_ok w'), db) =
        λ w' e.
          by_reply _ refl
            (replies-signal_door_status i (answer_ok w') ∙ ap (◌∷◌ (codes "OK\n")) e) in
      let failed : (w' : World) → replies w'.log ≡ replies w.log → Answered w (false, w', db) =
        λ w' e. unanswered refl e in
      let unlocked = replies-unlock_door i m w in
      let locked = replies-lock_door i m w in
      let is : String → Bool = λ s. text_eq arg1 (codes s) in
      let air = (w.doors i).air_lock_mask in
      let masked : (m' : ℕ) → Answered w (true, answer_ok (set_air i m' w), db) =
        λ m'. by_reply _ refl refl in
      let w₁ = (unlock_door i m w).1 in
      let w₂ = (lock_door i m w).1 in
      if-Answered (is "unlock") w _ _
        (if-Answered ((unlock_door i m w).0 == 0) w _ _ (failed w₁ unlocked) (ok w₁ unlocked))
        (if-Answered (is "lock") w _ _
          (if-Answered ((lock_door i m w).0 == 0) w _ _ (failed w₂ locked) (ok w₂ locked))
          (if-Answered (is "block") w _ _ (masked (bit_or air m))
            (if-Answered (is "unblock") w _ _ (masked (bit_and air (not32 m))) (declined w db))))

  run_command-Answered :
      (cmd name arg1 : Text) (arg_x : Option Text) (i : ℕ) (w : World) (db : D)
      → Answered w (run_command state_db cmd name arg1 arg_x i w db)
  unfolding run_command
  run_command-Answered cmd name arg1 arg_x i w db =
      if-Answered _ w _ _ (get_command-Answered arg1 name i w db) (
        if-Answered _ w _ _ (set_command-Answered arg1 name i _ w db) (
          if-Answered _ w _ _ (unset_command-Answered arg1 name i (number_of arg_x) w db)
            (if-Answered _ w _ _ (do_command-Answered arg1 i _ w db) (declined w db))))

  finish-replies :
      (w : World) (done : Done D)
      → Answered w done
      → (t : Text) × (replies (finish state_db done).0.log ≡ t ∷ replies w.log)
  unfolding replies
  finish-replies w (true, w', db) (by_reply t e f) = (t, f)
  finish-replies w (true, w', db) (unanswered e f) = absurd (ground arith)
  finish-replies w (false, w', db) (by_reply t e f) = absurd (ground arith)
  finish-replies w (false, w', db) (unanswered e f) = (_, ap (◌∷◌ (codes "ERR\n")) f)

  on_door-replies :
      (o : Option ℕ) (cmd name arg1 : Text) (arg_x : Option Text) (w : World) (db : D)
      → (t : Text) × (replies (on_door state_db o cmd name arg1 arg_x w db).0.log
          ≡ t ∷ replies w.log)
  unfolding replies
  on_door-replies none cmd name arg1 arg_x w db = (_, refl)
  on_door-replies (some i) cmd name arg1 arg_x w db =
      finish-replies w _ (run_command-Answered cmd name arg1 arg_x i w db)

  on_words-replies :
      (cmd door arg1 arg_x : Option Text) (w : World) (db : D)
      → (t : Text) × (replies (on_words state_db cmd door arg1 arg_x w db).0.log
          ≡ t ∷ replies w.log)
  unfolding replies
  on_words-replies none door arg1 arg_x w db = (_, refl)
  on_words-replies (some cmd) none arg1 arg_x w db = (_, refl)
  on_words-replies (some cmd) (some name) none arg_x w db = (_, refl)
  on_words-replies (some cmd) (some name) (some arg1) arg_x w db =
      on_door-replies (get_door_by_name w name) cmd name arg1 arg_x w db

-- Every command is answered exactly once, whatever it says and whatever the table does: the log has
-- one more answer than before.
pub serve-replies :
    {D : Type 0} (state_db : StateDb D) (r : Request) (w : World) (db : D)
    → (t : Text) × (replies (serve state_db r w db).0.log ≡ t ∷ replies w.log)
unfolding serve replies
serve-replies state_db r w db = on_words-replies state_db r.cmd r.door r.arg1 r.arg_x _ db
