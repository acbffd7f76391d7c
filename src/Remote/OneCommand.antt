-- ===== src/Remote/OneCommand.antt =====
-- What each command of door_controller/remoteControl.c makes of the modes that are stored.
use osdp_roger_acs.Base.{ℕ, ◌≡◌, refl, inl, inr, arith, Option, none, some, Bool, true, false}
use osdp_roger_acs.Base.{Bool-cases, if◌then◌else◌, ◌&&◌, ◌||◌}
use osdp_roger_acs.CString.{codes}
use osdp_roger_acs.Door.{Text, text_eq, World, get_door_by_name}
use osdp_roger_acs.Door.Names.{text_eq-eq}
use osdp_roger_acs.Remote.{
  StateDb, Request, Done, serve, on_words, on_door, run_command, finish, is_some, number_of,
}
use osdp_roger_acs.Remote.{
  get_command, get_info, get_dbinfo, set_command, store_set, unset_command, do_command,
}
use osdp_roger_acs.Remote.Restore.{lock_only, unlock_only}
use osdp_roger_acs.Remote.Stored.{
  Modes, put, clear, Represents, Table, set-Represents, unset-Represents,
}

-- What a command for a known door makes of the modes that are stored.
unfoldable pub stored_by : Text → Text → Text → Option Text → Modes → Modes
stored_by cmd name arg1 arg_x st =
    if text_eq cmd (codes "get")
    then st
    else if text_eq cmd (codes "set") && is_some arg_x
    then (if text_eq arg1 (codes "unlock") || text_eq arg1 (codes "lock")
        then put name arg1 (number_of arg_x) st
        else st)
    else if text_eq cmd (codes "unset")
    then clear name arg1 st
    else st

abbrev for_door : Option ℕ → Text → Text → Text → Option Text → Modes → Modes
for_door none cmd name arg1 arg_x st = st
for_door (some i) cmd name arg1 arg_x st = stored_by cmd name arg1 arg_x st

abbrev for_words : Option Text → Option Text → Option Text → Option Text → World → Modes → Modes
for_words (some cmd) (some name) (some arg1) arg_x w st =
    for_door (get_door_by_name w name) cmd name arg1 arg_x st
for_words _ _ _ _ w st = st

-- And any command.
unfoldable pub stored_after : Request → World → Modes → Modes
stored_after r w st = for_words r.cmd r.door r.arg1 r.arg_x w st

data Keeps {D : Type 0} (state_db : StateDb D) (st : Modes) (done : Done D) : Type 0 where
  keeps : Represents (state_db.rows done.2) st → Keeps state_db st done

if-Keeps :
    {D : Type 0} (state_db : StateDb D) (b : Bool) (st st' : Modes) (x y : Done D)
    → Keeps state_db st x
    → Keeps state_db st' y
    → Keeps state_db (if b then st else st') (if b then x else y)
if-Keeps state_db true st st' x y k l = k
if-Keeps state_db false st st' x y k l = l

module _ {D : Type 0} (state_db : StateDb D) (table : Table state_db) where
  open state_db use {insert_or_replace, delete, rows}

  get_command-table :
      (arg1 name : Text) (i : ℕ) (w : World) (db : D)
      → (get_command state_db arg1 name i w db).2 ≡ db
  unfolding get_command get_info get_dbinfo
  get_command-table arg1 name i w db = ground arith

  do_command-table :
      (arg1 : Text) (i m : ℕ) (w : World) (db : D) → (do_command state_db arg1 i m w db).2 ≡ db
  unfolding do_command
  do_command-table arg1 i m w db = ground arith

  unset_command-table :
      (arg1 name : Text) (i m : ℕ) (w : World) (db : D)
      → (unset_command state_db arg1 name i m w db).2 ≡ (delete name arg1 db).1
  unfolding unset_command
  unset_command-table arg1 name i m w db = ground arith

  store_set-table :
      (off on name : Text) (i m : ℕ) (w : World) (db : D)
      → (store_set state_db off on name i m w db).2
        ≡ (insert_or_replace name on m (delete name off db).1).1
  unfolding store_set
  store_set-table off on name i m w db = ground arith

  either :
      {st : Modes} {x y : Done D} (b : Bool)
      → Keeps state_db st x
      → Keeps state_db st y
      → Keeps state_db st (if b then x else y)
  either true k l = k
  either false k l = l

  set_command-Keeps :
      (arg1 name : Text) (i m : ℕ) (w : World) (db : D) (st : Modes)
      → Represents (rows db) st
      → Keeps state_db
          (if text_eq arg1 (codes "unlock") || text_eq arg1 (codes "lock")
            then put name arg1 m st
            else st)
          (set_command state_db arg1 name i m w db)
  unfolding set_command
  set_command-Keeps arg1 name i m w db st v = elim (Bool-cases (text_eq arg1 (codes "unlock"))) [
    | inl e ↦
        let is_unlock = text_eq-eq arg1 (codes "unlock") e in
        let kept =
          set-Represents state_db table (codes "lock") (codes "unlock") name m db st (inr refl)
            unlock_only v in
        rw is_unlock (keeps (rw store_set-table kept))
    | inr e ↦ elim (Bool-cases (text_eq arg1 (codes "lock"))) [
      | inl f ↦
          let is_lock = text_eq-eq arg1 (codes "lock") f in
          let kept =
            set-Represents state_db table (codes "unlock") (codes "lock") name m db st (inl refl)
              lock_only v in
          rw is_lock (keeps (rw store_set-table kept))
      | inr f ↦ rw (e, f) (keeps v)
    ]
  ]

  run_command-Keeps :
      (cmd name arg1 : Text) (arg_x : Option Text) (i : ℕ) (w : World) (db : D) (st : Modes)
      → Represents (rows db) st
      → Keeps state_db
          (stored_by cmd name arg1 arg_x st)
          (run_command state_db cmd name arg1 arg_x i w db)
  unfolding run_command stored_by
  run_command-Keeps cmd name arg1 arg_x i w db st v =
      let m = number_of arg_x in
      let got : Keeps state_db st (get_command state_db arg1 name i w db) =
        keeps (rw get_command-table v) in
      let unset : Keeps state_db (clear name arg1 st) (unset_command state_db arg1 name i m w db) =
        keeps (rw unset_command-table (unset-Represents state_db table name arg1 db st v)) in
      let did : Keeps state_db st (do_command state_db arg1 i m w db) =
        keeps (rw do_command-table v) in
      let other : Keeps state_db st (false, w, db) = keeps v in
      let done = text_eq cmd (codes "do") && is_some arg_x in
      if-Keeps state_db _ st _ _ _ got (
        if-Keeps state_db _ _ _ _ _ (set_command-Keeps arg1 name i m w db st v)
          (if-Keeps state_db _ _ st _ _ unset (either done did other)))

  finish-Represents :
      (done : Done D) (st : Modes)
      → Keeps state_db st done
      → Represents (rows (finish state_db done).1) st
  finish-Represents (true, w, db) st (keeps v) = v
  finish-Represents (false, w, db) st (keeps v) = v

  on_door-Represents :
      (o : Option ℕ) (cmd name arg1 : Text) (arg_x : Option Text) (w : World) (db : D) (st : Modes)
      → Represents (rows db) st
      → Represents
          (rows (on_door state_db o cmd name arg1 arg_x w db).1)
          (for_door o cmd name arg1 arg_x st)
  on_door-Represents none cmd name arg1 arg_x w db st v = v
  on_door-Represents (some i) cmd name arg1 arg_x w db st v =
      finish-Represents _ _ (run_command-Keeps cmd name arg1 arg_x i w db st v)

  on_words-Represents :
      (cmd door arg1 arg_x : Option Text) (w₀ w : World) (db : D) (st : Modes)
      → ((name : Text) → get_door_by_name w₀ name ≡ get_door_by_name w name)
      → Represents (rows db) st
      → Represents
          (rows (on_words state_db cmd door arg1 arg_x w db).1)
          (for_words cmd door arg1 arg_x w₀ st)
  on_words-Represents none door arg1 arg_x w₀ w db st same v = v
  on_words-Represents (some cmd) none arg1 arg_x w₀ w db st same v = v
  on_words-Represents (some cmd) (some name) none arg_x w₀ w db st same v = v
  on_words-Represents (some cmd) (some name) (some arg1) arg_x w₀ w db st same v =
      rw (same name) (on_door-Represents (get_door_by_name w name) cmd name arg1 arg_x w db st v)

  pub serve-Represents :
      (r : Request) (w : World) (db : D) (st : Modes)
      → Represents (rows db) st
      → Represents (rows (serve state_db r w db).1) (stored_after r w st)
  unfolding serve stored_after get_door_by_name
  serve-Represents r w db st v =
      on_words-Represents r.cmd r.door r.arg1 r.arg_x w _ db st (λ name. refl) v
