-- ===== src/Remote.antt =====
-- door_controller/remoteControl.c: commands over UDP, and the state that they store. The socket and
-- SQLite are outside: a datagram comes in as its bytes, an answer is an effect of the log, and the
-- table `state` is an interface.
pub mod Network
pub mod Frame
pub mod Same
pub mod Commands
pub mod Airlock
pub mod Replies
pub mod Logs
pub mod Restore
pub mod Stored
pub mod Refinement
pub mod OneCommand
use osdp_roger_acs.Base.{
  ℕ, suc, List, [], ◌∷◌, ◌++◌, Option, none, some, Bool, true, false, ◌&&◌, ◌||◌, not,
}
use osdp_roger_acs.Base.{◌==◌, ltb, leb, if◌then◌else◌, bit_and, bit_or, u32, not32, length}
use osdp_roger_acs.CString.{codes, c_string, strtok, strtoll, dec, hex_number, text_or_null}
use osdp_roger_acs.Door.{
  Text, text_eq, Door, World, emit, put_door, get_door_by_name, Event, Effect,
}
use osdp_roger_acs.Door.Lock.{unlock_door, lock_door, signal_door_status}

abbrev buf_size : ℕ
buf_size = 128

-- The table `state` of SQLite, with a row for each door and mode: whether a statement ends, and the
-- table after it; the modes of a door, joined by commas; and all rows.
pub record StateDb (D : Type 0) : Type 0 where
  pub insert_or_replace : Text → Text → ℕ → D → Bool × D
  pub delete : Text → Text → D → Bool × D
  pub group_concat : Text → D → Option Text
  pub rows : D → List (Text × Text × ℕ)

-- The four words of a command.
pub record Request : Type 0 where
  pub cmd : Option Text
  pub door : Option Text
  pub arg1 : Option Text
  pub arg_x : Option Text

unfoldable pub request_of : Text → Request
request_of buf =
    let (cmd, s₁) = strtok buf in
    let (door, s₂) = strtok s₁ in
    let (arg1, s₃) = strtok s₂ in
    let (arg_x, _) = strtok s₃ in record { cmd = cmd; door = door; arg1 = arg1; arg_x = arg_x }

-- `arg2`, as a word of 32 bits.
unfoldable pub number_of : Option Text → ℕ
number_of none = 0
number_of (some s) = u32 (strtoll s)

abbrev pub is_some : Option Text → Bool
is_some none = false
is_some (some s) = true

abbrev pub answer_ok : World → World
answer_ok w = emit (Effect.reply (codes "OK\n")) w

abbrev pub answer_err : World → World
answer_err w = emit (Effect.reply (codes "ERR\n")) w

abbrev pub set_adm : ℕ → ℕ → World → World
set_adm i m w = put_door i (record (w.doors i) { adm_disable_mask = m }) w

abbrev pub set_air : ℕ → ℕ → World → World
set_air i m w = put_door i (record (w.doors i) { air_lock_mask = m }) w

unfoldable pub clear_masks : ℕ → World → World
clear_masks i w = put_door i (record (w.doors i) { adm_disable_mask = 0; air_lock_mask = 0 }) w

-- One row of the table, when the program starts.
unfoldable pub restore_row : Text × Text × ℕ → World → World
restore_row (name, arg1, m) w = elim (get_door_by_name w name) [
  | none ↦ w
  | some i ↦
      let unlocked = set_adm i m (unlock_door i m w).1 in
      let locked = set_adm i m (lock_door i m w).1 in
      signal_door_status i (
        if text_eq arg1 (codes "unlock")
        then unlocked
        else (if text_eq arg1 (codes "lock") then locked else w))
]

unfoldable pub restore_rows : List (Text × Text × ℕ) → World → World
restore_rows [] w = w
restore_rows (row ∷ rows) w = restore_rows rows (restore_row row w)

-- What a command leaves: whether it was answered, the doors and the table. What was not answered is
-- answered by an error.
abbrev pub Done : Type 0 → Type 0
Done D = Bool × World × D

pub data DbSetUnset : Type 0 where
  db_set db_unset : DbSetUnset

module _ {D : Type 0} (state_db : StateDb D) where
  open state_db use {insert_or_replace, delete, group_concat, rows}

  -- Whether the statement ended, and the table after it. `DELETE` has no third parameter.
  abbrev pub db_set_unset : Text → Text → ℕ → DbSetUnset → D → Bool × D
  db_set_unset door state arg db_set db = insert_or_replace door state arg db
  db_set_unset door state arg db_unset db = delete door state db

  -- `get <door> info`, if it fits the buffer.
  unfoldable pub get_info : Text → ℕ → World → D → Done D
  get_info name i w db =
      let d = w.doors i in
      let text =
        codes "INFO "
        ++ (name
            ++ (codes ": 0x"
                ++ (hex_number d.last_input
                    ++ (codes " "
                        ++ (dec d.alarm_timers
                            ++ (codes " " ++ (dec d.door_lock_timer ++ codes "\n"))))))) in
      if ltb (length text) buf_size then (true, emit (Effect.reply text) w, db) else (false, w, db)

  unfoldable pub get_dbinfo : Text → World → D → Done D
  get_dbinfo name w db =
      let text =
        codes "DB INFO "
        ++ (name ++ (codes ": " ++ (text_or_null (group_concat name db) ++ codes "\n"))) in
      if ltb (length text) buf_size then (true, emit (Effect.reply text) w, db) else (false, w, db)

  unfoldable pub get_command : Text → Text → ℕ → World → D → Done D
  get_command arg1 name i w db =
      if text_eq arg1 (codes "info")
      then get_info name i w db
      else if text_eq arg1 (codes "dbinfo")
      then get_dbinfo name w db
      else (false, w, db)

  -- `set <door> unlock|lock <mask>`, after the door was driven to `w`: the mask is disabled and
  -- stored in place of the opposite.
  unfoldable pub store_set : Text → Text → Text → ℕ → ℕ → World → D → Done D
  store_set off on name i m w db =
      let w₁ = set_adm i m w in
      let (unset, db₁) = db_set_unset name off m db_unset db in
      let (stored, db₂) = db_set_unset name on m db_set db₁ in
      let w₂ = signal_door_status i w₁ in
      if unset && stored then (true, answer_ok w₂, db₂) else (false, w₂, db₂)

  unfoldable pub set_command : Text → Text → ℕ → ℕ → World → D → Done D
  set_command arg1 name i m w db =
      if text_eq arg1 (codes "unlock")
      then store_set (codes "lock") (codes "unlock") name i m (unlock_door i m (clear_masks i w)).1
          db
      else if text_eq arg1 (codes "lock")
      then store_set (codes "unlock") (codes "lock") name i m (lock_door i m (clear_masks i w)).1 db
      else (false, w, db)

  unfoldable pub unset_command : Text → Text → ℕ → ℕ → World → D → Done D
  unset_command arg1 name i arg2 w db =
      let (unset, db') = db_set_unset name arg1 arg2 db_unset db in
      let freed = signal_door_status i (set_adm i 0 w) in
      let w' = if text_eq arg1 (codes "unlock") || text_eq arg1 (codes "lock") then freed else w in
      if unset then (true, answer_ok w', db') else (false, w, db')

  unfoldable pub do_command : Text → ℕ → ℕ → World → D → Done D
  do_command arg1 i m w db =
      let (unlocked, w₁) = unlock_door i m w in
      let (locked, w₂) = lock_door i m w in
      let air = (w.doors i).air_lock_mask in
      if text_eq arg1 (codes "unlock")
      then (if unlocked == 0
          then (false, w₁, db)
          else (true, signal_door_status i (answer_ok w₁), db))
      else if text_eq arg1 (codes "lock")
      then (if locked == 0
          then (false, w₂, db)
          else (true, signal_door_status i (answer_ok w₂), db))
      else if text_eq arg1 (codes "block")
      then (true, answer_ok (set_air i (bit_or air m) w), db)
      else if text_eq arg1 (codes "unblock")
      then (true, answer_ok (set_air i (bit_and air (not32 m)) w), db)
      else (false, w, db)

  unfoldable pub run_command : Text → Text → Text → Option Text → ℕ → World → D → Done D
  run_command cmd name arg1 arg_x i w db =
      if text_eq cmd (codes "get")
      then get_command arg1 name i w db
      else if text_eq cmd (codes "set") && is_some arg_x
      then set_command arg1 name i (number_of arg_x) w db
      else if text_eq cmd (codes "unset")
      then unset_command arg1 name i (number_of arg_x) w db
      else if text_eq cmd (codes "do") && is_some arg_x
      then do_command arg1 i (number_of arg_x) w db
      else (false, w, db)

  abbrev finish : Done D → World × D
  finish (true, w, db) = (w, db)
  finish (false, w, db) = (answer_err w, db)

  -- The command for a door that was looked up by its name.
  abbrev on_door : Option ℕ → Text → Text → Text → Option Text → World → D → World × D
  on_door none cmd name arg1 arg_x w db = (answer_err w, db)
  on_door (some i) cmd name arg1 arg_x w db = finish (run_command cmd name arg1 arg_x i w db)

  abbrev on_words : Option Text → Option Text → Option Text → Option Text → World → D → World × D
  on_words (some cmd) (some name) (some arg1) arg_x w db =
      on_door (get_door_by_name w name) cmd name arg1 arg_x w db
  on_words (some cmd) (some name) none arg_x w db = (answer_err w, db)
  on_words (some cmd) none arg1 arg_x w db = (answer_err w, db)
  on_words none name arg1 arg_x w db = (answer_err w, db)

  unfoldable pub serve : Request → World → D → World × D
  serve r w db =
      on_words r.cmd r.door r.arg1 r.arg_x
        (emit (Effect.event (Event.remote_ctrl r.door r.cmd r.arg1 r.arg_x)) w) db

  -- `check_network(ctrl)`: `datagram` is what `recvfrom` puts into the buffer, if there is any. The
  -- final zero of one that fills the buffer is written past its end.
  unfoldable pub check_network : Option (List ℕ) → World → D → Option (World × D)
  check_network none w db = some (w, db)
  check_network (some []) w db = some (w, db)
  check_network (some (c ∷ datagram)) w db =
      if ltb (suc (length datagram)) buf_size
      then some (serve (request_of (c_string (c ∷ datagram))) w db)
      else none

  -- `init_remote_control`: whether the socket opens, the database opens and the table is there, and
  -- the doors after it, with the value that is returned, negated.
  unfoldable pub init_remote_control : Bool → Bool → Bool → World → D → ℕ × World
  init_remote_control network opened created w db =
      if not network
      then (1, w)
      else if not opened
      then (2, w)
      else if not created
      then (3, w)
      else (0, restore_rows (rows db) w)
