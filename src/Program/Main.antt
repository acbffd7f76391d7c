-- ===== src/Program/Main.antt =====
-- `main` of door_controller/main.c: the start, and the loop.
use osdp_roger_acs.Base.{ℕ, suc, List, [], ◌∷◌, Option, none, some, Bool, true, false}
use osdp_roger_acs.Base.{◌&&◌, not, ◌==◌, ltb, leb, truth, if◌then◌else◌}
use osdp_roger_acs.Reader.{UserInfo}
use osdp_roger_acs.Door.{Text, DoorReader, World, Side, side_a, side_b}
use osdp_roger_acs.Door.Auth.{UserDb}
use osdp_roger_acs.Door.Loop.{main_loop}
use osdp_roger_acs.Remote.{StateDb, check_network, init_remote_control}
use osdp_roger_acs.Program.Config.{
  Outcome, exits, goes, ◌>>=◌, ReaderWords, parse_line, fresh_reader, fresh_door, partner_string,
  is_skipped, count_doors, Parsed, link_partners, world_of,
}
use osdp_roger_acs.Program.Options.{Options, no_options, parse_options, is_mode}

-- What is outside when the program starts: the readers that open, the lines of the configuration
-- file, whether the two databases and the socket open, and the address that the reader has.
pub record Setting : Type 0 where
  pub default_address : ℕ
  pub init_reader : ℕ → Side → ReaderWords → Option ℕ
  pub fgets : Text → Option (List Text)
  pub database_opens : Text → Bool
  pub network_opens : ℕ → Bool
  pub state_opens : Text → Bool
  pub state_created : Text → Bool

-- `doorsCount` stays as it was, 0.
abbrev pub single_world : Text → DoorReader → World
single_world name a = record (world_of (fresh_door name a (fresh_reader 0 none) 0 0x0f ∷ [])) {
  doors_count = 0;
}

abbrev pub single_words : Text → Options → ReaderWords
single_words serial_dev o = record {
  access_mode = o.access_mode;
  serial_dev = serial_dev;
  use_rs485 = if o.use_rs485 then 1 else 0;
  reader_addres = o.reader_addres;
}

module _ (env : Setting) where
  abbrev pub opened : Option ℕ → Outcome (Option ℕ)
  opened none = exits 2
  opened (some reader) = goes (some reader)

  -- The reader on one side of the door at index `k`.
  unfoldable pub start_reader : ℕ → Side → ReaderWords → Outcome DoorReader
  start_reader k side v = do
    reader ← if truth v.access_mode then opened (env.init_reader k side v) else goes none
    goes (fresh_reader v.access_mode reader)

  unfoldable pub start_door : ℕ → Text → Outcome Parsed
  start_door k line = do
    v ← parse_line line
    a ← start_reader k side_a v.words_a
    b ← start_reader k side_b v.words_b
    goes (fresh_door v.door_name a b v.mask_offset v.mask_full, partner_string v.partner)

  -- The loop over the lines; `k` doors are behind it.
  unfoldable pub start_doors : ℕ → List Text → Outcome (List Parsed)
  start_doors k [] = goes []
  start_doors k (line ∷ lines) =
      let first = start_door k line in
      let rest = start_doors (suc k) lines in
      let skipped = start_doors k lines in
      if is_skipped line then skipped else (do door ← first; doors ← rest; goes (door ∷ doors))

  abbrev pub from_lines : Option (List Text) → Outcome World
  from_lines none = exits 1
  from_lines (some lines) =
      if ltb (count_doors lines) 1
      then exits 1
      else (do parsed ← start_doors 0 lines; goes (link_partners parsed))

  -- The single door of the options.
  unfoldable pub single_door : Text → Text → Options → Outcome World
  single_door name serial_dev o = if not (is_mode o.access_mode) then exits 1 else (do
    reader ← opened (env.init_reader 0 side_a (single_words serial_dev o))
    goes (single_world name (fresh_reader o.access_mode reader)))

  abbrev pub from_options : Option Text → Option Text → Option Text → Options → Outcome World
  from_options (some file) name serial_dev o = from_lines (env.fgets file)
  from_options none (some name) (some serial_dev) o = single_door name serial_dev o
  from_options none none serial_dev o = exits 1
  from_options none (some name) none o = exits 1

  -- The remote control, if there is a port and a file for it: whether it listens, and the doors.
  unfoldable pub start_remote :
      {D : Type 0} → StateDb D → D → ℕ → Option Text → World → Outcome (Bool × World)
  start_remote state_db db port none w = goes (false, w)
  start_remote state_db db port (some path) w =
      let (failed, w') =
        init_remote_control state_db (env.network_opens port) (env.state_opens path)
          (env.state_created path) w db in
      if ltb 0 port && leb port 65535
      then (if failed == 0 then goes (true, w') else exits 1)
      else goes (false, w)

  abbrev pub with_database : Option Text → Options → Outcome World
  with_database none o = exits 1
  with_database (some path) o = do
    w ← from_options o.config_file o.door_name o.serial_dev o
    if env.database_opens path then goes w else exits 3

  -- `main`, up to its loop.
  unfoldable pub start : {D : Type 0} → StateDb D → D → List (ℕ × Text) → Outcome (Bool × World)
  start state_db db given = do
    let o = parse_options given (no_options env.default_address)
    w ← with_database o.database_path o
    start_remote state_db db o.port o.state_db_path w

-- What comes from outside in one turn of the loop: the inputs of the readers, the lines of the GPIO,
-- what the stack held, and a datagram.
pub record Turn : Type 0 where
  pub inputs : ℕ → List UserInfo
  pub lines : List ℕ
  pub stack : ℕ → ℕ
  pub datagram : Option (List ℕ)

module _ {D : Type 0} (state_db : StateDb D) (user_db : UserDb) (port : Bool) where
  -- The body of the loop; `none` is a datagram that overruns its buffer.
  unfoldable pub turn : Turn → World × D → Option (World × D)
  turn t (w, db) =
      let w' = main_loop user_db t.inputs t.lines t.stack w in
      if port then check_network state_db t.datagram w' db else some (w', db)

  unfoldable pub turns : List Turn → World × D → Option (World × D)
  turns [] s = some s
  turns (t ∷ ts) s = elim (turn t s) [ none ↦ none | some s' ↦ turns ts s' ]
