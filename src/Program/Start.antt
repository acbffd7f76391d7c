-- ===== src/Program/Start.antt =====
-- The doors that the start of door_controller/main.c leaves.
use osdp_roger_acs.Base.{ℕ, suc, zero, ◌≡◌, refl, sym, ◌∙◌, ◌⊎◌, ap, inl, inr, arith}
use osdp_roger_acs.Base.{
  List, [], length, Option, none, some, Bool-cases, Bool, true, false, ◌==◌, ◌&&◌,
}
use osdp_roger_acs.Base.{ltb, leb}
use osdp_roger_acs.Door.{Text, DoorReader, World, side_a}
use osdp_roger_acs.Door.Credentials.{IsSound}
use osdp_roger_acs.Program.Config.{goes, on_goes, goes-inj, goes-exits}
use osdp_roger_acs.Program.Config.{count_doors, Parsed, world_of, door_at}
use osdp_roger_acs.Program.Options.{Options, is_mode, parse_options, no_options}
use osdp_roger_acs.Remote.{StateDb, init_remote_control, restore_rows}
use osdp_roger_acs.Remote.Frame.{restore_rows-SameDoors}
use osdp_roger_acs.Remote.Same.{SameDoors, SameDoors-refl}
use osdp_roger_acs.Program.Main.{
  Setting, opened, from_lines, from_options, with_database, start_remote, start, single_door,
  single_world, single_words, start_doors,
}
use osdp_roger_acs.Program.Fresh.{
  fresh_reader-IsSound, fresh_door-IsFresh, start_doors-AllFresh, no_door-IsFresh, Fresh,
  link_partners-Fresh,
}

module _ (env : Setting) where
  from_lines-Fresh : (o : Option (List Text)) (w : World) → from_lines env o ≡ goes w → Fresh w
  from_lines-Fresh none w h = absurd (ground arith)
  from_lines-Fresh (some lines) w h = elim (Bool-cases (ltb (count_doors lines) 1)) [
    | inl e ↦ absurd (goes-exits (rw e at h))
    | inr e ↦ on_goes (start_doors env 0 lines) (rw e at h) λ ps e₁ f.
        rw (← goes-inj f) (link_partners-Fresh ps (start_doors-AllFresh env 0 lines ps e₁).0)
  ]

  single_world-Fresh : (name : Text) (a : DoorReader) → IsSound a → Fresh (single_world name a)
  unfolding world_of door_at
  single_world-Fresh name a v zero =
      fresh_door-IsFresh name a _ 0 0x0f v (fresh_reader-IsSound 0 none)
  single_world-Fresh name a v (suc j) = no_door-IsFresh []

  single_door-Fresh :
      (name serial_dev : Text) (o : Options) (w : World)
      → single_door env name serial_dev o ≡ goes w
      → Fresh w × (w.doors_count ≡ 0)
  unfolding single_door
  single_door-Fresh name serial_dev o w h = elim (Bool-cases (is_mode o.access_mode)) [
    | inr e ↦ absurd (goes-exits (rw e at h))
    | inl e ↦
        on_goes (opened env (env.init_reader 0 side_a (single_words serial_dev o))) (rw e at h)
          λ reader e₁ f.
            rw (← goes-inj f)
              (single_world-Fresh name _ (fresh_reader-IsSound o.access_mode reader), refl)
  ]

  from_options-Fresh :
      (file name serial_dev : Option Text) (o : Options) (w : World)
      → from_options env file name serial_dev o ≡ goes w
      → Fresh w × (file ≡ none → w.doors_count ≡ 0)
  from_options-Fresh (some file) name serial_dev o w h =
      (from_lines-Fresh (env.fgets file) w h, λ e. absurd (ground arith))
  from_options-Fresh none (some name) (some serial_dev) o w h =
      let (fresh, empty) = single_door-Fresh name serial_dev o w h in (fresh, λ e. empty)
  from_options-Fresh none none serial_dev o w h = absurd (goes-exits h)
  from_options-Fresh none (some name) none o w h = absurd (goes-exits h)

  with_database-Fresh :
      (path : Option Text) (o : Options) (w : World)
      → with_database env path o ≡ goes w
      → Fresh w × (o.config_file ≡ none → w.doors_count ≡ 0)
  with_database-Fresh none o w h = absurd (goes-exits h)
  with_database-Fresh (some path) o w h =
      on_goes (from_options env o.config_file o.door_name o.serial_dev o) h λ w' e f.
        elim (Bool-cases (env.database_opens path)) [
          | inl g ↦
              rw (← goes-inj (rw g at f))
                (from_options-Fresh o.config_file o.door_name o.serial_dev o w' e)
          | inr g ↦ absurd (goes-exits (rw g at f))
        ]

  module _ {D : Type 0} (state_db : StateDb D) (db : D) where
    abbrev restored : World → World
    restored w = restore_rows (state_db.rows db) w

    init-cases :
        (network state created : Bool) (w : World)
        → let w' = (init_remote_control state_db network state created w db).1 in
          (w' ≡ w) ⊎ (w' ≡ restored w)
    unfolding init_remote_control
    init-cases false state created w = inl refl
    init-cases true false created w = inl refl
    init-cases true true false w = inl refl
    init-cases true true true w = inr refl

    start_remote-cases :
        (port : ℕ) (path : Option Text) (w w' : World) (on : Bool)
        → start_remote env state_db db port path w ≡ goes (on, w')
        → (w' ≡ w) ⊎ ((on ≡ true) × (w' ≡ restored w))
    unfolding start_remote
    start_remote-cases port none w w' on h = inl (sym (ap (λ (q : Bool × World). q.1) (goes-inj h)))
    start_remote-cases port (some path) w w' on h =
        let network = env.network_opens port in
        let state = env.state_opens path in
        let created = env.state_created path in
        let init = init_remote_control state_db network state created w db in
        elim (Bool-cases (ltb 0 port && leb port 65535)) [
          | inr e ↦ inl (sym (ap (λ (q : Bool × World). q.1) (goes-inj (rw e at h))))
          | inl e ↦ elim (Bool-cases (init.0 == 0)) [
            | inr f ↦ absurd (goes-exits (rw f at (rw e at h)))
            | inl f ↦
                let g = goes-inj (rw f at (rw e at h)) in
                let at : init.1 ≡ w' = ap (λ (q : Bool × World). q.1) g in
                elim (init-cases network state created w) [
                  | inl same ↦ inl (sym at ∙ same)
                  | inr new ↦ inr (sym (ap (λ (q : Bool × World). q.0) g), sym at ∙ new)
                ]
          ]
        ]

    -- The program comes to its loop with fresh doors, or with what the remote control makes of them.
    pub start-cases :
        (given : List (ℕ × Text)) (on : Bool) (w : World)
        → start env state_db db given ≡ goes (on, w)
        → (w₀ : World) × Fresh w₀
          × ((w ≡ w₀) ⊎ ((on ≡ true) × (w ≡ restored w₀)))
          × ((parse_options given (no_options env.default_address)).config_file ≡ none
              → w₀.doors_count ≡ 0)
    unfolding start
    start-cases given on w h =
        let o = parse_options given (no_options env.default_address) in
        on_goes (with_database env o.database_path o) h λ w₀ e f.
          let (fresh, empty) = with_database-Fresh o.database_path o w₀ e in
          (w₀, fresh, start_remote-cases o.port o.state_db_path w₀ w on f, empty)

    cases-SameDoors :
        {on : Bool} (w₀ w : World) → (w ≡ w₀) ⊎ ((on ≡ true) × (w ≡ restored w₀)) → SameDoors w₀ w
    cases-SameDoors w₀ w (inl e) = rw e (SameDoors-refl w₀)
    cases-SameDoors w₀ w (inr (_, e)) =
        rw e (restore_rows-SameDoors w₀ (state_db.rows db) w₀ (SameDoors-refl w₀))

    pub start-Fresh :
        (given : List (ℕ × Text)) (on : Bool) (w : World)
        → start env state_db db given ≡ goes (on, w)
        → (w₀ : World) × Fresh w₀ × SameDoors w₀ w × (on ≡ false → w ≡ w₀)
    start-Fresh given on w h =
        let (w₀, fresh, how, _) = start-cases given on w h in
        (
          w₀,
          fresh,
          cases-SameDoors w₀ w how,
          λ off. elim how [ inl e ↦ e | inr (e, _) ↦ absurd (ground arith) ],
        )

    pub start-single :
        (given : List (ℕ × Text)) (w : World)
        → (parse_options given (no_options env.default_address)).config_file ≡ none
        → start env state_db db given ≡ goes (false, w)
        → w.doors_count ≡ 0
    start-single given w alone h =
        let (w₀, _, how, empty) = start-cases given false w h in
        elim how [ inl e ↦ rw e (empty alone) | inr (e, _) ↦ absurd (ground arith) ]

-- The second loop over the configuration file, which skips lines by its own test, fills as many doors as
-- the first one counted, for which the array was allocated.
pub start_doors-length :
    (env : Setting) (lines : List Text) (doors : List Parsed)
    → start_doors env 0 lines ≡ goes doors
    → length doors ≡ count_doors lines
start_doors-length env lines doors h = (start_doors-AllFresh env 0 lines doors h).1
