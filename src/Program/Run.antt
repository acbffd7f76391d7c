-- ===== src/Program/Run.antt =====
-- The loop of door_controller/main.c over any number of turns.
use osdp_roger_acs.Base.{
  ℕ, ◌≡◌, refl, ◌⊎◌, inl, inr, length, ◌<◌, Bool-cases, List, [], ◌∷◌, none, some,
}
use osdp_roger_acs.Base.{Bool, false}
use osdp_roger_acs.CString.{c_string}
use osdp_roger_acs.Door.{World, side_a, side_b}
use osdp_roger_acs.Door.Auth.{UserDb}
use osdp_roger_acs.Door.Inputs.{check_inputs, check_from}
use osdp_roger_acs.Door.Loop.{main_loop, doors_round}
use osdp_roger_acs.Door.Credentials.{IsSound}
use osdp_roger_acs.Door.Readers.{AllReaders}
use osdp_roger_acs.Door.Sound.{main_loop-IsSound, AreInputs}
use osdp_roger_acs.Door.Interlock.{Interlocked}
use osdp_roger_acs.Door.Rounds.{main_loop-Interlocked}
use osdp_roger_acs.Remote.{StateDb, request_of, serve}
use osdp_roger_acs.Remote.Commands.{check_network_total}
use osdp_roger_acs.Remote.Airlock.{writes_mask, serve-Interlocked}
use osdp_roger_acs.Remote.Frame.{serve-SameDoors}
use osdp_roger_acs.Remote.Same.{SameDoors}
use osdp_roger_acs.Program.Config.{goes}
use osdp_roger_acs.Program.Options.{parse_options, no_options}
use osdp_roger_acs.Program.Main.{Turn, turn, turns, Setting, start}
use osdp_roger_acs.Program.Fresh.{Fresh}
use osdp_roger_acs.Program.Start.{start-Fresh, start-single}

abbrev pub DatagramFits : Turn → Type 0
DatagramFits t = (d : List ℕ) → t.datagram ≡ some d → length d < 128

abbrev pub AllTurns : (Turn → Type 0) → List Turn → Type 0
AllTurns Q [] = Unit
AllTurns Q (t ∷ ts) = Q t × AllTurns Q ts

module _ {D : Type 0} (state_db : StateDb D) (user_db : UserDb) (port : Bool) where
  -- A turn whose datagram fits is a round of the main loop, and then nothing or one command.
  pub turn_cases :
      (t : Turn) (w : World) (db : D)
      → DatagramFits t
      → let w' = main_loop user_db t.inputs t.lines t.stack w in
        (s : World × D) × (turn state_db user_db port t (w, db) ≡ some s)
        × ((s ≡ (w', db))
            ⊎ ((d : List ℕ) × (t.datagram ≡ some d)
                × (s ≡ serve state_db (request_of (c_string d)) w' db)))
  unfolding turn
  turn_cases t w db fits =
      let w' = main_loop user_db t.inputs t.lines t.stack w in
      elim (Bool-cases port) [
        | inr e ↦ rw e ((w', db), refl, inl refl)
        | inl e ↦ rw e (check_network_total state_db t.datagram w' db fits)
      ]

  -- What every turn keeps is kept by all.
  turns-keep :
      (P : World → Type 0) (Q : Turn → Type 0)
      → ((t : Turn) → Q t → DatagramFits t)
      → ((t : Turn) (w : World) → Q t → P w → P (main_loop user_db t.inputs t.lines t.stack w))
      → ((t : Turn) (d : List ℕ) (w : World) (db : D)
          → Q t
          → t.datagram ≡ some d
          → P w
          → P (serve state_db (request_of (c_string d)) w db).0)
      → (ts : List Turn) (s : World × D) → AllTurns Q ts
      → P s.0
      → (s' : World × D) × (turns state_db user_db port ts s ≡ some s') × P s'.0
  unfolding turns
  turns-keep P Q fits round served [] s all v = (s, refl, v)
  turns-keep P Q fits round served (t ∷ ts) (w, db) (q, all) v =
      let (s, e, how) = turn_cases t w db (fits t q) in
      let looped = round t w q v in
      let kept : P s.0 = elim how [
        | inl f ↦ rw f looped
        | inr (d, f, g) ↦ rw g (served t d _ db q f looped)
      ] in
      rw (e, turns) (turns-keep P Q fits round served ts s all kept)

-- A turn with inputs that are as long as they say, and a datagram of less than 128 bytes.
abbrev pub IsTurn : Turn → Type 0
IsTurn t = ((handle : ℕ) → AreInputs (t.inputs handle)) × DatagramFits t

-- The same, and the datagram is no command that writes an airlock mask.
abbrev pub IsPlain : Turn → Type 0
IsPlain t =
    DatagramFits t
    × ((d : List ℕ) → t.datagram ≡ some d → writes_mask (request_of (c_string d)) ≡ false)

Fresh-Sound : (w : World) → Fresh w → AllReaders IsSound w
Fresh-Sound w v side_a j = (v j).sound_a
Fresh-Sound w v side_b j = (v j).sound_b

SameDoors-Sound : (w w' : World) → SameDoors w w' → AllReaders IsSound w → AllReaders IsSound w'
SameDoors-Sound w w' same v side_a j = rw (same.same j).same_a (v side_a j)
SameDoors-Sound w w' same v side_b j = rw (same.same j).same_b (v side_b j)

-- Whatever options and configuration the program was started with, and whatever state it restored:
-- if it comes to its loop, then each number of turns of the loop ends, and leaves the credentials of
-- all readers within their buffers, and a card or a PIN only where the two-factor timer runs. The
-- inputs are at least as long as they say and the datagrams have less than 128 bytes.
pub program-IsSound :
    {D : Type 0} (env : Setting) (state_db : StateDb D) (user_db : UserDb) (db db' : D)
    (given : List (ℕ × List ℕ)) (on : Bool) (w : World) (ts : List Turn)
    → start env state_db db given ≡ goes (on, w)
    → AllTurns IsTurn ts
    → (s : World × D) × (turns state_db user_db on ts (w, db') ≡ some s) × AllReaders IsSound s.0
program-IsSound env state_db user_db db db' given on w ts started all =
    let (w₀, fresh, same, _) = start-Fresh env state_db db given on w started in
    turns-keep state_db user_db on (AllReaders IsSound) IsTurn (λ t q. q.1)
      (λ t w q v. main_loop-IsSound user_db t.inputs t.lines t.stack w q.0 v)
      (λ t d w db q e v. SameDoors-Sound w _ (serve-SameDoors state_db _ w db) v) ts (w, db') all
      (SameDoors-Sound w₀ w same (Fresh-Sound w₀ fresh))

-- The airlock holds over the whole run: from a state in which at most one of two doors that are each
-- other's partner has its lock timer running and the other is held, each number of turns with datagrams of less
-- than 128 bytes, none of which is a `set`, a `do block` or a `do unblock`, ends in such a state.
pub turns-Interlocked :
    {D : Type 0} {i p : ℕ} (state_db : StateDb D) (user_db : UserDb) (port : Bool) (ts : List Turn)
    (w : World) (db : D)
    → AllTurns IsPlain ts
    → Interlocked i p w.doors
    → (s : World × D) × (turns state_db user_db port ts (w, db) ≡ some s)
      × Interlocked i p s.0.doors
turns-Interlocked {D} {i} {p} state_db user_db port ts w db all v =
    turns-keep state_db user_db port (λ w. Interlocked i p w.doors) IsPlain (λ t q. q.0)
      (λ t w q v. main_loop-Interlocked user_db t.inputs t.lines t.stack w v)
      (λ t d w db q e v. serve-Interlocked state_db _ w db (q.1 d e) v) ts (w, db) all v

no_doors-main_loop :
    (user_db : UserDb) (t : Turn) (w : World)
    → w.doors_count ≡ 0
    → main_loop user_db t.inputs t.lines t.stack w ≡ w
unfolding main_loop check_inputs doors_round check_from
no_doors-main_loop user_db t w e = rw (e, doors_round, check_from)

idle-turns :
    {D : Type 0} (state_db : StateDb D) (user_db : UserDb) (ts : List Turn) (w : World) (db : D)
    → w.doors_count ≡ 0
    → turns state_db user_db false ts (w, db) ≡ some (w, db)
unfolding turns turn
idle-turns state_db user_db [] w db e = refl
idle-turns state_db user_db (t ∷ ts) w db e =
    rw (no_doors-main_loop user_db t w e) (idle-turns state_db user_db ts w db e)

-- A program that was started for the single door of its options, without a configuration file and
-- without the remote control, does nothing: no number of turns of its loop changes a door or sends
-- anything, whatever card is shown and whatever input changes. The number of doors is still 0.
pub single_door-idle :
    {D : Type 0} (env : Setting) (state_db : StateDb D) (user_db : UserDb) (db : D)
    (given : List (ℕ × List ℕ)) (w : World) (ts : List Turn)
    → (parse_options given (no_options env.default_address)).config_file ≡ none
    → start env state_db db given ≡ goes (false, w)
    → turns state_db user_db false ts (w, db) ≡ some (w, db)
single_door-idle env state_db user_db db given w ts alone started =
    idle-turns state_db user_db ts w db (start-single env state_db db given w alone started)
