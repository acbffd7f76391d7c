-- ===== src/Remote/Commands.antt =====
-- What `check_network` of door_controller/remoteControl.c does with a command: its answer, and what
-- it leaves of the airlock.
use osdp_roger_acs.Base.{ℕ, ◌≡◌, refl, ◌⊎◌, inl, inr, Option, none, some, false, arith}
use osdp_roger_acs.Base.{Option-cases, Bool-cases, ap, List, [], ◌∷◌, ltb, suc, length, ◌<◌}
use osdp_roger_acs.CString.{codes, c_string}
use osdp_roger_acs.Door.{Text, text_eq, World, emit, get_door_by_name, Event, Effect}
use osdp_roger_acs.Remote.{
  check_network, request_of, buf_size, Request, StateDb, serve, on_words, answer_err, run_command,
  finish,
}

-- The commands that are refused before any of them runs: a word is missing, the door is unknown, or
-- the command is.
pub data Malformed (w : World) (r : Request) : Type 0 where
  no_cmd : r.cmd ≡ none → Malformed w r
  no_door : r.door ≡ none → Malformed w r
  no_arg1 : r.arg1 ≡ none → Malformed w r
  unknown_door : (name : Text) → r.door ≡ some name → get_door_by_name w name ≡ none → Malformed w r
  unknown_cmd :
      (cmd : Text)
      → r.cmd ≡ some cmd
      → text_eq cmd (codes "get") ≡ false
      → text_eq cmd (codes "set") ≡ false
      → text_eq cmd (codes "unset") ≡ false
      → text_eq cmd (codes "do") ≡ false
      → Malformed w r
  no_mask :
      (r.cmd ≡ some (codes "set")) ⊎ (r.cmd ≡ some (codes "do")) → r.arg_x ≡ none → Malformed w r

abbrev pub asked : Request → World → World
asked r w = emit (Effect.event (Event.remote_ctrl r.door r.cmd r.arg1 r.arg_x)) w

module _ {D : Type 0} (state_db : StateDb D) where
  no_door-refused :
      (cmd name : Option Text) (arg_x : Option Text) (w : World) (db : D)
      → on_words state_db cmd name none arg_x w db ≡ (answer_err w, db)
  no_door-refused none name arg_x w db = refl
  no_door-refused (some cmd) none arg_x w db = refl
  no_door-refused (some cmd) (some name) arg_x w db = refl

  unnamed-refused :
      (cmd : Option Text) (arg1 : Option Text) (arg_x : Option Text) (w : World) (db : D)
      → on_words state_db cmd none arg1 arg_x w db ≡ (answer_err w, db)
  unnamed-refused none arg1 arg_x w db = refl
  unnamed-refused (some cmd) arg1 arg_x w db = refl

  unknown-refused :
      (cmd : Option Text) (name : Text) (arg1 : Option Text) (arg_x : Option Text) (w : World)
      (db : D)
      → get_door_by_name w name ≡ none
      → on_words state_db cmd (some name) arg1 arg_x w db ≡ (answer_err w, db)
  unknown-refused none name arg1 arg_x w db e = refl
  unknown-refused (some cmd) name none arg_x w db e = refl
  unknown-refused (some cmd) name (some arg1) arg_x w db e = rw e

  -- A command that `run_command` declines.
  declined :
      (cmd : Text) (name arg1 : Option Text) (arg_x : Option Text) (w : World) (db : D)
      → ((name' arg1' : Text) (i : ℕ)
          → run_command state_db cmd name' arg1' arg_x i w db ≡ (false, w, db))
      → on_words state_db (some cmd) name arg1 arg_x w db ≡ (answer_err w, db)
  declined cmd none arg1 arg_x w db e = refl
  declined cmd (some name) none arg_x w db e = refl
  declined cmd (some name) (some arg1) arg_x w db e =
      elim (Option-cases (get_door_by_name w name)) [
        | inl f ↦ rw f
        | inr (i, f) ↦ rw f (ap (finish state_db) (e name arg1 i))
      ]

  pub serve-Malformed :
      (r : Request) (w : World) (db : D)
      → Malformed w r
      → serve state_db r w db ≡ (answer_err (asked r w), db)
  unfolding serve run_command get_door_by_name
  serve-Malformed r w db (no_cmd e) = rw e
  serve-Malformed r w db (no_door e) = rw e (unnamed-refused r.cmd r.arg1 r.arg_x _ db)
  serve-Malformed r w db (no_arg1 e) = rw e (no_door-refused r.cmd r.door r.arg_x _ db)
  serve-Malformed r w db (unknown_door name e f) =
      rw e (unknown-refused r.cmd name r.arg1 r.arg_x _ db f)
  serve-Malformed r w db (unknown_cmd cmd e g s u d) =
      rw e (declined cmd r.door r.arg1 r.arg_x _ db (λ n a i. rw (g, s, u, d)))
  serve-Malformed r w db (no_mask (inl e) f) =
      rw (e, f) (declined (codes "set") r.door r.arg1 none _ db (λ n a i. refl))
  serve-Malformed r w db (no_mask (inr e) f) =
      rw (e, f) (declined (codes "do") r.door r.arg1 none _ db (λ n a i. refl))

-- A datagram that fits is served, an empty one is not.
pub check_network_total :
    {D : Type 0} (state_db : StateDb D) (datagram : Option (List ℕ)) (w : World) (db : D)
    → ((d : List ℕ) → datagram ≡ some d → length d < 128)
    → (s : World × D) × (check_network state_db datagram w db ≡ some s)
      × ((s ≡ (w, db))
          ⊎ ((d : List ℕ) × (datagram ≡ some d)
              × (s ≡ serve state_db (request_of (c_string d)) w db)))
unfolding check_network
check_network_total state_db none w db fits = ((w, db), refl, inl refl)
check_network_total state_db (some []) w db fits = ((w, db), refl, inl refl)
check_network_total state_db (some (c ∷ d)) w db fits =
    let short = fits (c ∷ d) refl in
    elim (Bool-cases (ltb (suc (length d)) buf_size)) [
      | inl e ↦ rw e (_, refl, inr (c ∷ d, refl, refl))
      | inr e ↦ absurd (ground arith)
    ]
