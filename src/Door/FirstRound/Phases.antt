-- ===== src/Door/FirstRound/Phases.antt =====
-- The first round over all doors: three phases of an airlock, and what it is after them.
use osdp_roger_acs.Base.{ℕ, zero, suc, ◌+◌, ◌≤◌, ◌<◌, ◌≡◌, ◌≢◌, arith, List}
use native.Mathlib.Decide.{ℕ_discrete, dec_lt}
use osdp_roger_acs.Reader.{UserInfo}
use osdp_roger_acs.Door.{Door, World}
use osdp_roger_acs.Door.Interlock.{Paired, Paired-sym, Exclusive-sym, Interlocked}
use osdp_roger_acs.Door.Auth.{UserDb}
use osdp_roger_acs.Door.Inputs.{check_inputs}
use osdp_roger_acs.Door.Loop.{door_round, doors_round, main_loop}
use osdp_roger_acs.Door.Rounds.{door_round-Interlocked, check_from-Interlocked}
use osdp_roger_acs.Door.FirstRound.Waits.{Waiting-Untouched, Waiting-sym}
use osdp_roger_acs.Door.FirstRound.{Waiting, Opening, Waiting-round, Opening-round}
use osdp_roger_acs.Door.ThirdDoor.{Untouched, Untouched-round}

-- Where the round has come to, door `k`, and what the airlock is there.
data Phase (i p k : ℕ) (doors : ℕ → Door) : Type 0 where
  before : k ≤ i → Waiting i p doors → Phase i p k doors
  between : i < k → k ≤ p → Opening i p doors → Phase i p k doors
  after : p < k → Interlocked i p doors → Phase i p k doors

Opening-Untouched :
    {i p : ℕ} {ds es : ℕ → Door} → Untouched i p (ds i) (ds p) es → Opening i p ds → Opening i p es
Opening-Untouched u v = record {
  paired = u.paired;
  timer_p = ground (arith, u.same_p, v.timer_p);
  holds_p = ground (arith, u.same_i, u.same_p, v.holds_p);
  holds_i = ground (arith, u.same_i, u.same_p, v.holds_i);
  one_waits = ground (arith, u.same_i, u.same_p, v.one_waits);
}

module _ {i p : ℕ} (ordered : i < p) (db : UserDb) (inputs : ℕ → List UserInfo) where
  untouched :
      (k : ℕ) (w : World)
      → k ≢ i
      → k ≢ p
      → Paired i p w.doors
      → Untouched i p (w.doors i) (w.doors p) (door_round db inputs k w).doors
  untouched k w ki kp v =
      Untouched-round k ki kp db inputs w
        (record { paired = v; same_i = ground arith; same_p = ground arith })

  Phase-step :
      (k : ℕ) (w : World) → Phase i p k w.doors → Phase i p (suc k) (door_round db inputs k w).doors
  Phase-step k w (before h v) = elim (ℕ_discrete k i) [
    | yes e ↦ between (omega arith) (omega arith) (rw e (Waiting-round db inputs w v))
    | no ki ↦
        let u = untouched k w ki (λ e. absurd (omega arith)) v.paired in
        before (omega arith) (Waiting-Untouched u v)
  ]
  Phase-step k w (between l h v) = elim (ℕ_discrete k p) [
    | yes e ↦ after (omega arith) (rw e (Opening-round db inputs w v))
    | no kp ↦
        let u = untouched k w (λ e. absurd (omega arith)) kp v.paired in
        between (omega arith) (omega arith) (Opening-Untouched u v)
  ]
  Phase-step k w (after h v) = after (omega arith) (door_round-Interlocked db inputs k w v)

  Phase-doors :
      (n k end : ℕ) (w : World)
      → k + n ≡ end
      → Phase i p k w.doors
      → Phase i p end (doors_round db inputs n k w).doors
  unfolding doors_round
  Phase-doors zero k end w e v = let same : k ≡ end = omega arith in rw (← same) v
  Phase-doors (suc n) k end w e v = Phase-doors n (suc k) end _ (omega arith) (Phase-step k w v)

  ended : {n : ℕ} {doors : ℕ → Door} → p < n → Phase i p n doors → Interlocked i p doors
  ended h (before l u) = absurd (omega arith)
  ended h (between l m u) = absurd (omega arith)
  ended h (after l u) = u

  doors_round-first :
      (n : ℕ) (w : World)
      → p < n
      → Waiting i p w.doors
      → Interlocked i p (doors_round db inputs n 0 w).doors
  doors_round-first n w h v = ended h (Phase-doors n 0 n w (omega arith) (before (omega arith) v))

Interlocked-sym : {i p : ℕ} {doors : ℕ → Door} → Interlocked i p doors → Interlocked p i doors
Interlocked-sym v = record { paired = Paired-sym v.paired; exclusive = Exclusive-sym v.exclusive }

-- The first round of the main loop brings two doors that wait for it, each other's airlock partner and
-- no third door's, to a state in which the lock timer of at most one runs and the other is held
-- meanwhile.
pub main_loop-first :
    {i p : ℕ} (db : UserDb) (inputs : ℕ → List UserInfo) (lines : List ℕ) (stack : ℕ → ℕ)
    (w : World)
    → i < w.doors_count
    → p < w.doors_count
    → Waiting i p w.doors
    → Interlocked i p (main_loop db inputs lines stack w).doors
unfolding main_loop check_inputs
main_loop-first {i} {p} db inputs lines stack w hi hp v =
    let rounded : Interlocked i p (doors_round db inputs w.doors_count 0 w).doors =
      elim (dec_lt i p) [
        | yes l ↦ doors_round-first l db inputs w.doors_count w hp v
        | no l ↦
            let apart = v.paired.apart in
            let l' : p < i = ground (arith, apart) in
            Interlocked-sym (doors_round-first l' db inputs w.doors_count w hi (Waiting-sym v))
      ] in
    check_from-Interlocked _ _ 0 _ rounded
