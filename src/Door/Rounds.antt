-- ===== src/Door/Rounds.antt =====
-- Every operation of a round of `mainLoop` (door_controller/door_controller.c) keeps the airlock.
use osdp_roger_acs.Base.{ℕ, zero, suc, ◌-◌, arith, List}
use osdp_roger_acs.Reader.{UserInfo}
use osdp_roger_acs.Door.{Door, World, put_door}
use osdp_roger_acs.Door.Inputs.{check_from, check_inputs}
use osdp_roger_acs.Door.Auth.{UserDb}
use osdp_roger_acs.Door.Loop.{lock_timer_tick, door_round, doors_round, main_loop}
use osdp_roger_acs.Door.Interlock.{Interlocked, Paired, Paired-SameButLock, Paired-agree}
use osdp_roger_acs.Door.Interlock.{air_lock-Interlocked, unlock_door-Interlocked}
use osdp_roger_acs.Door.Interlock.{lock_door-Interlocked}
use osdp_roger_acs.Door.Steps.{SameLock, if-keeps, check_input-keeps, door_round-keeps}

pub SameLock-Paired :
    {i p : ℕ} (ds es : ℕ → Door)
    → ((j : ℕ) → SameLock (ds j) (es j))
    → Paired i p ds
    → Paired i p es
SameLock-Paired ds es same v =
    Paired-agree ds es (λ j. (same j).same_partner) (λ j. (same j).same_full) v

pub SameLock-Interlocked :
    {i p : ℕ} (ds es : ℕ → Door)
    → ((j : ℕ) → SameLock (ds j) (es j))
    → Interlocked i p ds
    → Interlocked i p es
SameLock-Interlocked {i} {p} ds es same v = record {
  paired = SameLock-Paired ds es same v.paired;
  exclusive = ground (arith, same i, same p, v.exclusive);
}

module _ {i p : ℕ} where
  -- A lock timer that counts down.
  decremented :
      (k : ℕ) (w : World)
      → Interlocked i p w.doors
      → let d = w.doors k in
        Interlocked i p (put_door k (record d { door_lock_timer = d.door_lock_timer - 1 }) w).doors
  decremented k w v = record {
    paired = Paired-SameButLock w.doors _ (λ j. ground arith) v.paired;
    exclusive = ground (arith, v.exclusive);
  }

  -- The timer is 0 by the time that `lock_door` asks whether the door is locked.
  lock_timer_tick-Interlocked :
      (k : ℕ) (w : World) → Interlocked i p w.doors → Interlocked i p (lock_timer_tick k w).doors
  unfolding lock_timer_tick
  lock_timer_tick-Interlocked k w v =
      let v' = decremented k w v in
      if-keeps (Interlocked i p) _ _ _
        (if-keeps (Interlocked i p) _ _ _ (lock_door-Interlocked k _ _ v') v') v

  pub door_round-Interlocked :
      (db : UserDb) (inputs : ℕ → List UserInfo) (k : ℕ) (w : World)
      → Interlocked i p w.doors
      → Interlocked i p (door_round db inputs k w).doors
  door_round-Interlocked db inputs k w v =
      door_round-keeps (Interlocked i p) SameLock-Interlocked k (unlock_door-Interlocked k) db
        inputs w (lock_timer_tick-Interlocked k w v)

  pub check_from-Interlocked :
      (input_val : ℕ → ℕ) (n k : ℕ) (w : World)
      → Interlocked i p w.doors
      → Interlocked i p (check_from input_val n k w).doors
  unfolding check_from
  check_from-Interlocked input_val zero k w v = v
  check_from-Interlocked input_val (suc n) k w v = check_from-Interlocked input_val n (suc k) _ (
      check_input-keeps (Interlocked i p) SameLock-Interlocked k (unlock_door-Interlocked k)
        (λ b. air_lock-Interlocked b k) (input_val k) w v)

  doors_round-Interlocked :
      (db : UserDb) (inputs : ℕ → List UserInfo) (n k : ℕ) (w : World)
      → Interlocked i p w.doors
      → Interlocked i p (doors_round db inputs n k w).doors
  unfolding doors_round
  doors_round-Interlocked db inputs zero k w v = v
  doors_round-Interlocked db inputs (suc n) k w v =
      doors_round-Interlocked db inputs n (suc k) _ (door_round-Interlocked db inputs k w v)

-- Two doors that are each other's airlock partner, and no third door's, and of which at most one
-- has its lock timer running while the other's airlock mask covers all its subdoors: that is kept by a round of
-- the main loop, whatever the readers, the user database and the inputs give.
pub main_loop-Interlocked :
    {i p : ℕ} (db : UserDb) (inputs : ℕ → List UserInfo) (lines : List ℕ) (stack : ℕ → ℕ)
    (w : World)
    → Interlocked i p w.doors
    → Interlocked i p (main_loop db inputs lines stack w).doors
unfolding main_loop check_inputs
main_loop-Interlocked db inputs lines stack w v =
    check_from-Interlocked _ _ 0 _ (doors_round-Interlocked db inputs w.doors_count 0 w v)
