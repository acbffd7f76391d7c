-- ===== src/Door/FirstRound/Waits.antt =====
-- Before the first round: `unlock_door` and `lock_door` (door_controller/door_controller.c) as
-- init_remote_control calls them for the rows of its table, over an airlock that waits for it.
use osdp_roger_acs.Base.{ℕ, arith}
use native.Mathlib.Decide.{ℕ_discrete}
use osdp_roger_acs.Door.{Door, World, emit, do_lock, door_state}
use osdp_roger_acs.Door.Lock.{start_lock_timer, unlock_door, lock_door, unlock_mask, lock_mask}
use osdp_roger_acs.Door.Frame.{
  unlock_door-SameButLock, lock_door-SameButLock, doors-unlock_door, unlock_door-zero,
  doors-lock_door, lock_door-zero,
}
use osdp_roger_acs.Door.Airlock.{
  unlock_mask-IsHeld, unlock_door-holds, doors-air_lock_ones, doors-air_lock_zero,
}
use osdp_roger_acs.Door.Interlock.{Paired-sym, Paired-SameButLock}
use osdp_roger_acs.Door.Steps.{SameLock}
use osdp_roger_acs.Door.Rounds.{SameLock-Paired}
use osdp_roger_acs.Door.FirstRound.{Waiting}
use osdp_roger_acs.Door.ThirdDoor.{Untouched, Untouched-unlock, Untouched-lock}

pub Waiting-Untouched :
    {i p : ℕ} {ds es : ℕ → Door} → Untouched i p (ds i) (ds p) es → Waiting i p ds → Waiting i p es
Waiting-Untouched u v = record {
  paired = u.paired;
  timer_i = ground (arith, u.same_i, v.timer_i);
  timer_p = ground (arith, u.same_p, v.timer_p);
  holds_p = ground (arith, u.same_i, u.same_p, v.holds_p);
  holds_i = ground (arith, u.same_i, u.same_p, v.holds_i);
  one_waits = ground (arith, u.same_i, u.same_p, v.one_waits);
}

pub Waiting-sym : {i p : ℕ} {doors : ℕ → Door} → Waiting i p doors → Waiting p i doors
Waiting-sym v = record {
  paired = Paired-sym v.paired;
  timer_i = v.timer_p;
  timer_p = v.timer_i;
  holds_p = v.holds_i;
  holds_i = v.holds_p;
  one_waits = ground (arith, v.one_waits);
}

pub Waiting-same :
    {i p : ℕ} (ds es : ℕ → Door)
    → ((j : ℕ) → SameLock (ds j) (es j))
    → Waiting i p ds
    → Waiting i p es
Waiting-same {i} {p} ds es same v =
    Waiting-Untouched
      (record { paired = SameLock-Paired ds es same v.paired; same_i = same i; same_p = same p }) v

itself : {i p : ℕ} (doors : ℕ → Door) → Waiting i p doors → Untouched i p (doors i) (doors p) doors
itself doors v = record { paired = v.paired; same_i = ground arith; same_p = ground arith }

module _ {i p : ℕ} (mask : ℕ) (w : World) (v : Waiting i p w.doors) where
  unlock_self : Waiting i p (unlock_door i mask w).1.doors
  unfolding start_lock_timer
  unlock_self = elim (ℕ_discrete (unlock_mask (w.doors i) mask) 0) [
    | yes z ↦ rw (unlock_door-zero i mask w z) v
    | no opened ↦
        let paired = v.paired in
        let at_p = doors-air_lock_ones i p w paired.partner_i paired.fits_p p in
        let free = unlock_mask-IsHeld (w.doors i) mask paired.fits_i in
        let now = doors-unlock_door i mask w opened in
        record {
          paired = Paired-SameButLock w.doors _ (unlock_door-SameButLock i mask w) paired;
          timer_i = rw now (ground arith);
          timer_p = rw now (ground (arith, paired.apart, v.timer_p, at_p));
          holds_p = λ _. (unlock_door-holds i p mask w paired.partner_i paired.fits_p opened).0;
          holds_i = rw now (ground (arith, paired.apart, v.holds_i, at_p, free));
          one_waits = rw now (ground (arith, paired.apart, v.holds_i, at_p, free));
        }
  ]

  -- A door whose lock timer runs does not release its partner.
  lock_self : Waiting i p (lock_door i mask w).1.doors
  lock_self = elim (ℕ_discrete (lock_mask (w.doors i) mask) 0) [
    | yes z ↦ rw (lock_door-zero i mask w z) v
    | no driven ↦
        let w' = emit (door_state do_lock (lock_mask (w.doors i) mask)) w in
        let at = doors-air_lock_zero i p w' v.paired.partner_i in
        Waiting-Untouched
          (record {
            paired =
                Paired-SameButLock w.doors _ (λ j. (lock_door-SameButLock i mask w j).0) v.paired;
            same_i = rw (doors-lock_door i mask w driven) (ground (arith, at i, v.timer_i));
            same_p = rw (doors-lock_door i mask w driven) (ground (arith, at p, v.timer_i));
          })
          v
  ]

module _ {i p : ℕ} (k mask : ℕ) (w : World) (v : Waiting i p w.doors) where
  pub unlock_door-Waiting : Waiting i p (unlock_door k mask w).1.doors
  unlock_door-Waiting = elim (ℕ_discrete k i) [
    | yes e ↦ rw e (unlock_self mask w v)
    | no ki ↦ elim (ℕ_discrete k p) [
      | yes e ↦ rw e (Waiting-sym (unlock_self mask w (Waiting-sym v)))
      | no kp ↦ Waiting-Untouched (Untouched-unlock k ki kp mask w (itself w.doors v)) v
    ]
  ]

  pub lock_door-Waiting : Waiting i p (lock_door k mask w).1.doors
  lock_door-Waiting = elim (ℕ_discrete k i) [
    | yes e ↦ rw e (lock_self mask w v)
    | no ki ↦ elim (ℕ_discrete k p) [
      | yes e ↦ rw e (Waiting-sym (lock_self mask w (Waiting-sym v)))
      | no kp ↦ Waiting-Untouched (Untouched-lock k ki kp mask w (itself w.doors v)) v
    ]
  ]
