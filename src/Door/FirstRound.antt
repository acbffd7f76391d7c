-- ===== src/Door/FirstRound.antt =====
-- The first round of `mainLoop` (door_controller/door_controller.c) after the start: main.c sets every
-- lock timer to 1, so that each door is locked when its turn in the round comes, but a door that the
-- remote control unlocked at the start. A door of an airlock that comes first may be unlocked while
-- the timer of its partner is still at 1.
pub mod Phases
pub mod Waits
use osdp_roger_acs.Base.{
  ℕ, zero, suc, ◌+◌, ◌-◌, ◌≤◌, ◌<◌, ◌≡◌, refl, sym, ap, ◌∙◌, ◌≢◌, ◌==◌, arith,
}
use osdp_roger_acs.Base.{List, all_ones, if◌then◌else◌, ◌⊎◌}
use native.Mathlib.Decide.{ℕ_discrete, dec_lt}
use osdp_roger_acs.Reader.{UserInfo}
use osdp_roger_acs.Door.{Door, World, emit, put_door, do_lock, door_state}
use osdp_roger_acs.Door.Lock.{
  air_lock_on_partner, start_lock_timer, unlock_door, lock_door, unlock_mask, lock_mask,
}
use osdp_roger_acs.Door.Frame.{
  SameButLock, air_lock_on_partner-SameButLock, unlock_door-SameButLock, lock_door-SameButLock,
  doors-unlock_door, unlock_door-zero, doors-lock_door, lock_door-zero,
}
use osdp_roger_acs.Door.Airlock.{
  IsHeld, unlock_mask-IsHeld, unlock_door-holds, doors-air_lock_ne, doors-air_lock_ones,
  doors-air_lock_zero,
}
use osdp_roger_acs.Door.Interlock.{
  Paired, Paired-sym, Paired-SameButLock, Exclusive-sym, Interlocked, lock_door-Interlocked,
  unlock_door-Interlocked,
}
use osdp_roger_acs.Door.Auth.{UserDb}
use osdp_roger_acs.Door.Inputs.{check_inputs}
use osdp_roger_acs.Door.Loop.{lock_timer_tick, door_round, doors_round, main_loop}
use osdp_roger_acs.Door.Steps.{SameLock, if-keeps, door_round-keeps}
use osdp_roger_acs.Door.Rounds.{
  SameLock-Interlocked, SameLock-Paired, door_round-Interlocked, check_from-Interlocked,
}
use osdp_roger_acs.Door.ThirdDoor.{}

-- An airlock before the turn of either door: a lock timer above 1 is that of a door that `unlock_door` opened.
pub record Waiting (i p : ℕ) (doors : ℕ → Door) : Type 0 where
  pub paired : Paired i p doors
  pub timer_i : 0 < (doors i).door_lock_timer
  pub timer_p : 0 < (doors p).door_lock_timer
  pub holds_p : 1 < (doors i).door_lock_timer → IsHeld (doors p)
  pub holds_i : 1 < (doors p).door_lock_timer → IsHeld (doors i)
  pub one_waits : ((doors i).door_lock_timer < 2) ⊎ ((doors p).door_lock_timer < 2)

-- An airlock between the turn of door `i` and that of door `p`.
pub record Opening (i p : ℕ) (doors : ℕ → Door) : Type 0 where
  pub paired : Paired i p doors
  pub timer_p : 0 < (doors p).door_lock_timer
  pub holds_p : 0 < (doors i).door_lock_timer → IsHeld (doors p)
  pub holds_i : 1 < (doors p).door_lock_timer → IsHeld (doors i)
  pub one_waits : ((doors i).door_lock_timer ≡ 0) ⊎ ((doors p).door_lock_timer < 2)

-- A door whose lock timer counts down, as it is handed to `lock_door` at the end.
abbrev ticked : ℕ → World → World
ticked k w = put_door k (record (w.doors k) { door_lock_timer = (w.doors k).door_lock_timer - 1 }) w

lock_timer_tick-last :
    (k : ℕ) (w : World)
    → (w.doors k).door_lock_timer ≡ 1
    → lock_timer_tick k w ≡ (lock_door k (w.doors k).mask_full (ticked k w)).1
unfolding lock_timer_tick
lock_timer_tick-last k w e = ground (arith, e)

lock_timer_tick-running :
    (k : ℕ) (w : World) → 1 < (w.doors k).door_lock_timer → lock_timer_tick k w ≡ ticked k w
unfolding lock_timer_tick
lock_timer_tick-running k w h = ground (arith, h)

-- The turns of the two doors themselves.
module _ {i p : ℕ} where
  Opening-same :
      (ds es : ℕ → Door) → ((j : ℕ) → SameLock (ds j) (es j)) → Opening i p ds → Opening i p es
  Opening-same ds es same v = record {
    paired = SameLock-Paired ds es same v.paired;
    timer_p = ground (arith, same p, v.timer_p);
    holds_p = ground (arith, same i, same p, v.holds_p);
    holds_i = ground (arith, same i, same p, v.holds_i);
    one_waits = ground (arith, same i, same p, v.one_waits);
  }

  -- It is unlocked only if the other is not.
  Opening-unlock :
      (mask : ℕ) (w : World) → Opening i p w.doors → Opening i p (unlock_door i mask w).1.doors
  unfolding start_lock_timer
  Opening-unlock mask w v = elim (ℕ_discrete (unlock_mask (w.doors i) mask) 0) [
    | yes z ↦ rw (unlock_door-zero i mask w z) v
    | no opened ↦
        let paired = v.paired in
        let at_p = doors-air_lock_ones i p w paired.partner_i paired.fits_p p in
        let free = unlock_mask-IsHeld (w.doors i) mask paired.fits_i in
        let now = doors-unlock_door i mask w opened in
        record {
          paired = Paired-SameButLock w.doors _ (unlock_door-SameButLock i mask w) paired;
          timer_p = rw now (ground (arith, paired.apart, v.timer_p, at_p));
          holds_p = λ _. (unlock_door-holds i p mask w paired.partner_i paired.fits_p opened).0;
          holds_i = rw now (ground (arith, paired.apart, v.holds_i, at_p, free));
          one_waits = rw now (ground (arith, paired.apart, v.holds_i, at_p, free));
        }
  ]

  ticked-Paired : (k : ℕ) (w : World) → Paired i p w.doors → Paired i p (ticked k w).doors
  ticked-Paired k w v = Paired-SameButLock w.doors _ (λ j. ground arith) v

  Opening-lock :
      (mask : ℕ) (w : World)
      → (w.doors i).door_lock_timer ≡ 0
      → Opening i p w.doors
      → Opening i p (lock_door i mask w).1.doors
  Opening-lock mask w e v = elim (ℕ_discrete (lock_mask (w.doors i) mask) 0) [
    | yes z ↦ rw (lock_door-zero i mask w z) v
    | no driven ↦
        let w' = emit (door_state do_lock (lock_mask (w.doors i) mask)) w in
        let at = doors-air_lock_zero i p w' v.paired.partner_i in
        rw (doors-lock_door i mask w driven) (record {
          paired =
              Paired-SameButLock w.doors _ (λ j. (air_lock_on_partner-SameButLock i 0 w' j).0)
                v.paired;
          timer_p = ground (arith, at p, v.timer_p);
          holds_p = ground (arith, at i, v.paired.apart, e);
          holds_i = ground (arith, at i, at p, v.paired.apart, v.holds_i);
          one_waits = ground (arith, at i, v.paired.apart, e);
        })
  ]

  -- The first of them is locked when its timer ends.
  Waiting-tick : (w : World) → Waiting i p w.doors → Opening i p (lock_timer_tick i w).doors
  Waiting-tick w v =
      let now : Opening i p (ticked i w).doors = record {
        paired = ticked-Paired i w v.paired;
        timer_p = ground (arith, v.timer_p);
        holds_p = ground (arith, v.holds_p, v.paired.apart);
        holds_i = ground (arith, v.holds_i, v.paired.apart);
        one_waits = ground (arith, v.one_waits, v.paired.apart);
      } in
      elim (ℕ_discrete (w.doors i).door_lock_timer 1) [
        | yes e ↦
            rw (lock_timer_tick-last i w e)
              (Opening-lock (w.doors i).mask_full (ticked i w) (ground (arith, e)) now)
        | no running ↦ rw (lock_timer_tick-running i w (ground (arith, v.timer_i))) now
      ]

  pub Waiting-round :
      (db : UserDb) (inputs : ℕ → List UserInfo) (w : World)
      → Waiting i p w.doors
      → Opening i p (door_round db inputs i w).doors
  Waiting-round db inputs w v =
      door_round-keeps (Opening i p) Opening-same i Opening-unlock db inputs w (Waiting-tick w v)

  -- The second is locked when its timer ends, while the first is locked or holds it.
  Opening-tick : (w : World) → Opening i p w.doors → Interlocked i p (lock_timer_tick p w).doors
  Opening-tick w v =
      let now : Interlocked i p (ticked p w).doors = record {
        paired = ticked-Paired p w v.paired;
        exclusive = ground (arith, v.timer_p, v.holds_p, v.holds_i, v.one_waits, v.paired.apart);
      } in
      elim (ℕ_discrete (w.doors p).door_lock_timer 1) [
        | yes e ↦
            rw (lock_timer_tick-last p w e)
              (lock_door-Interlocked p (w.doors p).mask_full (ticked p w) now)
        | no running ↦ rw (lock_timer_tick-running p w (ground (arith, v.timer_p))) now
      ]

  pub Opening-round :
      (db : UserDb) (inputs : ℕ → List UserInfo) (w : World)
      → Opening i p w.doors
      → Interlocked i p (door_round db inputs p w).doors
  Opening-round db inputs w v =
      door_round-keeps (Interlocked i p) SameLock-Interlocked p (unlock_door-Interlocked p) db
        inputs w (Opening-tick w v)
