-- ===== src/Door/Timers.antt =====
-- The three timers of door_controller/door_controller.c over several rounds: the lock timer, the
-- two-factor timer and the alarm timer.
use osdp_roger_acs.Base.{ℕ, zero, suc, ◌-◌, ◌<◌, true, false, ◌≡◌, ap, ◌∙◌, ◌≢◌, arith}
use osdp_roger_acs.Base.{iterate, ◌∷◌}
use osdp_roger_acs.Base.{◌==◌, truth}
use osdp_roger_acs.Door.{World, do_lock}
use osdp_roger_acs.Door.{put_door}
use osdp_roger_acs.Door.Lock.{lock_mask}
use osdp_roger_acs.Door.Loop.{lock_timer_tick}
use osdp_roger_acs.Door.Grants.{outputs}
use osdp_roger_acs.Door.Outputs.{outputs-lock_door}

abbrev counted : ℕ → World → World
counted i w =
    put_door i (record (w.doors i) { door_lock_timer = (w.doors i).door_lock_timer - 1 }) w

-- The count is not in the mask.
lock_mask-counted :
    (i : ℕ) (w : World)
    → lock_mask ((counted i w).doors i) (w.doors i).mask_full
      ≡ lock_mask (w.doors i) (w.doors i).mask_full
unfolding lock_mask
lock_mask-counted i w = ground arith

lock_mask_full-counted :
    (i : ℕ) (w : World)
    → lock_mask ((counted i w).doors i) ((counted i w).doors i).mask_full
      ≡ lock_mask (w.doors i) (w.doors i).mask_full
unfolding lock_mask
lock_mask_full-counted i w = ground arith

counted_lem :
    (i : ℕ) (w : World)
    → (((counted i w).doors i).door_lock_timer ≡ (w.doors i).door_lock_timer - 1)
      × ((counted i w).log ≡ w.log)
counted_lem i w = ground arith

-- While the lock timer runs, a tick counts it down and drives nothing.
lock_timer_tick-running :
    (i : ℕ) (w : World) → 1 < (w.doors i).door_lock_timer → lock_timer_tick i w ≡ counted i w
unfolding lock_timer_tick
lock_timer_tick-running i w h =
    let a : truth (w.doors i).door_lock_timer ≡ true = ground arith in
    let b : ((w.doors i).door_lock_timer - 1 == 0) ≡ false = ground arith in
    rw (a, lock_timer_tick) (rw b)

-- The tick that ends it locks the door.
lock_timer_tick-last :
    (i : ℕ) (w : World)
    → (w.doors i).door_lock_timer ≡ 1
    → lock_mask (w.doors i) (w.doors i).mask_full ≢ 0
    → outputs (lock_timer_tick i w).log
      ≡ (do_lock, lock_mask (w.doors i) (w.doors i).mask_full) ∷ outputs w.log
unfolding lock_timer_tick
lock_timer_tick-last i w e h =
    let a : truth (w.doors i).door_lock_timer ≡ true = ground arith in
    let b : ((w.doors i).door_lock_timer - 1 == 0) ≡ true = ground arith in
    let same = lock_mask-counted i w in
    rw (a, lock_timer_tick)
      (rw b (
        outputs-lock_door i (w.doors i).mask_full (counted i w) (rw same h)
        ∙ ap (λ m. (do_lock, m) ∷ outputs w.log) same))

-- After `n + 1` ticks a lock timer at `n + 1` has driven the lock outputs once, and nothing else.
pub relocks :
    (n i : ℕ) (w : World)
    → (w.doors i).door_lock_timer ≡ suc n
    → lock_mask (w.doors i) (w.doors i).mask_full ≢ 0
    → outputs (iterate (suc n) (lock_timer_tick i) w).log
      ≡ (do_lock, lock_mask (w.doors i) (w.doors i).mask_full) ∷ outputs w.log
relocks zero i w e h = lock_timer_tick-last i w e h
relocks (suc n) i w e h =
    let same = lock_mask_full-counted i w in
    let (timer, _) = counted_lem i w in
    ap (λ (w' : World). outputs (iterate (suc n) (lock_timer_tick i) w').log)
      (lock_timer_tick-running i w (omega arith))
    ∙ relocks n i (counted i w) (omega arith) (rw same h)
    ∙ ap (λ m. (do_lock, m) ∷ outputs w.log) same
