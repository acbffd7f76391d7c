-- ===== src/Door/ThirdDoor.antt =====
-- The turn of a third door in the loop of door_controller/door_controller.c, for two paired doors.
use osdp_roger_acs.Base.{ℕ, ◌-◌, ◌≡◌, ◌≢◌, arith}
use osdp_roger_acs.Base.{List, all_ones}
use native.Mathlib.Decide.{ℕ_discrete}
use osdp_roger_acs.Reader.{UserInfo}
use osdp_roger_acs.Door.{Door, World, emit, put_door, do_lock, door_state}
use osdp_roger_acs.Door.Lock.{
  air_lock_on_partner, start_lock_timer, unlock_door, lock_door, unlock_mask, lock_mask,
}
use osdp_roger_acs.Door.Frame.{
  SameButLock, unlock_door-SameButLock, lock_door-SameButLock, doors-unlock_door, unlock_door-zero,
  doors-lock_door, lock_door-zero,
}
use osdp_roger_acs.Door.Airlock.{doors-air_lock_ne}
use osdp_roger_acs.Door.Interlock.{Paired, Paired-SameButLock}
use osdp_roger_acs.Door.Auth.{UserDb}
use osdp_roger_acs.Door.Loop.{lock_timer_tick, door_round}
use osdp_roger_acs.Door.Steps.{SameLock, if-keeps, door_round-keeps}
use osdp_roger_acs.Door.Rounds.{SameLock-Paired}

-- An airlock with doors that agree with `d` and `e` on what the airlock is about.
pub record Untouched (i p : ℕ) (d e : Door) (doors : ℕ → Door) : Type 0 where
  pub paired : Paired i p doors
  pub same_i : SameLock d (doors i)
  pub same_p : SameLock e (doors p)

-- The turn of a third door.
module _ {i p : ℕ} {d e : Door} where
  Untouched-same :
      (ds es : ℕ → Door)
      → ((j : ℕ) → SameLock (ds j) (es j))
      → Untouched i p d e ds
      → Untouched i p d e es
  Untouched-same ds es same v = record {
    paired = SameLock-Paired ds es same v.paired;
    same_i = ground (arith, v.same_i, same i);
    same_p = ground (arith, v.same_p, same p);
  }

  Untouched-eq :
      (ds es : ℕ → Door)
      → ((j : ℕ) → SameButLock (ds j) (es j))
      → es i ≡ ds i
      → es p ≡ ds p
      → Untouched i p d e ds
      → Untouched i p d e es
  Untouched-eq ds es same at_i at_p v = record {
    paired = Paired-SameButLock ds es same v.paired;
    same_i = rw at_i v.same_i;
    same_p = rw at_p v.same_p;
  }

  module _ (k : ℕ) (ki : k ≢ i) (kp : k ≢ p) where
    Untouched-air_lock :
        (mask : ℕ) (w : World)
        → Untouched i p d e w.doors
        → ((air_lock_on_partner k mask w).doors i ≡ w.doors i)
          × ((air_lock_on_partner k mask w).doors p ≡ w.doors p)
    Untouched-air_lock mask w v = (
      doors-air_lock_ne k mask i w (λ f. kp (v.paired.only_p k f)),
      doors-air_lock_ne k mask p w (λ f. ki (v.paired.only_i k f)),
    )

    pub Untouched-unlock :
        (mask : ℕ) (w : World)
        → Untouched i p d e w.doors
        → Untouched i p d e (unlock_door k mask w).1.doors
    unfolding start_lock_timer
    Untouched-unlock mask w v = elim (ℕ_discrete (unlock_mask (w.doors k) mask) 0) [
      | yes z ↦ rw (unlock_door-zero k mask w z) v
      | no opened ↦
          let (at_i, at_p) = Untouched-air_lock all_ones w v in
          let now = doors-unlock_door k mask w opened in
          Untouched-eq w.doors _ (unlock_door-SameButLock k mask w)
            (rw now (ground (arith, ki, at_i))) (rw now (ground (arith, kp, at_p))) v
    ]

    pub Untouched-lock :
        (mask : ℕ) (w : World)
        → Untouched i p d e w.doors
        → Untouched i p d e (lock_door k mask w).1.doors
    Untouched-lock mask w v = elim (ℕ_discrete (lock_mask (w.doors k) mask) 0) [
      | yes z ↦ rw (lock_door-zero k mask w z) v
      | no driven ↦
          let (at_i, at_p) =
            Untouched-air_lock 0 (emit (door_state do_lock (lock_mask (w.doors k) mask)) w) v in
          let now = doors-lock_door k mask w driven in
          Untouched-eq w.doors _ (λ j. (lock_door-SameButLock k mask w j).0) (rw now at_i)
            (rw now at_p) v
    ]

    Untouched-tick :
        (w : World) → Untouched i p d e w.doors → Untouched i p d e (lock_timer_tick k w).doors
    unfolding lock_timer_tick
    Untouched-tick w v =
        let d' = w.doors k in
        let w' = put_door k (record d' { door_lock_timer = d'.door_lock_timer - 1 }) w in
        let v' : Untouched i p d e w'.doors =
          Untouched-eq w.doors _ (λ j. ground arith) (ground (arith, ki)) (ground (arith, kp)) v in
        if-keeps (Untouched i p d e) _ _ _
          (if-keeps (Untouched i p d e) _ _ _ (Untouched-lock _ w' v') v') v

    pub Untouched-round :
        (db : UserDb) (inputs : ℕ → List UserInfo) (w : World)
        → Untouched i p d e w.doors
        → Untouched i p d e (door_round db inputs k w).doors
    Untouched-round db inputs w v =
        door_round-keeps (Untouched i p d e) Untouched-same k Untouched-unlock db inputs w
          (Untouched-tick w v)
