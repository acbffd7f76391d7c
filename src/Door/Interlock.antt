-- ===== src/Door/Interlock.antt =====
-- The airlock over all the operations of door_controller/door_controller.c: what is kept by each
-- of them about two doors that are each other's partner.
use osdp_roger_acs.Base.{ℕ, ◌<◌, ◌^◌, ◌≡◌, sym, ◌∙◌, ◌≢◌, ◌⊎◌, arith}
use osdp_roger_acs.Base.{some}
use osdp_roger_acs.Base.{if◌then◌else◌, all_ones, Bool, true, false}
use native.Mathlib.Decide.{ℕ_discrete}
use osdp_roger_acs.Door.{Door, World, emit, do_lock, door_state}
use osdp_roger_acs.Door.Lock.{air_lock_on_partner, start_lock_timer, unlock_door, lock_door}
use osdp_roger_acs.Door.Lock.{unlock_mask, lock_mask}
use osdp_roger_acs.Door.Frame.{
  SameButLock, air_lock_on_partner-SameButLock, unlock_door-SameButLock,
}
use osdp_roger_acs.Door.Frame.{doors-unlock_door, unlock_door-zero, doors-lock_door, lock_door-zero}
use osdp_roger_acs.Door.Airlock.{IsHeld, doors-air_lock_ones, doors-air_lock_zero}
use osdp_roger_acs.Door.Airlock.{doors-air_lock_ne, unlock_mask-IsHeld}

-- Doors `i` and `p` form an airlock that no other door is part of.
pub record Paired (i p : ℕ) (doors : ℕ → Door) : Type 0 where
  pub apart : i ≢ p
  pub partner_i : (doors i).air_lock_partner_local ≡ some p
  pub partner_p : (doors p).air_lock_partner_local ≡ some i
  pub only_i : (j : ℕ) → (doors j).air_lock_partner_local ≡ some p → j ≡ i
  pub only_p : (j : ℕ) → (doors j).air_lock_partner_local ≡ some i → j ≡ p
  pub fits_i : (doors i).mask_full < 2 ^ 32
  pub fits_p : (doors p).mask_full < 2 ^ 32

-- While the lock timer of one of them runs the other is held, and at most one timer runs.
pub record Exclusive (d e : Door) : Type 0 where
  pub holds_e : 0 < d.door_lock_timer → IsHeld e
  pub holds_d : 0 < e.door_lock_timer → IsHeld d
  pub one_unlocked : (d.door_lock_timer ≡ 0) ⊎ (e.door_lock_timer ≡ 0)

pub record Interlocked (i p : ℕ) (doors : ℕ → Door) : Type 0 where
  pub paired : Paired i p doors
  pub exclusive : Exclusive (doors i) (doors p)

pub Paired-sym : {i p : ℕ} {doors : ℕ → Door} → Paired i p doors → Paired p i doors
Paired-sym v = record {
  apart = λ e. v.apart (sym e);
  partner_i = v.partner_p;
  partner_p = v.partner_i;
  only_i = v.only_p;
  only_p = v.only_i;
  fits_i = v.fits_p;
  fits_p = v.fits_i;
}

pub Exclusive-sym : {d e : Door} → Exclusive d e → Exclusive e d
Exclusive-sym v = ground arith

-- It is only about the partners and the subdoors of the doors.
pub Paired-agree :
    {i p : ℕ} (ds es : ℕ → Door)
    → ((j : ℕ) → (es j).air_lock_partner_local ≡ (ds j).air_lock_partner_local)
    → ((j : ℕ) → (es j).mask_full ≡ (ds j).mask_full)
    → Paired i p ds
    → Paired i p es
Paired-agree {i} {p} ds es partner full v = record {
  apart = v.apart;
  partner_i = partner i ∙ v.partner_i;
  partner_p = partner p ∙ v.partner_p;
  only_i = λ j h. v.only_i j (sym (partner j) ∙ h);
  only_p = λ j h. v.only_p j (sym (partner j) ∙ h);
  fits_i = rw (full i) v.fits_i;
  fits_p = rw (full p) v.fits_p;
}

pub Paired-SameButLock :
    {i p : ℕ} (ds es : ℕ → Door)
    → ((j : ℕ) → SameButLock (ds j) (es j))
    → Paired i p ds
    → Paired i p es
Paired-SameButLock ds es same v =
    Paired-agree ds es (λ j. (same j).same_partner) (λ j. (same j).same_full) v

-- `airLockOnPartner` at one door of the pair, and at a third.
air_lock-Exclusive_self :
    {i p : ℕ} (b : Bool) (w : World)
    → Paired i p w.doors
    → Exclusive (w.doors i) (w.doors p)
    → let w' = air_lock_on_partner i (if b then all_ones else 0) w in
      Exclusive (w'.doors i) (w'.doors p)
air_lock-Exclusive_self {i} {p} true w v x =
    rw
      (
        doors-air_lock_ones i p w v.partner_i v.fits_p i,
        doors-air_lock_ones i p w v.partner_i v.fits_p p,
      )
      (ground (arith, v.apart))
air_lock-Exclusive_self {i} {p} false w v x =
    rw (doors-air_lock_zero i p w v.partner_i i, doors-air_lock_zero i p w v.partner_i p)
      (ground (arith, v.apart))

air_lock-Exclusive_other :
    {i p : ℕ} (k mask : ℕ) (w : World)
    → Paired i p w.doors
    → k ≢ i
    → k ≢ p
    → Exclusive (w.doors i) (w.doors p)
    → let w' = air_lock_on_partner k mask w in Exclusive (w'.doors i) (w'.doors p)
air_lock-Exclusive_other {i} {p} k mask w v ki kp x =
    rw
      (
        doors-air_lock_ne k mask i w (λ e. kp (v.only_p k e)),
        doors-air_lock_ne k mask p w (λ e. ki (v.only_i k e)),
      )
      x

pub air_lock-Exclusive :
    {i p : ℕ} (b : Bool) (k : ℕ) (w : World)
    → Interlocked i p w.doors
    → let w' = air_lock_on_partner k (if b then all_ones else 0) w in
      Exclusive (w'.doors i) (w'.doors p)
air_lock-Exclusive {i} {p} b k w v = elim (ℕ_discrete k i) [
  | yes e ↦ rw e (air_lock-Exclusive_self b w v.paired v.exclusive)
  | no ki ↦ elim (ℕ_discrete k p) [
    | yes e ↦ rw e (
        Exclusive-sym
          (air_lock-Exclusive_self b w (Paired-sym v.paired) (Exclusive-sym v.exclusive)))
    | no kp ↦ air_lock-Exclusive_other k _ w v.paired ki kp v.exclusive
  ]
]

pub air_lock-Interlocked :
    {i p : ℕ} (b : Bool) (k : ℕ) (w : World)
    → Interlocked i p w.doors
    → Interlocked i p (air_lock_on_partner k (if b then all_ones else 0) w).doors
air_lock-Interlocked b k w v = record {
  paired = Paired-SameButLock w.doors _ (λ j. (air_lock_on_partner-SameButLock k _ w j).0) v.paired;
  exclusive = air_lock-Exclusive b k w v;
}

-- `unlock_door` at one door of the pair: it drives an output only while the other is locked.
unlock-Exclusive_self :
    {i p : ℕ} (mask : ℕ) (w : World)
    → Paired i p w.doors
    → Exclusive (w.doors i) (w.doors p)
    → unlock_mask (w.doors i) mask ≢ 0
    → let w' = start_lock_timer i (air_lock_on_partner i all_ones w) in
      Exclusive (w'.doors i) (w'.doors p)
unfolding start_lock_timer
unlock-Exclusive_self {i} {p} mask w v x opened = ground (
  arith,
  v.apart,
  x,
  unlock_mask-IsHeld (w.doors i) mask v.fits_i,
  doors-air_lock_ones i p w v.partner_i v.fits_p p,
  doors-air_lock_ones i p w v.partner_i v.fits_p i,
)

start_lock_timer-ne : (k j : ℕ) (w : World) → j ≢ k → (start_lock_timer k w).doors j ≡ w.doors j
unfolding start_lock_timer
start_lock_timer-ne k j w h = ground arith

unlock-Exclusive_other :
    {i p : ℕ} (k : ℕ) (w : World)
    → Interlocked i p w.doors
    → k ≢ i
    → k ≢ p
    → let w' = start_lock_timer k (air_lock_on_partner k all_ones w) in
      Exclusive (w'.doors i) (w'.doors p)
unlock-Exclusive_other {i} {p} k w v ki kp =
    rw (start_lock_timer-ne k i (air_lock_on_partner k all_ones w) (λ e. ki (sym e))) (
      rw (start_lock_timer-ne k p (air_lock_on_partner k all_ones w) (λ e. kp (sym e)))
        (air_lock-Exclusive true k w v))

unlock_door-Exclusive :
    {i p : ℕ} (k mask : ℕ) (w : World)
    → Interlocked i p w.doors
    → let w' = (unlock_door k mask w).1 in Exclusive (w'.doors i) (w'.doors p)
unlock_door-Exclusive {i} {p} k mask w v = elim (ℕ_discrete (unlock_mask (w.doors k) mask) 0) [
  | yes z ↦ rw (unlock_door-zero k mask w z) v.exclusive
  | no opened ↦ rw (doors-unlock_door k mask w opened) (elim (ℕ_discrete k i) [
    | yes e ↦ rw e (unlock-Exclusive_self mask w v.paired v.exclusive (rw e at opened))
    | no ki ↦ elim (ℕ_discrete k p) [
      | yes e ↦ rw e (
          Exclusive-sym (
            unlock-Exclusive_self mask w (Paired-sym v.paired) (Exclusive-sym v.exclusive)
              (rw e at opened)))
      | no kp ↦ unlock-Exclusive_other k w v ki kp
    ]
  ])
]

pub unlock_door-Interlocked :
    {i p : ℕ} (k mask : ℕ) (w : World)
    → Interlocked i p w.doors
    → Interlocked i p (unlock_door k mask w).1.doors
unlock_door-Interlocked k mask w v = record {
  paired = Paired-SameButLock w.doors _ (unlock_door-SameButLock k mask w) v.paired;
  exclusive = unlock_door-Exclusive k mask w v;
}

pub lock_door-Interlocked :
    {i p : ℕ} (k mask : ℕ) (w : World)
    → Interlocked i p w.doors
    → Interlocked i p (lock_door k mask w).1.doors
lock_door-Interlocked k mask w v = elim (ℕ_discrete (lock_mask (w.doors k) mask) 0) [
  | yes z ↦ rw (lock_door-zero k mask w z) v
  | no driven ↦
      rw (doors-lock_door k mask w driven)
        (air_lock-Interlocked false k (emit (door_state do_lock (lock_mask (w.doors k) mask)) w) v)
]
