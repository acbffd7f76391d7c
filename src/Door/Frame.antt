-- ===== src/Door/Frame.antt =====
-- What the operations of Door/Lock leave alone: the doors' fields but for the lock timer of the
-- door itself and the airlock mask of its partner.
use osdp_roger_acs.Base.{ℕ, ◌≡◌, refl, ◌∙◌, ◌≢◌, arith, ◌==◌}
use osdp_roger_acs.Base.{Option, none, some, Option-cases, Bool-cases, ==_iff, inl, inr, all_ones}
use osdp_roger_acs.Reader.{Signal, blocked, unblocked, door_open}
use osdp_roger_acs.Reader
use osdp_roger_acs.Door.{Door, World, emit, door_state, do_lock}
use osdp_roger_acs.Door.Lock.{set_air_lock, door_signal, signal_door_status, air_lock_on_partner}
use osdp_roger_acs.Door.Lock.{start_lock_timer, unlock_door, lock_door, unlock_mask, lock_mask}

pub doors-door_signal : (i : ℕ) (s : Signal) (w : World) → (door_signal i s w).doors ≡ w.doors
unfolding door_signal
doors-door_signal i s w = ground arith

pub doors-signal_door_status : (i : ℕ) (w : World) → (signal_door_status i w).doors ≡ w.doors
unfolding signal_door_status
doors-signal_door_status i w =
    ground (arith, doors-door_signal i blocked w, doors-door_signal i unblocked w)

-- Two doors that differ at most in the airlock mask and the lock timer.
pub record SameButLock (d e : Door) : Type 0 where
  pub same_name : e.door_name ≡ d.door_name
  pub same_a : e.reader_a ≡ d.reader_a
  pub same_b : e.reader_b ≡ d.reader_b
  pub same_input : e.last_input ≡ d.last_input
  pub same_alarm : e.alarm_timers ≡ d.alarm_timers
  pub same_offset : e.mask_offset ≡ d.mask_offset
  pub same_full : e.mask_full ≡ d.mask_full
  pub same_disable : e.adm_disable_mask ≡ d.adm_disable_mask
  pub same_partner : e.air_lock_partner_local ≡ d.air_lock_partner_local

set_air_lock-SameButLock :
    (p : ℕ) (m : Option ℕ) (w : World) (j : ℕ)
    → SameButLock (w.doors j) ((set_air_lock p m w).doors j)
      × (((set_air_lock p m w).doors j).door_lock_timer ≡ (w.doors j).door_lock_timer)
unfolding set_air_lock
set_air_lock-SameButLock p none w j = ground arith
set_air_lock-SameButLock p (some m) w j = ground arith

pub air_lock_on_partner-SameButLock :
    (i mask : ℕ) (w : World) (j : ℕ)
    → SameButLock (w.doors j) ((air_lock_on_partner i mask w).doors j)
      × (((air_lock_on_partner i mask w).doors j).door_lock_timer ≡ (w.doors j).door_lock_timer)
unfolding air_lock_on_partner
air_lock_on_partner-SameButLock i mask w j =
    elim (Option-cases (w.doors i).air_lock_partner_local) [
      | inl e ↦ rw (e, air_lock_on_partner) (ground arith)
      | inr (p, e) ↦
          rw (e, air_lock_on_partner)
            (rw doors-signal_door_status (set_air_lock-SameButLock p _ w j))
    ]

doors_count-door_signal :
    (i : ℕ) (s : Signal) (w : World) → (door_signal i s w).doors_count ≡ w.doors_count
unfolding door_signal
doors_count-door_signal i s w = ground arith

pub doors_count-signal_door_status :
    (i : ℕ) (w : World) → (signal_door_status i w).doors_count ≡ w.doors_count
unfolding signal_door_status
doors_count-signal_door_status i w =
    ground (arith, doors_count-door_signal i blocked w, doors_count-door_signal i unblocked w)

doors_count-set_air_lock :
    (p : ℕ) (m : Option ℕ) (w : World) → (set_air_lock p m w).doors_count ≡ w.doors_count
unfolding set_air_lock
doors_count-set_air_lock p none w = refl
doors_count-set_air_lock p (some m) w = refl

pub doors_count-air_lock_on_partner :
    (i mask : ℕ) (w : World) → (air_lock_on_partner i mask w).doors_count ≡ w.doors_count
unfolding air_lock_on_partner
doors_count-air_lock_on_partner i mask w = elim (Option-cases (w.doors i).air_lock_partner_local) [
  | inl e ↦ rw (e, air_lock_on_partner)
  | inr (p, e) ↦
      rw (e, air_lock_on_partner)
        (doors_count-signal_door_status i _ ∙ doors_count-set_air_lock p _ w)
]

-- The doors after an unlock that drives an output.
pub doors-unlock_door :
    (i mask : ℕ) (w : World)
    → unlock_mask (w.doors i) mask ≢ 0
    → (unlock_door i mask w).1.doors ≡ (start_lock_timer i (air_lock_on_partner i all_ones w)).doors
unfolding unlock_door start_lock_timer
doors-unlock_door i mask w h = elim (Bool-cases (unlock_mask (w.doors i) mask == 0)) [
  | inl e ↦ absurd (h ((==_iff _ 0).0 e))
  | inr e ↦ rw e (doors-door_signal i door_open _)
]

pub unlock_door-zero :
    (i mask : ℕ) (w : World) → unlock_mask (w.doors i) mask ≡ 0 → unlock_door i mask w ≡ (0, w)
unfolding unlock_door
unlock_door-zero i mask w h = rw h

pub doors_count-unlock_door :
    (i mask : ℕ) (w : World) → (unlock_door i mask w).1.doors_count ≡ w.doors_count
unfolding unlock_door start_lock_timer
doors_count-unlock_door i mask w = elim (Bool-cases (unlock_mask (w.doors i) mask == 0)) [
  | inl e ↦ rw e
  | inr e ↦
      rw e (doors_count-door_signal i door_open _ ∙ doors_count-air_lock_on_partner i all_ones w)
]

-- An unlock starts the door's own lock timer or leaves it, and leaves every other.
pub unlock_door-SameButLock :
    (i mask : ℕ) (w : World) (j : ℕ) → SameButLock (w.doors j) ((unlock_door i mask w).1.doors j)
unfolding start_lock_timer
unlock_door-SameButLock i mask w j = elim (Bool-cases (unlock_mask (w.doors i) mask == 0)) [
  | inl e ↦ rw (unlock_door-zero i mask w ((==_iff _ 0).0 e)) (ground arith)
  | inr e ↦
      rw (doors-unlock_door i mask w (λ z. ground arith))
        (ground (arith, air_lock_on_partner-SameButLock i all_ones w j))
]

-- The doors after `lock_door` are those after its call of `airLockOnPartner`.
pub doors-lock_door :
    (i mask : ℕ) (w : World)
    → lock_mask (w.doors i) mask ≢ 0
    → (lock_door i mask w).1.doors
      ≡ (air_lock_on_partner i 0 (emit (door_state do_lock (lock_mask (w.doors i) mask)) w)).doors
unfolding lock_door
doors-lock_door i mask w h = elim (Bool-cases (lock_mask (w.doors i) mask == 0)) [
  | inl e ↦ absurd (h ((==_iff _ 0).0 e))
  | inr e ↦ rw e (doors-door_signal i Reader.Signal.door_lock _)
]

pub lock_door-zero :
    (i mask : ℕ) (w : World) → lock_mask (w.doors i) mask ≡ 0 → lock_door i mask w ≡ (0, w)
unfolding lock_door
lock_door-zero i mask w h = rw h

-- A lock leaves the lock timers of all doors, its own too.
pub lock_door-SameButLock :
    (i mask : ℕ) (w : World) (j : ℕ)
    → SameButLock (w.doors j) ((lock_door i mask w).1.doors j)
      × (((lock_door i mask w).1.doors j).door_lock_timer ≡ (w.doors j).door_lock_timer)
lock_door-SameButLock i mask w j = elim (Bool-cases (lock_mask (w.doors i) mask == 0)) [
  | inl e ↦ rw (lock_door-zero i mask w ((==_iff _ 0).0 e)) (ground arith)
  | inr e ↦
      rw (doors-lock_door i mask w (λ z. ground arith)) (air_lock_on_partner-SameButLock i 0 _ j)
]

pub doors_count-lock_door :
    (i mask : ℕ) (w : World) → (lock_door i mask w).1.doors_count ≡ w.doors_count
unfolding lock_door
doors_count-lock_door i mask w = elim (Bool-cases (lock_mask (w.doors i) mask == 0)) [
  | inl e ↦ rw e
  | inr e ↦
      rw e (
        doors_count-door_signal i Reader.Signal.door_lock _ ∙ doors_count-air_lock_on_partner i 0 _)
]
