-- ===== src/Door/Airlock.antt =====
-- The airlock of `airLockOnPartner` (door_controller/door_controller.c): two doors that are each
-- other's partner, of which `unlock_door` opens one at a time.
use osdp_roger_acs.Base.{ℕ, ◌<◌, ◌^◌, ◌≡◌, refl, sym, ap, ◌∙◌, ◌≢◌, inl, inr, arith}
use osdp_roger_acs.Base.{◌&&◌, Option, none, some, Option-cases, ◌==◌}
use osdp_roger_acs.Base.{if◌then◌else◌, all_ones, bit_and, bit_and-ones, bit}
use native.Mathlib.Nat.{le_of_eq}
use osdp_roger_acs.Door.{Door, World}
use osdp_roger_acs.Door.Lock.{set_air_lock, partner_mask, air_lock_on_partner, start_lock_timer}
use osdp_roger_acs.Door.Lock.{unlock_door, unlock_mask, di_is_door_close}
use osdp_roger_acs.Door.Masks.{unlock_mask-blocked}
use osdp_roger_acs.Door.Frame.{doors-signal_door_status, doors-unlock_door, unlock_door-zero}

abbrev with_air_lock : ℕ → Door → Door
with_air_lock m d = record d { air_lock_mask = m }

doors-set_air_lock_ne :
    (q j : ℕ) (m : Option ℕ) (w : World) → j ≢ q → (set_air_lock q m w).doors j ≡ w.doors j
unfolding set_air_lock
doors-set_air_lock_ne q j none w h = refl
doors-set_air_lock_ne q j (some m) w h = ground arith

pub doors-air_lock_ones :
    (i q : ℕ) (w : World)
    → (w.doors i).air_lock_partner_local ≡ some q
    → (w.doors q).mask_full < 2 ^ 32
    → (j : ℕ)
    → (air_lock_on_partner i all_ones w).doors j
      ≡ (if j == q then with_air_lock (w.doors q).mask_full (w.doors q) else w.doors j)
unfolding air_lock_on_partner partner_mask set_air_lock
doors-air_lock_ones i q w e h j =
    rw (e, air_lock_on_partner) (rw doors-signal_door_status (rw (bit_and-ones 32 _ h)))

pub doors-air_lock_zero :
    (i q : ℕ) (w : World)
    → (w.doors i).air_lock_partner_local ≡ some q
    → (j : ℕ)
    → (air_lock_on_partner i 0 w).doors j ≡ (
        if (w.doors i).door_lock_timer == 0
          && bit_and (w.doors i).last_input di_is_door_close == di_is_door_close
        then (if j == q then with_air_lock 0 (w.doors q) else w.doors j)
        else w.doors j)
unfolding air_lock_on_partner partner_mask set_air_lock
doors-air_lock_zero i q w e j =
    rw (e, air_lock_on_partner) (rw doors-signal_door_status (ground arith))

pub doors-air_lock_ne :
    (k mask j : ℕ) (w : World)
    → (w.doors k).air_lock_partner_local ≢ some j
    → (air_lock_on_partner k mask w).doors j ≡ w.doors j
unfolding air_lock_on_partner
doors-air_lock_ne k mask j w h = elim (Option-cases (w.doors k).air_lock_partner_local) [
  | inl e ↦ rw (e, air_lock_on_partner)
  | inr (q, e) ↦
      rw (e, air_lock_on_partner)
        (rw doors-signal_door_status
          (doors-set_air_lock_ne q j _ w (λ same. h (e ∙ ap some (sym same)))))
]

-- A door whose airlock mask covers all its subdoors.
abbrev pub IsHeld : Door → Type 0
IsHeld d = d.air_lock_mask ≡ d.mask_full

pub unlock_mask-IsHeld :
    (d : Door) (mask : ℕ) → d.mask_full < 2 ^ 32 → IsHeld d → unlock_mask d mask ≡ 0
unlock_mask-IsHeld d mask fits held =
    unlock_mask-blocked d mask fits (λ k _. le_of_eq (ap (bit k) (sym held)))

pub unlock_door-holds :
    (i p mask : ℕ) (w : World)
    → (w.doors i).air_lock_partner_local ≡ some p
    → (w.doors p).mask_full < 2 ^ 32
    → unlock_mask (w.doors i) mask ≢ 0
    → IsHeld ((unlock_door i mask w).1.doors p)
      × (((unlock_door i mask w).1.doors p).mask_full ≡ (w.doors p).mask_full)
unfolding start_lock_timer
unlock_door-holds i p mask w e fits opened =
    rw (doors-unlock_door i mask w opened)
      (ground (arith, doors-air_lock_ones i p w e fits p, doors-air_lock_ones i p w e fits i))

-- Once an unlock of a door has driven an output, its airlock partner cannot be unlocked: the
-- partner's unlock drives nothing and changes nothing. The partner's mask is a word of 32 bits.
pub interlock :
    (i p mask mask' : ℕ) (w : World)
    → (w.doors i).air_lock_partner_local ≡ some p
    → (w.doors p).mask_full < 2 ^ 32
    → unlock_mask (w.doors i) mask ≢ 0
    → unlock_door p mask' (unlock_door i mask w).1 ≡ (0, (unlock_door i mask w).1)
interlock i p mask mask' w e fits opened =
    let (held, same) = unlock_door-holds i p mask w e fits opened in
    unlock_door-zero p mask' _ (unlock_mask-IsHeld _ mask' (rw same fits) held)
