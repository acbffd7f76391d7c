-- ===== src/Door/Release.antt =====
-- When the airlock is not released: `airLockOnPartner(door, 0)` from `check_inputs`
-- (door_controller/door_controller.c).
use osdp_roger_acs.Base.{ℕ, ◌≡◌, ◌∙◌, ◌≢◌, arith, bit_and, truth}
use osdp_roger_acs.Base.{Option-cases, inl, inr, true, Bool-cases}
use osdp_roger_acs.Door.{World}
use osdp_roger_acs.Door.Lock.{air_lock_on_partner}
use osdp_roger_acs.Door.Inputs.{
  input_events, input_diff, on_manual_open, on_emergency, on_door_close,
}
use osdp_roger_acs.Door.Inputs.{on_door_lock, store_input, emit_event}
use osdp_roger_acs.Door.Airlock.{doors-air_lock_zero}

-- `airLockOnPartner(door, 0)` on a door whose last input says that it is open releases nothing.
air_lock_zero-open :
    (i j : ℕ) (w : World)
    → bit_and (w.doors i).last_input 0x04 ≡ 0
    → ((air_lock_on_partner i 0 w).doors j).air_lock_mask ≡ (w.doors j).air_lock_mask
unfolding air_lock_on_partner
air_lock_zero-open i j w open_ = elim (Option-cases (w.doors i).air_lock_partner_local) [
  | inl e ↦ rw (e, air_lock_on_partner)
  | inr (p, e) ↦ rw (doors-air_lock_zero i p w e j) (ground arith)
]

on_manual_open-unchanged :
    (i diff input : ℕ) (w : World) → bit_and diff 0x01 ≡ 0 → on_manual_open i diff input w ≡ w
unfolding on_manual_open
on_manual_open-unchanged i diff input w h = rw h

on_emergency-unchanged :
    (i diff input : ℕ) (w : World) → bit_and diff 0x02 ≡ 0 → on_emergency i diff input w ≡ w
unfolding on_emergency
on_emergency-unchanged i diff input w h = rw h

on_door_close-keeps :
    (i diff input : ℕ) (w : World) (j : ℕ)
    → bit_and (w.doors i).last_input 0x04 ≡ 0
    → bit_and input 0x04 ≢ 0
    → ((on_door_close i diff input w).doors j).air_lock_mask ≡ (w.doors j).air_lock_mask
unfolding on_door_close emit_event
on_door_close-keeps i diff input w j was_open is_closed =
    let closed : truth (bit_and input 0x04) ≡ true = ground arith in
    elim (Bool-cases (truth (bit_and diff 0x04))) [
      | inl e ↦ rw e (rw closed (air_lock_zero-open i j _ was_open))
      | inr e ↦ rw e
    ]

doors-on_door_lock : (i diff input : ℕ) (w : World) → (on_door_lock i diff input w).doors ≡ w.doors
unfolding on_door_lock emit_event
doors-on_door_lock i diff input w = ground arith

store_input-keeps :
    (i input j : ℕ) (w : World)
    → ((store_input i input w).doors j).air_lock_mask ≡ (w.doors j).air_lock_mask
unfolding store_input
store_input-keeps i input j w = ground arith

-- The closing of the door does not release the partner: `check_inputs` asks for the release before
-- it stores the new input, so that the door still counts as open. When neither the manual nor the
-- emergency input changes and the door goes from open to closed, no airlock mask changes, whatever
-- the lock timer is.
pub closing_keeps_airlock :
    (i input j : ℕ) (w : World)
    → bit_and (w.doors i).last_input 0x04 ≡ 0
    → bit_and input 0x04 ≢ 0
    → bit_and (input_diff (w.doors i) input) 0x01 ≡ 0
    → bit_and (input_diff (w.doors i) input) 0x02 ≡ 0
    → ((input_events i input w).doors j).air_lock_mask ≡ (w.doors j).air_lock_mask
unfolding input_events
closing_keeps_airlock i input j w was_open is_closed manual emergency =
    let diff = input_diff (w.doors i) input in
    let w₂ = on_door_lock i diff input (on_door_close i diff input w) in
    let locks : (w₂.doors j).air_lock_mask ≡ (w.doors j).air_lock_mask =
      rw (doors-on_door_lock i diff input (on_door_close i diff input w))
        (on_door_close-keeps i diff input w j was_open is_closed) in
    elim (Bool-cases (truth diff)) [
      | inl e ↦
          rw (e, input_events)
            (rw
              (
                on_manual_open-unchanged i diff input w manual,
                on_emergency-unchanged i diff input w emergency,
              )
              (store_input-keeps i input j w₂ ∙ locks))
      | inr e ↦ rw (e, input_events)
    ]
