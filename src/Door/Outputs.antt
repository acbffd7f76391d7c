-- ===== src/Door/Outputs.antt =====
-- What the calls of door_controller/door_controller.c write to the outputs.
use osdp_roger_acs.Base.{ℕ, ◌≡◌, refl, ap, ◌∙◌, ◌≢◌, inl, inr, arith}
use osdp_roger_acs.Base.{
  List, ◌∷◌, ◌++◌, Option, none, some, Option-cases, Bool-cases, ==_iff, ◌==◌, truth, all_ones,
  if◌then◌else◌, zero-bit_and,
}
use osdp_roger_acs.Reader.{Signal, UserInfo}
use osdp_roger_acs.Door.{
  Door, DoorReader, World, do_lock, do_unlock, door_state, emit, DoorOperation, Side, side_a,
  side_b, door_reader, put_reader,
}
use osdp_roger_acs.Door.Lock.{
  door_signal, signal_door_status, set_air_lock, air_lock_on_partner, lock_door, lock_mask,
  unlock_door, unlock_mask, start_lock_timer,
}
use osdp_roger_acs.Door.Frame.{unlock_door-zero}
use osdp_roger_acs.Door.Auth.{
  UserDb, Checked, check_access, conclude, reset_door_auth, process_side, continue_with,
  store_input, stored,
}
use osdp_roger_acs.Door.Grants.{outputs, outputs-conclude, outputs-check_access}

outputs-door_signal :
    (i : ℕ) (s : Signal) (w : World) → outputs (door_signal i s w).log ≡ outputs w.log
unfolding door_signal outputs
outputs-door_signal i s w = ground arith

outputs-signal_door_status :
    (i : ℕ) (w : World) → outputs (signal_door_status i w).log ≡ outputs w.log
unfolding signal_door_status
outputs-signal_door_status i w =
    ground (arith, outputs-door_signal i Signal.blocked w, outputs-door_signal i Signal.unblocked w)

log-set_air_lock : (p : ℕ) (m : Option ℕ) (w : World) → (set_air_lock p m w).log ≡ w.log
unfolding set_air_lock
log-set_air_lock p none w = refl
log-set_air_lock p (some m) w = refl

outputs-air_lock_on_partner :
    (i mask : ℕ) (w : World) → outputs (air_lock_on_partner i mask w).log ≡ outputs w.log
unfolding air_lock_on_partner
outputs-air_lock_on_partner i mask w = elim (Option-cases (w.doors i).air_lock_partner_local) [
  | inl e ↦ rw (e, air_lock_on_partner)
  | inr (p, e) ↦
      rw (e, air_lock_on_partner)
        (outputs-signal_door_status i _ ∙ ap outputs (log-set_air_lock p _ w))
]

pub outputs-lock_door :
    (i mask : ℕ) (w : World)
    → lock_mask (w.doors i) mask ≢ 0
    → outputs (lock_door i mask w).1.log ≡ (do_lock, lock_mask (w.doors i) mask) ∷ outputs w.log
unfolding lock_door outputs
outputs-lock_door i mask w h = elim (Bool-cases (lock_mask (w.doors i) mask == 0)) [
  | inl e ↦ absurd (h ((==_iff _ 0).0 e))
  | inr e ↦ rw e (
      outputs-door_signal i Signal.door_lock _
      ∙ outputs-air_lock_on_partner i 0 (emit (door_state do_lock (lock_mask (w.doors i) mask)) w))
]

pub outputs-unlock_door :
    (i mask : ℕ) (w : World)
    → unlock_mask (w.doors i) mask ≢ 0
    → outputs (unlock_door i mask w).1.log
      ≡ (do_unlock, unlock_mask (w.doors i) mask) ∷ outputs w.log
unfolding unlock_door start_lock_timer outputs
outputs-unlock_door i mask w h = elim (Bool-cases (unlock_mask (w.doors i) mask == 0)) [
  | inl e ↦ absurd (h ((==_iff _ 0).0 e))
  | inr e ↦ rw e (
      outputs-door_signal i Signal.door_open _
      ∙ ap (◌∷◌ (do_unlock, unlock_mask (w.doors i) mask))
          (outputs-air_lock_on_partner i all_ones w))
]

-- A log of outputs with an unlock of `m` in front, if that drives anything.
abbrev pub unlocking : ℕ → List (DoorOperation × ℕ) → List (DoorOperation × ℕ)
unlocking m l = if m == 0 then l else (do_unlock, m) ∷ l

outputs-unlocking :
    (i mask : ℕ) (w : World)
    → outputs (unlock_door i mask w).1.log
      ≡ unlocking (unlock_mask (w.doors i) mask) (outputs w.log)
outputs-unlocking i mask w = elim (Bool-cases (unlock_mask (w.doors i) mask == 0)) [
  | inl e ↦ let z = (==_iff _ 0).0 e in rw (unlock_door-zero i mask w z, e) refl
  | inr e ↦ rw e (outputs-unlock_door i mask w (λ z. ground arith))
]

-- The mask does not depend on the readers.
unlock_mask-put_reader :
    (i : ℕ) (side : Side) (r : DoorReader) (w : World) (mask : ℕ)
    → unlock_mask ((put_reader i side r w).doors i) mask ≡ unlock_mask (w.doors i) mask
unfolding unlock_mask
unlock_mask-put_reader i side_a r w mask = ground arith
unlock_mask-put_reader i side_b r w mask = ground arith

log-reset_door_auth : (i : ℕ) (side : Side) (w : World) → (reset_door_auth i side w).log ≡ w.log
unfolding reset_door_auth
log-reset_door_auth i side_a w = refl
log-reset_door_auth i side_b w = refl

unlock_mask-zero : (d : Door) → unlock_mask d 0 ≡ 0
unfolding unlock_mask
unlock_mask-zero d = rw (zero-bit_and, zero-bit_and, zero-bit_and) (omega arith)

-- What is driven once the switch on the mode has given a mask.
conclude-outputs :
    (i : ℕ) (side : Side) (handle : ℕ) (c : Checked) (w : World)
    → outputs (conclude i side handle c w).log
      ≡ unlocking (unlock_mask (w.doors i) c.auth_mask) (outputs (c.sent ++ w.log))
unfolding conclude
conclude-outputs i side handle c w = elim (Bool-cases (truth c.auth_mask)) [
  | inl e ↦
      let w' = put_reader i side c.credentials (record w { log = c.sent ++ w.log }) in
      let same = unlock_mask-put_reader i side c.credentials w c.auth_mask in
      rw e (
        ap outputs (log-reset_door_auth i side (unlock_door i c.auth_mask w').1)
        ∙ outputs-unlocking i c.auth_mask w'
        ∙ ap (λ (m : ℕ). unlocking m (outputs (c.sent ++ w.log))) same)
  | inr e ↦
      let z : c.auth_mask ≡ 0 = ground (arith, e) in
      outputs-conclude i side handle c w z ∙ rw (z, unlock_mask-zero) refl
]

-- An input that a reader of the door can store drives what `unlock_door` drives of the mask that the
-- switch on the reader's mode gives, and nothing else, in every mode and with any user database.
pub process_side-outputs :
    (db : UserDb) (i : ℕ) (side : Side) (handle : ℕ) (u : UserInfo) (r : DoorReader) (w : World)
    → store_input (door_reader side (w.doors i)) u ≡ stored r
    → let c = check_access db (w.doors i).door_name handle r in
      outputs (process_side db i side handle u w).log
      ≡ unlocking (unlock_mask (w.doors i) c.auth_mask) (outputs w.log)
unfolding process_side continue_with
process_side-outputs db i side handle u r w e =
    let name = (w.doors i).door_name in
    let c = check_access db name handle r in
    rw e (
      conclude-outputs i side handle c w
      ∙ ap (unlocking (unlock_mask (w.doors i) c.auth_mask))
          (outputs-check_access db name handle r w.log))
