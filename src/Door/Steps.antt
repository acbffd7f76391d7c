-- ===== src/Door/Steps.antt =====
-- What the operations of door_controller/door_controller.c keep, if unlocking and the airlock keep
-- it and it is only about the lock timer, the airlock mask, the airlock partner and the subdoors of
-- each door: all that process_user_info, the two-factor timers and the inputs do beside these calls
-- leaves these fields alone.
use osdp_roger_acs.Base.{ℕ, ◌≡◌, inl, inr, arith}
use osdp_roger_acs.Base.{Option-cases, Bool-cases, all_ones}
use osdp_roger_acs.Base.{if◌then◌else◌, List, [], ◌∷◌, ◌++◌, Bool, true, false}
use osdp_roger_acs.Reader.{UserInfo}
use osdp_roger_acs.Door.{Door, World, Side, side_a, side_b, DoorReader, put_reader, door_reader}
use osdp_roger_acs.Door.Lock.{unlock_door, air_lock_on_partner}
use osdp_roger_acs.Door.Inputs.{on_manual_open, on_emergency, on_door_close, on_door_lock}
use osdp_roger_acs.Door.Inputs.{store_input, input_events, check_alarm, check_input, input_diff}
use osdp_roger_acs.Door.Auth.{UserDb, Stored, refused_data, refused_usage, stored, reset_door_auth}
use osdp_roger_acs.Door.Auth.{two_factor_tick, conclude, Checked, check_access, continue_with}
use osdp_roger_acs.Door.Auth
use osdp_roger_acs.Door.Auth.{is_reader, process_side, process_user_info}
use osdp_roger_acs.Door.Loop.{lock_timer_tick, process_all, read_reader, door_round}

-- Two doors that agree on all that the airlock is about.
pub record SameLock (d e : Door) : Type 0 where
  pub same_partner : e.air_lock_partner_local ≡ d.air_lock_partner_local
  pub same_full : e.mask_full ≡ d.mask_full
  pub same_air : e.air_lock_mask ≡ d.air_lock_mask
  pub same_timer : e.door_lock_timer ≡ d.door_lock_timer

pub if-keeps :
    (P : (ℕ → Door) → Type 0) (b : Bool) (w₁ w₂ : World)
    → P w₁.doors
    → P w₂.doors
    → P (if b then w₁ else w₂).doors
if-keeps P true w₁ w₂ v₁ v₂ = v₁
if-keeps P false w₁ w₂ v₁ v₂ = v₂

-- `P` is what is kept, and `k` is the door whose operations keep it.
module _ (P : (ℕ → Door) → Type 0)
    (same : (ds es : ℕ → Door) → ((j : ℕ) → SameLock (ds j) (es j)) → P ds → P es) (k : ℕ)
    (unlock : (mask : ℕ) (w : World) → P w.doors → P (unlock_door k mask w).1.doors) where
  reset_door_auth-keeps : (side : Side) (w : World) → P w.doors → P (reset_door_auth k side w).doors
  unfolding reset_door_auth
  reset_door_auth-keeps side_a w v = same w.doors _ (λ j. ground arith) v
  reset_door_auth-keeps side_b w v = same w.doors _ (λ j. ground arith) v

  put_reader-keeps :
      (side : Side) (r : DoorReader) (w : World) → P w.doors → P (put_reader k side r w).doors
  put_reader-keeps side_a r w v = same w.doors _ (λ j. ground arith) v
  put_reader-keeps side_b r w v = same w.doors _ (λ j. ground arith) v

  two_factor_tick-keeps : (side : Side) (w : World) → P w.doors → P (two_factor_tick k side w).doors
  unfolding two_factor_tick
  two_factor_tick-keeps side_a w v = same w.doors _ (λ j. ground arith) v
  two_factor_tick-keeps side_b w v = same w.doors _ (λ j. ground arith) v

  check_alarm-keeps : (input : ℕ) (w : World) → P w.doors → P (check_alarm k input w).doors
  unfolding check_alarm
  check_alarm-keeps input w v = same w.doors _ (λ j. ground arith) v

  store_input-keeps : (input : ℕ) (w : World) → P w.doors → P (store_input k input w).doors
  unfolding store_input
  store_input-keeps input w v = same w.doors _ (λ j. ground arith) v

  conclude-keeps :
      (side : Side) (handle : ℕ) (c : Checked) (w : World)
      → P w.doors
      → P (conclude k side handle c w).doors
  unfolding conclude
  conclude-keeps side handle c w v =
      let logged = record w { log = c.sent ++ w.log } in
      let w' = put_reader k side c.credentials logged in
      let v' = put_reader-keeps side c.credentials logged v in
      let opened = unlock c.auth_mask w' v' in
      if-keeps P _ _ _ (reset_door_auth-keeps side (unlock_door k c.auth_mask w').1 opened)
        (if-keeps P _ _ _ (reset_door_auth-keeps side w' v') v')

  continue_with-keeps :
      (db : UserDb) (side : Side) (handle : ℕ) (s : Stored) (w : World)
      → P w.doors
      → P (continue_with db k side handle s w).doors
  unfolding continue_with
  continue_with-keeps db side handle refused_data w v = reset_door_auth-keeps side w v
  continue_with-keeps db side handle refused_usage w v = reset_door_auth-keeps side w v
  continue_with-keeps db side handle (stored r) w v =
      conclude-keeps side handle (check_access db (w.doors k).door_name handle r) w v

  process_side-keeps :
      (db : UserDb) (side : Side) (handle : ℕ) (u : UserInfo) (w : World)
      → P w.doors
      → P (process_side db k side handle u w).doors
  unfolding process_side
  process_side-keeps db side handle u w v =
      continue_with-keeps db side handle (Auth.store_input (door_reader side (w.doors k)) u) w v

  process_user_info-keeps :
      (db : UserDb) (handle : ℕ) (u : UserInfo) (w : World)
      → P w.doors
      → P (process_user_info db handle u k w).doors
  unfolding process_user_info
  process_user_info-keeps db handle u w v =
      let at_a = process_side-keeps db side_a handle u w v in
      let at_b = process_side-keeps db side_b handle u w v in
      elim (Bool-cases (is_reader (w.doors k).reader_a.reader handle)) [
        | inl e ↦ rw (e, process_user_info) at_a
        | inr e ↦ elim (Bool-cases (is_reader (w.doors k).reader_b.reader handle)) [
          | inl f ↦ rw (e, process_user_info) (rw (f, process_user_info) at_b)
          | inr f ↦ rw (e, process_user_info) (rw (f, process_user_info) v)
        ]
      ]

  process_all-keeps :
      (db : UserDb) (handle : ℕ) (us : List UserInfo) (w : World)
      → P w.doors
      → P (process_all db handle us k w).doors
  unfolding process_all
  process_all-keeps db handle [] w v = v
  process_all-keeps db handle (u ∷ us) w v =
      process_all-keeps db handle us _ (process_user_info-keeps db handle u w v)

  read_reader-keeps :
      (db : UserDb) (inputs : ℕ → List UserInfo) (side : Side) (w : World)
      → P w.doors
      → P (read_reader db inputs k side w).doors
  unfolding read_reader
  read_reader-keeps db inputs side w v = elim (Option-cases (door_reader side (w.doors k)).reader) [
    | inl e ↦ rw (e, read_reader) v
    | inr (handle, e) ↦ rw (e, read_reader) (process_all-keeps db handle (inputs handle) w v)
  ]

  -- A round of the door keeps what its lock timer keeps.
  pub door_round-keeps :
      (db : UserDb) (inputs : ℕ → List UserInfo) (w : World)
      → P (lock_timer_tick k w).doors
      → P (door_round db inputs k w).doors
  unfolding door_round
  door_round-keeps db inputs w v = read_reader-keeps db inputs side_b _ (
      read_reader-keeps db inputs side_a _
        (two_factor_tick-keeps side_b _ (two_factor_tick-keeps side_a _ v)))

  on_manual_open-keeps :
      (diff input : ℕ) (w : World) → P w.doors → P (on_manual_open k diff input w).doors
  unfolding on_manual_open
  on_manual_open-keeps diff input w v = if-keeps P _ _ _ (if-keeps P _ _ _ (unlock 1 _ v) v) v

  module _
      (air_lock : (b : Bool) (w : World)
        → P w.doors
        → P (air_lock_on_partner k (if b then all_ones else 0) w).doors) where
    on_emergency-keeps :
        (diff input : ℕ) (w : World) → P w.doors → P (on_emergency k diff input w).doors
    unfolding on_emergency
    on_emergency-keeps diff input w v = if-keeps P _ _ _ (if-keeps P _ _ _ (air_lock true _ v) v) v

    on_door_close-keeps :
        (diff input : ℕ) (w : World) → P w.doors → P (on_door_close k diff input w).doors
    unfolding on_door_close
    on_door_close-keeps diff input w v =
        if-keeps P _ _ _ (if-keeps P _ _ _ (air_lock false _ v) (air_lock true _ v)) v

    on_door_lock-keeps :
        (diff input : ℕ) (w : World) → P w.doors → P (on_door_lock k diff input w).doors
    unfolding on_door_lock
    on_door_lock-keeps diff input w v = if-keeps P _ _ _ (if-keeps P _ _ _ v v) v

    input_events-keeps : (input : ℕ) (w : World) → P w.doors → P (input_events k input w).doors
    unfolding input_events
    input_events-keeps input w v =
        let diff = input_diff (w.doors k) input in
        let w₁ = on_emergency k diff input (on_manual_open k diff input w) in
        let w₂ = on_door_lock k diff input (on_door_close k diff input w₁) in
        if-keeps P _ _ _
          (store_input-keeps input w₂ (
            on_door_lock-keeps diff input _ (
              on_door_close-keeps diff input _
                (on_emergency-keeps diff input _ (on_manual_open-keeps diff input w v)))))
          v

    pub check_input-keeps : (input : ℕ) (w : World) → P w.doors → P (check_input k input w).doors
    unfolding check_input
    check_input-keeps input w v = check_alarm-keeps input _ (input_events-keeps input w v)
