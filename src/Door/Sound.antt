-- ===== src/Door/Sound.antt =====
-- A round of `mainLoop` (door_controller/door_controller.c) keeps the readers' credentials in order.
use osdp_roger_acs.Base.{ℕ, zero, suc, ◌-◌, inl, inr, arith, Option-cases}
use osdp_roger_acs.Base.{if◌then◌else◌, all_ones, List, [], ◌∷◌, Bool, true, false}
use osdp_roger_acs.Reader.{UserInfo}
use osdp_roger_acs.Door.{World, Side, side_a, side_b, put_door, door_reader}
use osdp_roger_acs.Door.Lock.{unlock_door, lock_door, air_lock_on_partner}
use osdp_roger_acs.Door.Inputs.{on_manual_open, on_emergency, on_door_close, on_door_lock}
use osdp_roger_acs.Door.Inputs.{store_input, input_events, check_alarm, check_input, check_from}
use osdp_roger_acs.Door.Inputs.{check_inputs, input_diff}
use osdp_roger_acs.Door.Auth.{UserDb}
use osdp_roger_acs.Door.Loop.{lock_timer_tick, process_all, read_reader, door_round, doors_round}
use osdp_roger_acs.Door.Loop.{main_loop}
use osdp_roger_acs.Door.Frame.{
  SameButLock, air_lock_on_partner-SameButLock, unlock_door-SameButLock,
}
use osdp_roger_acs.Door.Frame.{lock_door-SameButLock}
use osdp_roger_acs.Door.Credentials.{IsSound, IsInput, process_user_info-IsSound}
use osdp_roger_acs.Door.Readers.{AllReaders}
use osdp_roger_acs.Door.Credentials.{two_factor_tick-IsSound}

abbrev Sound : World → Type 0
Sound w = AllReaders IsSound w

-- Readers that are the same are as sound.
same-Sound : (w w' : World) → ((j : ℕ) → SameButLock (w.doors j) (w'.doors j)) → Sound w → Sound w'
same-Sound w w' same v side_a j = rw (same j).same_a (v side_a j)
same-Sound w w' same v side_b j = rw (same j).same_b (v side_b j)

unlock_door-Sound : (i mask : ℕ) (w : World) → Sound w → Sound (unlock_door i mask w).1
unlock_door-Sound i mask w v =
    same-Sound w (unlock_door i mask w).1 (unlock_door-SameButLock i mask w) v

lock_door-Sound : (i mask : ℕ) (w : World) → Sound w → Sound (lock_door i mask w).1
lock_door-Sound i mask w v =
    same-Sound w (lock_door i mask w).1 (λ j. (lock_door-SameButLock i mask w j).0) v

air_lock-Sound : (i mask : ℕ) (w : World) → Sound w → Sound (air_lock_on_partner i mask w)
air_lock-Sound i mask w v =
    same-Sound w (air_lock_on_partner i mask w)
      (λ j. (air_lock_on_partner-SameButLock i mask w j).0) v

if-Sound : (b : Bool) (w₁ w₂ : World) → Sound w₁ → Sound w₂ → Sound (if b then w₁ else w₂)
if-Sound true w₁ w₂ v₁ v₂ = v₁
if-Sound false w₁ w₂ v₁ v₂ = v₂

check_alarm-Sound : (i input : ℕ) (w : World) → Sound w → Sound (check_alarm i input w)
unfolding check_alarm
check_alarm-Sound i input w v side_a j = ground (arith, v side_a j, v side_a i)
check_alarm-Sound i input w v side_b j = ground (arith, v side_b j, v side_b i)

store_input-Sound : (i input : ℕ) (w : World) → Sound w → Sound (store_input i input w)
unfolding store_input
store_input-Sound i input w v side_a j = ground (arith, v side_a j, v side_a i)
store_input-Sound i input w v side_b j = ground (arith, v side_b j, v side_b i)

counted-Sound :
    (i : ℕ) (w : World)
    → Sound w
    → let d = w.doors i in
      Sound (put_door i (record d { door_lock_timer = d.door_lock_timer - 1 }) w)
counted-Sound i w v side_a j = ground (arith, v side_a j, v side_a i)
counted-Sound i w v side_b j = ground (arith, v side_b j, v side_b i)

on_manual_open-Sound :
    (i diff input : ℕ) (w : World) → Sound w → Sound (on_manual_open i diff input w)
unfolding on_manual_open
on_manual_open-Sound i diff input w v =
    if-Sound _ _ _ (if-Sound _ _ _ (unlock_door-Sound i 1 _ v) v) v

on_emergency-Sound : (i diff input : ℕ) (w : World) → Sound w → Sound (on_emergency i diff input w)
unfolding on_emergency
on_emergency-Sound i diff input w v =
    if-Sound _ _ _ (if-Sound _ _ _ (air_lock-Sound i all_ones _ v) v) v

on_door_close-Sound :
    (i diff input : ℕ) (w : World) → Sound w → Sound (on_door_close i diff input w)
unfolding on_door_close
on_door_close-Sound i diff input w v =
    if-Sound _ _ _ (if-Sound _ _ _ (air_lock-Sound i 0 _ v) (air_lock-Sound i all_ones _ v)) v

on_door_lock-Sound : (i diff input : ℕ) (w : World) → Sound w → Sound (on_door_lock i diff input w)
unfolding on_door_lock
on_door_lock-Sound i diff input w v = if-Sound _ _ _ (if-Sound _ _ _ v v) v

input_events-Sound : (i input : ℕ) (w : World) → Sound w → Sound (input_events i input w)
unfolding input_events
input_events-Sound i input w v =
    let diff = input_diff (w.doors i) input in
    let w₁ = on_manual_open i diff input w in
    let w₂ = on_emergency i diff input w₁ in
    let w₃ = on_door_close i diff input w₂ in
    let w₄ = on_door_lock i diff input w₃ in
    let v₁ = on_manual_open-Sound i diff input w v in
    let v₂ = on_emergency-Sound i diff input w₁ v₁ in
    let v₃ = on_door_close-Sound i diff input w₂ v₂ in
    let v₄ = on_door_lock-Sound i diff input w₃ v₃ in
    if-Sound _ _ _ (store_input-Sound i input w₄ v₄) v

check_from-Sound :
    (input_val : ℕ → ℕ) (n i : ℕ) (w : World) → Sound w → Sound (check_from input_val n i w)
unfolding check_from check_input
check_from-Sound input_val zero i w v = v
check_from-Sound input_val (suc n) i w v =
    check_from-Sound input_val n (suc i) _
      (check_alarm-Sound i (input_val i) _ (input_events-Sound i (input_val i) w v))

-- Inputs that are at least as long as they say.
abbrev pub AreInputs : List UserInfo → Type 0
AreInputs [] = Unit
AreInputs (u ∷ us) = IsInput u × AreInputs us

process_all-Sound :
    (db : UserDb) (handle : ℕ) (us : List UserInfo) (i : ℕ) (w : World)
    → AreInputs us
    → Sound w
    → Sound (process_all db handle us i w)
unfolding process_all
process_all-Sound db handle [] i w all v = v
process_all-Sound db handle (u ∷ us) i w all v =
    process_all-Sound db handle us i _ all.1 (process_user_info-IsSound db handle u i w all.0 v)

lock_timer_tick-Sound : (i : ℕ) (w : World) → Sound w → Sound (lock_timer_tick i w)
unfolding lock_timer_tick
lock_timer_tick-Sound i w v =
    let counted = counted-Sound i w v in
    if-Sound _ _ _ (if-Sound _ _ _ (lock_door-Sound i _ _ counted) counted) v

module _ (db : UserDb) (inputs : ℕ → List UserInfo)
    (all : (handle : ℕ) → AreInputs (inputs handle)) where
  read_reader-Sound :
      (i : ℕ) (side : Side) (w : World) → Sound w → Sound (read_reader db inputs i side w)
  unfolding read_reader
  read_reader-Sound i side w v = elim (Option-cases (door_reader side (w.doors i)).reader) [
    | inl e ↦ rw (e, read_reader) v
    | inr (handle, e) ↦
        rw (e, read_reader) (process_all-Sound db handle (inputs handle) i w (all handle) v)
  ]

  door_round-Sound : (i : ℕ) (w : World) → Sound w → Sound (door_round db inputs i w)
  unfolding door_round
  door_round-Sound i w v =
      let counted = lock_timer_tick-Sound i w v in
      let ticked_a = two_factor_tick-IsSound i _ side_a counted in
      let ticked = two_factor_tick-IsSound i _ side_b ticked_a in
      read_reader-Sound i side_b _ (read_reader-Sound i side_a _ ticked)

  doors_round-Sound : (n i : ℕ) (w : World) → Sound w → Sound (doors_round db inputs n i w)
  unfolding doors_round
  doors_round-Sound zero i w v = v
  doors_round-Sound (suc n) i w v = doors_round-Sound n (suc i) _ (door_round-Sound i w v)

-- A round of the main loop keeps the credentials of all readers within their buffers, and a card or
-- a PIN only where the two-factor timer runs, for all inputs that are at least as long as they say.
pub main_loop-IsSound :
    (db : UserDb) (inputs : ℕ → List UserInfo) (lines : List ℕ) (stack : ℕ → ℕ) (w : World)
    → ((handle : ℕ) → AreInputs (inputs handle))
    → AllReaders IsSound w
    → AllReaders IsSound (main_loop db inputs lines stack w)
unfolding main_loop check_inputs
main_loop-IsSound db inputs lines stack w all v =
    check_from-Sound _ _ 0 _ (doors_round-Sound db inputs all w.doors_count 0 w v)
