-- ===== src/Door/Inputs.antt =====
-- `check_inputs` of door_controller/door_controller.c: events of the inputs, and the alarm timer.
use osdp_roger_acs.Base.{ℕ, zero, suc, ◌-◌, ◌^◌, Bool, List, ◌==◌, truth, if◌then◌else◌}
use osdp_roger_acs.Base.{bit_and, bit_or, bit_xor, all_ones, ◌<<<◌}
use osdp_roger_acs.Door.{Door, Event, event, World, emit, put_door, manual_open}
use osdp_roger_acs.Door.{door_emergency_active, door_emergency_inactive, door_open_alarm}
use osdp_roger_acs.Door.{door_is_open, door_is_close, door_is_unlock, door_is_lock}
use osdp_roger_acs.Door.Lock.{di_is_door_close, air_lock_on_partner, unlock_door}
use osdp_roger_acs.Gpio.{get_input_state}

abbrev pub di_manual_open : ℕ
di_manual_open = 0x01

abbrev pub di_is_emergency_open : ℕ
di_is_emergency_open = 0x02

abbrev pub di_is_door_lock : ℕ
di_is_door_lock = 0x08

abbrev pub di_state_is_diff : ℕ
di_state_is_diff = 0x80

abbrev pub alarm_resend_timer : ℕ
alarm_resend_timer = 60

abbrev has : ℕ → ℕ → Bool
has input flag = truth (bit_and input flag)

unfoldable pub input_diff : Door → ℕ → ℕ
input_diff d input =
    if has d.last_input di_state_is_diff then d.last_input else bit_xor input d.last_input

unfoldable pub emit_event : Event → World → World
emit_event e w = emit (event e) w

-- The four tests under `if (diff)`, each with what the input is now.
unfoldable pub on_manual_open : ℕ → ℕ → ℕ → World → World
unfolding emit_event
on_manual_open i diff input w =
    if has diff di_manual_open
    then (if has input di_manual_open
        then (unlock_door i 1 (emit_event (manual_open (w.doors i).door_name) w)).1
        else w)
    else w

unfoldable pub on_emergency : ℕ → ℕ → ℕ → World → World
unfolding emit_event
on_emergency i diff input w =
    let name = (w.doors i).door_name in
    if has diff di_is_emergency_open
    then (if has input di_is_emergency_open
        then air_lock_on_partner i all_ones (emit_event (door_emergency_active name) w)
        else emit_event (door_emergency_inactive name) w)
    else w

unfoldable pub on_door_close : ℕ → ℕ → ℕ → World → World
unfolding emit_event
on_door_close i diff input w =
    let name = (w.doors i).door_name in
    if has diff di_is_door_close
    then (if has input di_is_door_close
        then air_lock_on_partner i 0 (emit_event (door_is_close name) w)
        else air_lock_on_partner i all_ones (emit_event (door_is_open name) w))
    else w

unfoldable pub on_door_lock : ℕ → ℕ → ℕ → World → World
unfolding emit_event
on_door_lock i diff input w =
    let name = (w.doors i).door_name in
    if has diff di_is_door_lock
    then (if has input di_is_door_lock
        then emit_event (door_is_lock name) w
        else emit_event (door_is_unlock name) w)
    else w

unfoldable pub store_input : ℕ → ℕ → World → World
store_input i input w = put_door i (record (w.doors i) { last_input = input }) w

unfoldable pub input_events : ℕ → ℕ → World → World
unfolding on_manual_open on_emergency on_door_close on_door_lock store_input
input_events i input w =
    let diff = input_diff (w.doors i) input in
    let w₁ = on_emergency i diff input (on_manual_open i diff input w) in
    let w₂ = on_door_lock i diff input (on_door_close i diff input w₁) in
    if truth diff then store_input i input w₂ else w

-- What is wrong with the door: an emergency opening, a door that is not closed or not locked.
unfoldable pub alarm_mask : ℕ → ℕ
alarm_mask input = bit_xor (bit_and (bit_or input (1 <<< 3)) 0x0e) 0x0c

unfoldable pub set_alarm_timers : ℕ → ℕ → World → World
set_alarm_timers i n w = put_door i (record (w.doors i) { alarm_timers = n }) w

unfoldable pub check_alarm : ℕ → ℕ → World → World
unfolding set_alarm_timers emit_event
check_alarm i input w =
    let d = w.doors i in
    let alarm = alarm_mask input in
    if truth alarm
    then (if d.alarm_timers == 0
        then set_alarm_timers i alarm_resend_timer w
        else if d.alarm_timers - 1 == 0
        then set_alarm_timers i alarm_resend_timer
            (emit_event (door_open_alarm d.door_name alarm) w)
        else set_alarm_timers i (d.alarm_timers - 1) w)
    else set_alarm_timers i 0 w

-- The body of the loop, for one door and its input.
unfoldable pub check_input : ℕ → ℕ → World → World
check_input i input w = check_alarm i input (input_events i input w)

-- The loop at door `i`, with `n` doors left.
unfoldable pub check_from : (ℕ → ℕ) → ℕ → ℕ → World → World
check_from input_val zero i w = w
check_from input_val (suc n) i w = check_from input_val n (suc i) (check_input i (input_val i) w)

-- `~(~0 << n)`.
abbrev pub doors_mask : ℕ → ℕ
doors_mask n = 2 ^ n - 1

-- `lines` is what the hardware gives, `stack` what the uninitialised array `inputVal` held.
unfoldable pub check_inputs : List ℕ → (ℕ → ℕ) → World → World
check_inputs lines stack w =
    let input_val = get_input_state lines (doors_mask w.doors_count) stack in
    check_from input_val w.doors_count 0 w
