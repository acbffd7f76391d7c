-- ===== src/Examples/Access.antt =====
-- Readers, credentials and timers of door_controller/door_controller.c.
use osdp_roger_acs.Base.{ℕ, zero, suc, ◌≡◌, refl, arith, ◌∷◌}
use osdp_roger_acs.Base.{iterate, bit_and}
use osdp_roger_acs.Door.{
  World, side_a, side_b, DoorReader, DoorOperation, event, door_open_alarm, door_reader,
}
use osdp_roger_acs.Door.Auth.{two_factor_tick, process_user_info}
use osdp_roger_acs.Door.Inputs.{check_alarm, input_diff, input_events}
use osdp_roger_acs.Door.Credentials.{IsSound, process_user_info-IsSound}
use osdp_roger_acs.Door.Readers.{AllReaders}
use osdp_roger_acs.Door.Waiting.{two_factor_expires, alarm_repeats}
use osdp_roger_acs.Door.Release.{closing_keeps_airlock}
use osdp_roger_acs.Base.{◌++◌}
use osdp_roger_acs.Base.{inr}
use osdp_roger_acs.Gpio.{set_door_state}
use osdp_roger_acs.Gpio.Lines.{at_line, set_door_state-written}
use osdp_roger_acs.Examples.Data.{building, airlock, open_house, shown_card, card_reader, no_reader}

card_reader-IsSound : (handle : ℕ) → IsSound (card_reader handle)
card_reader-IsSound handle = record {
  fits = record {
    card_size = refl;
    card2_size = refl;
    pin_size = refl;
    card_fits = omega arith;
    card2_fits = omega arith;
    pin_fits = omega arith;
    timer_fits = omega arith;
  };
  no_second = refl;
  idle = λ h. (refl, refl);
}

no_reader-IsSound : IsSound no_reader
no_reader-IsSound = record {
  fits = record {
    card_size = refl;
    card2_size = refl;
    pin_size = refl;
    card_fits = omega arith;
    card2_fits = omega arith;
    pin_fits = omega arith;
    timer_fits = omega arith;
  };
  no_second = refl;
  idle = λ h. (refl, refl);
}

building-IsSound : AllReaders IsSound building
building-IsSound side_a zero = card_reader-IsSound 0
building-IsSound side_a (suc zero) = card_reader-IsSound 1
building-IsSound side_a (suc (suc j)) = card_reader-IsSound 2
building-IsSound side_b zero = no_reader-IsSound
building-IsSound side_b (suc zero) = no_reader-IsSound
building-IsSound side_b (suc (suc j)) = no_reader-IsSound

process_user_info-IsSound_example :
    AllReaders IsSound (process_user_info open_house 0 shown_card 0 building)
process_user_info-IsSound_example =
    process_user_info-IsSound open_house 0 shown_card 0 building (omega arith) building-IsSound

abbrev waiting_reader : DoorReader
waiting_reader = record (card_reader 0) { card_len = 2; two_factor_timer = 3 }

abbrev waiting : World
waiting = record building { doors = λ j. record (airlock j) { reader_a = waiting_reader } }

abbrev after_ticks : ℕ → DoorReader
after_ticks k = door_reader side_a ((iterate k (two_factor_tick 0 side_a) waiting).doors 0)

two_factor_expires_example :
    (after_ticks 2 ≡ record waiting_reader { two_factor_timer = 1 })
    × ((after_ticks 3).card_len ≡ 0)
    × ((after_ticks 3).pin_len ≡ 0)
    × ((after_ticks 3).two_factor_timer ≡ 0)
two_factor_expires_example = two_factor_expires 2 2 0 side_a waiting refl (omega arith)

-- Door 0 is open, and an alarm was sent 58 rounds ago.
abbrev left_open : World
left_open = record building { doors = λ j. record (airlock j) { last_input = 0; alarm_timers = 2 } }

abbrev after_rounds : ℕ → World
after_rounds k = iterate k (check_alarm 0 0) left_open

alarm_repeats_example :
    ((after_rounds 1).log ≡ left_open.log)
    × (((after_rounds 1).doors 0).alarm_timers ≡ 1)
    × ((after_rounds 2).log
        ≡ event (door_open_alarm (left_open.doors 0).door_name 4) ∷ left_open.log)
    × (((after_rounds 2).doors 0).alarm_timers ≡ 60)
alarm_repeats_example = alarm_repeats 1 1 0 0 left_open (omega arith) (inr refl) refl (omega arith)

no_manual : bit_and (input_diff (left_open.doors 0) 4) 1 ≡ 0
unfolding input_diff
no_manual = refl

no_emergency : bit_and (input_diff (left_open.doors 0) 4) 2 ≡ 0
unfolding input_diff
no_emergency = refl

closing_keeps_airlock_example :
    ((input_events 0 4 left_open).doors 1).air_lock_mask ≡ (left_open.doors 1).air_lock_mask
closing_keeps_airlock_example =
    closing_keeps_airlock 0 4 1 left_open refl (λ h. omega (arith, h)) no_manual no_emergency

set_door_state-written_example :
    set_door_state DoorOperation.do_lock 10
    ≡ at_line DoorOperation.do_lock 10 0 13
      ++ (at_line DoorOperation.do_lock 10 1 7
          ++ (at_line DoorOperation.do_lock 10 2 198 ++ at_line DoorOperation.do_lock 10 3 199))
set_door_state-written_example = set_door_state-written DoorOperation.do_lock 10
