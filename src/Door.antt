-- ===== src/Door.antt =====
-- door_controller/door_controller.h and .c: doors, their readers, and the calls that leave them.
-- A `Door *` is an index into the array of doors, so that an airlock partner is shared and may be
-- the door itself. What the program sends to the readers, the outputs and the event sender is a
-- log, newest first.
pub mod Lock
pub mod Inputs
pub mod Auth
pub mod Loop
pub mod Masks
pub mod Frame
pub mod Names
pub mod Airlock
pub mod Interlock
pub mod Steps
pub mod Rounds
pub mod FirstRound
pub mod ThirdDoor
pub mod Credentials
pub mod Readers
pub mod Sound
pub mod Grants
pub mod Outputs
pub mod Timers
pub mod Waiting
pub mod Release
use osdp_roger_acs.Base.{
  ℕ, zero, suc, List, [], ◌∷◌, Option, none, some, Bool, true, false, ◌&&◌, ◌==◌, if◌then◌else◌,
}
use osdp_roger_acs.Reader.{Signal}

-- A C string, without its final zero.
abbrev pub Text : Type 0
Text = List ℕ

abbrev pub max_card_len : ℕ
max_card_len = 16

abbrev pub max_pin_len : ℕ
max_pin_len = 16

-- The timers are `int`s that the code sets to 0 or to a constant and counts down to 0.
pub record DoorReader : Type 0 where
  pub reader : Option ℕ
  pub access_mode : ℕ
  pub two_factor_timer : ℕ
  pub card_len : ℕ
  pub card2_len : ℕ
  pub pin_len : ℕ
  pub card : List ℕ
  pub card2 : List ℕ
  pub pin : List ℕ

pub record Door : Type 0 where
  pub door_name : Text
  pub reader_a : DoorReader
  pub reader_b : DoorReader
  pub last_input : ℕ
  pub alarm_timers : ℕ
  pub mask_offset : ℕ
  pub mask_full : ℕ
  pub door_lock_timer : ℕ
  pub adm_disable_mask : ℕ
  pub air_lock_mask : ℕ
  pub air_lock_partner_local : Option ℕ

pub data DoorOperation : Type 0 where
  do_unlock do_lock : DoorOperation

-- The calls of `sendEvent` (eventSend.h), each with its arguments.
pub data Event : Type 0 where
  auth_ok : Text → ℕ → Option Text → Text → Event
  auth_err auth_err_expire auth_err_pin : Text → Option Text → Text → Event
  manual_open : Text → Event
  door_unlock door_lock : Text → ℕ → Event
  door_is_open door_is_close door_is_unlock door_is_lock : Text → Event
  door_emergency_active door_emergency_inactive : Text → Event
  door_open_alarm : Text → ℕ → Event
  remote_ctrl : Option Text → Option Text → Option Text → Option Text → Event

-- A call of `reader_signal`, `clear_reader_data`, `set_door_state` or `sendEvent`, or an answer to
-- the remote control; `null_reader` is a call with a null reader, which C leaves undefined.
pub data Effect : Type 0 where
  signal : Signal → ℕ → Effect
  clear : ℕ → Effect
  null_reader : Effect
  door_state : DoorOperation → ℕ → Effect
  event : Event → Effect
  reply : Text → Effect

pub record World : Type 0 where
  pub doors : ℕ → Door
  pub doors_count : ℕ
  pub log : List Effect

abbrev pub emit : Effect → World → World
emit e w = record w { log = e ∷ w.log }

abbrev pub put_door : ℕ → Door → World → World
put_door i d w = record w { doors = λ j. if j == i then d else w.doors j }

-- Which of the two readers of a door.
pub data Side : Type 0 where
  side_a side_b : Side

abbrev pub door_reader : Side → Door → DoorReader
door_reader side_a d = d.reader_a
door_reader side_b d = d.reader_b

abbrev pub set_door_reader : Side → DoorReader → Door → Door
set_door_reader side_a r d = record d { reader_a = r }
set_door_reader side_b r d = record d { reader_b = r }

abbrev pub put_reader : ℕ → Side → DoorReader → World → World
put_reader i side r w = put_door i (set_door_reader side r (w.doors i)) w

abbrev pub text_eq : Text → Text → Bool
text_eq [] [] = true
text_eq (a ∷ s) (b ∷ t) = a == b && text_eq s t
text_eq _ _ = false

-- The loop of `getDoorByName` at index `i`, with `n` doors left.
find_door : (ℕ → Door) → ℕ → ℕ → Text → Option ℕ
find_door doors zero i name = none
find_door doors (suc n) i name =
    let rest = find_door doors n (suc i) name in
    if text_eq (doors i).door_name name then some i else rest

unfoldable pub get_door_by_name : World → Text → Option ℕ
unfolding find_door
get_door_by_name w name = find_door w.doors w.doors_count 0 name
