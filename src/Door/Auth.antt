-- ===== src/Door/Auth.antt =====
-- Authorisation at a reader: `resetDoorAuth`, the three error signals, `two_factor_timer` and
-- `process_user_info` of door_controller/door_controller.c, over the interface of the user
-- database (door_controller/user_db.h).
use osdp_roger_acs.Base.{ℕ, ◌-◌, Bool, false, not, ◌&&◌, ◌||◌}
use osdp_roger_acs.Base.{List, [], ◌∷◌, ◌++◌, map}
use osdp_roger_acs.Base.{Option, none, some, ◌==◌, ltb, truth, if◌then◌else◌, memcpy, set}
use osdp_roger_acs.Reader.{Signal, err_auth, err_usage, err_comm, pin_entry, pin_quiet}
use osdp_roger_acs.Reader.{
  DataType, is_pin, is_card, DataMode, complete, out_of_buf, timeout, UserInfo,
}
use osdp_roger_acs.Door.{Text, DoorReader, Event, Effect, signal, clear, null_reader, event}
use osdp_roger_acs.Door.{World, emit, Side, side_a, side_b, door_reader, put_reader}
use osdp_roger_acs.Door.{max_card_len, max_pin_len}
use osdp_roger_acs.Door.Lock.{unlock_door}

abbrev pub mode_card : ℕ
mode_card = 0x01

abbrev pub mode_pin : ℕ
mode_pin = 0x02

abbrev pub mode_card_or_pin : ℕ
mode_card_or_pin = 0x10

abbrev pub mode_card_and_pin : ℕ
mode_card_and_pin = 0x20

abbrev pub mode_card_and_pin_always : ℕ
mode_card_and_pin_always = 0x30

abbrev pub mode_two_cards : ℕ
mode_two_cards = 0x40

abbrev pub two_factor_time : ℕ
two_factor_time = 23

-- What a query of the user database gives: the mask of the subdoors it grants, and the events that
-- it sent, newest first.
pub record Verdict : Type 0 where
  pub mask : ℕ
  pub sent : List Event

-- `getAccessMask` takes the reader's credentials, a mode and the name of the door, and
-- `checkKeyAccess` the reader's two cards.
pub record UserDb : Type 0 where
  pub get_access_mask : DoorReader → ℕ → Text → Verdict
  pub check_key_access : DoorReader → Verdict

abbrev pub reset_auth : DoorReader → DoorReader
reset_auth r = record r { card_len = 0; pin_len = 0; two_factor_timer = 0 }

unfoldable pub reset_door_auth : ℕ → Side → World → World
reset_door_auth i side w = put_reader i side (reset_auth (door_reader side (w.doors i))) w

abbrev pub signal_reader : Signal → Option ℕ → World → World
signal_reader s none w = emit null_reader w
signal_reader s (some r) w = emit (signal s r) w

-- Their texts go to the system log only.
abbrev pub invalid_usage : Option ℕ → World → World
invalid_usage r w = signal_reader err_usage r w

abbrev pub auth_error : Option ℕ → World → World
auth_error r w = signal_reader err_auth r w

abbrev pub invalid_data : Option ℕ → World → World
invalid_data r w = signal_reader err_comm r w

abbrev pub clear_reader_data : Option ℕ → World → World
clear_reader_data none w = emit null_reader w
clear_reader_data (some r) w = emit (clear r) w

abbrev pub set_two_factor_timer : ℕ → ℕ → Side → World → World
set_two_factor_timer n i side w =
    put_reader i side (record (door_reader side (w.doors i)) { two_factor_timer = n }) w

unfoldable pub two_factor_tick : ℕ → Side → World → World
unfolding reset_door_auth
two_factor_tick i side w =
    let r = door_reader side (w.doors i) in
    let n = r.two_factor_timer - 1 in
    let w' = set_two_factor_timer n i side w in
    if ltb 0 r.two_factor_timer
    then (if n == 0
        then invalid_usage r.reader (clear_reader_data r.reader (reset_door_auth i side w'))
        else signal_reader pin_quiet r.reader w')
    else w

-- What storing an input gives: the call ended with an error, or it goes on to the check.
pub data Stored : Type 0 where
  refused_data refused_usage : Stored
  stored : DoorReader → Stored

abbrev store_pin : DoorReader → UserInfo → Stored
store_pin r u =
    let pin' = set (memcpy r.pin u.bytes u.len) u.len 0 in
    if ltb max_pin_len u.len
    then refused_data
    else if truth r.pin_len
    then refused_usage
    else stored (record r { pin = pin'; pin_len = u.len })

abbrev store_card : DoorReader → UserInfo → Stored
store_card r u =
    let second = record r { card2 = memcpy r.card2 u.bytes u.len; card2_len = u.len } in
    let first = record r { card = memcpy r.card u.bytes u.len; card_len = u.len } in
    if ltb max_card_len u.len
    then refused_data
    else if truth r.card_len
    then (if not (r.access_mode == mode_two_cards) || truth r.card2_len
        then refused_usage
        else stored second)
    else stored first

abbrev store_typed : DataType → DoorReader → UserInfo → Stored
store_typed is_pin r u = store_pin r u
store_typed is_card r u = store_card r u

-- The first part of `process_user_info`: the tests on the input, and the two `memcpy`s.
abbrev store_mode : DataMode → DoorReader → UserInfo → Stored
store_mode complete r u = store_typed u.type r u
store_mode out_of_buf r u = refused_data
store_mode timeout r u = refused_usage

unfoldable pub store_input : DoorReader → UserInfo → Stored
store_input r u = store_mode u.mode r u

-- What the `switch` on the mode leaves: `auth_mask`, the reader, and what it sent.
pub record Checked : Type 0 where
  pub auth_mask : ℕ
  pub credentials : DoorReader
  pub sent : List Effect

module _ (db : UserDb) (name : Text) where
  open db use {get_access_mask, check_key_access}

  abbrev no_access : DoorReader → Checked
  no_access r = record { auth_mask = 0; credentials = r; sent = [] }

  abbrev ask : ℕ → DoorReader → Checked
  ask mode r =
      let v = get_access_mask r mode name in
      record { auth_mask = v.mask; credentials = r; sent = map event v.sent }

  -- The two-factor timer is started unless it runs.
  abbrev await_second : List Effect → ℕ → DoorReader → Checked
  await_second before handle r =
      if r.two_factor_timer == 0
      then record {
        auth_mask = 0;
        credentials = record r { two_factor_timer = two_factor_time };
        sent = signal pin_entry handle ∷ before;
      }
      else record { auth_mask = 0; credentials = r; sent = before }

  abbrev check_two_factor : ℕ → DoorReader → Checked
  check_two_factor handle r =
      let both = get_access_mask r mode_card_and_pin_always name in
      let one = get_access_mask r mode_card_and_pin name in
      let done = record r { two_factor_timer = 0 } in
      if truth r.card_len && truth r.pin_len
      then record { auth_mask = both.mask; credentials = done; sent = map event both.sent }
      else if truth r.card_len && r.access_mode == mode_card_and_pin
      then (if truth one.mask
          then record { auth_mask = one.mask; credentials = done; sent = map event one.sent }
          else await_second (map event one.sent) handle r)
      else await_second [] handle r

  abbrev check_two_cards : ℕ → DoorReader → Checked
  check_two_cards handle r =
      let v = check_key_access r in
      if truth r.card_len && truth r.card2_len
      then record {
        auth_mask = v.mask;
        credentials = record r { two_factor_timer = 0; card2_len = 0 };
        sent = map event v.sent;
      }
      else await_second [] handle r

  -- The `switch (doorReader->accessMode)`.
  unfoldable pub check_access : ℕ → DoorReader → Checked
  check_access handle r =
      if r.access_mode == mode_card_or_pin
      then (if truth r.card_len
          then ask mode_card r
          else if truth r.pin_len
          then ask mode_pin r
          else no_access r)
      else if r.access_mode == mode_card
      then (if truth r.card_len then ask mode_card r else no_access r)
      else if r.access_mode == mode_pin
      then (if truth r.pin_len then ask mode_pin r else no_access r)
      else if r.access_mode == mode_card_and_pin || r.access_mode == mode_card_and_pin_always
      then check_two_factor handle r
      else if r.access_mode == mode_two_cards
      then check_two_cards handle r
      else no_access r

-- The last part of `process_user_info`: unlock and forget the credentials, or signal an error
-- and forget them, or wait for the second factor.
unfoldable pub conclude : ℕ → Side → ℕ → Checked → World → World
unfolding reset_door_auth
conclude i side handle c w =
    let w' = put_reader i side c.credentials (record w { log = c.sent ++ w.log }) in
    let opened = reset_door_auth i side (unlock_door i c.auth_mask w').1 in
    let failed = reset_door_auth i side (auth_error (some handle) w') in
    if truth c.auth_mask then opened else if c.credentials.two_factor_timer == 0 then failed else w'

unfoldable pub continue_with : UserDb → ℕ → Side → ℕ → Stored → World → World
unfolding conclude check_access
continue_with db i side handle refused_data w =
    invalid_data (some handle) (reset_door_auth i side w)
continue_with db i side handle refused_usage w =
    invalid_usage (some handle) (reset_door_auth i side w)
continue_with db i side handle (stored r) w =
    conclude i side handle (check_access db (w.doors i).door_name handle r) w

-- `process_user_info` once it is known which of the door's readers called.
unfoldable pub process_side : UserDb → ℕ → Side → ℕ → UserInfo → World → World
unfolding continue_with store_input
process_side db i side handle u w =
    continue_with db i side handle (store_input (door_reader side (w.doors i)) u) w

abbrev pub is_reader : Option ℕ → ℕ → Bool
is_reader none handle = false
is_reader (some r) handle = r == handle

-- `process_user_info(data, dataLen, dataType, dataMode, reader, readerUserData, userData)`, where
-- `handle` is the reader, `i` the door in `readerUserData` and `db` the database in `userData`.
unfoldable pub process_user_info : UserDb → ℕ → UserInfo → ℕ → World → World
process_user_info db handle u i w =
    if is_reader (w.doors i).reader_a.reader handle
    then process_side db i side_a handle u w
    else if is_reader (w.doors i).reader_b.reader handle
    then process_side db i side_b handle u w
    else invalid_data (some handle) w
