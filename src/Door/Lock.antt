-- ===== src/Door/Lock.antt =====
-- Unlocking, locking and the airlock: `door_signal`, `signalDoorStatus`, `airLockOnPartner`,
-- `unlock_door` and `lock_door` of door_controller/door_controller.c.
use osdp_roger_acs.Base.{ℕ, ◌&&◌, ◌||◌, Option, none, some, ◌==◌, truth, if◌then◌else◌}
use osdp_roger_acs.Base.{bit_and, u32, not32, all_ones, ◌<<<◌}
use osdp_roger_acs.Reader.{Signal, door_open, blocked, unblocked}
use osdp_roger_acs.Reader
use osdp_roger_acs.Door.{Door, DoorOperation, do_unlock, do_lock, Effect, door_state, event}
use osdp_roger_acs.Door.{signal, World, emit, put_door, door_unlock}
use osdp_roger_acs.Door

abbrev pub door_open_time : ℕ
door_open_time = 13

-- `DI_IS_DOOR_CLOSE` of gpios/gpio.h.
abbrev pub di_is_door_close : ℕ
di_is_door_close = 0x04

signal_to : Option ℕ → Signal → World → World
signal_to none s w = w
signal_to (some r) s w = emit (signal s r) w

unfoldable pub door_signal : ℕ → Signal → World → World
unfolding signal_to
door_signal i s w =
    let w' = signal_to (w.doors i).reader_a.reader s w in
    signal_to (w'.doors i).reader_b.reader s w'

unfoldable pub signal_door_status : ℕ → World → World
signal_door_status i w =
    let d = w.doors i in
    if truth d.adm_disable_mask || truth d.air_lock_mask
    then door_signal i blocked w
    else door_signal i unblocked w

-- The mask that the partner's `airLockMask` gets; `none` leaves it.
unfoldable pub partner_mask : Door → Door → ℕ → Option ℕ
partner_mask d partner mask =
    if mask == 0
    then (if d.door_lock_timer == 0 && bit_and d.last_input di_is_door_close == di_is_door_close
        then some 0
        else none)
    else some (bit_and partner.mask_full mask)

unfoldable pub set_air_lock : ℕ → Option ℕ → World → World
set_air_lock p none w = w
set_air_lock p (some m) w = put_door p (record (w.doors p) { air_lock_mask = m }) w

unfoldable pub air_lock_on_partner : ℕ → ℕ → World → World
unfolding partner_mask set_air_lock
air_lock_on_partner i mask w = elim ((w.doors i).air_lock_partner_local) [
  | none ↦ w
  | some p ↦ signal_door_status i (set_air_lock p (partner_mask (w.doors i) (w.doors p) mask) w)
]

-- The outputs that `unlock_door` may drive out of the subdoors `mask`. A shift by 32 or more, which C
-- leaves undefined, gives none, here and in `lock_mask`.
unfoldable pub unlock_mask : Door → ℕ → ℕ
unlock_mask d mask = u32 (
    bit_and (bit_and (bit_and mask d.mask_full) (not32 d.air_lock_mask)) (not32 d.adm_disable_mask)
    <<< d.mask_offset)

unfoldable pub lock_mask : Door → ℕ → ℕ
lock_mask d mask =
    u32 (bit_and (bit_and mask d.mask_full) (not32 d.adm_disable_mask) <<< d.mask_offset)

unfoldable pub start_lock_timer : ℕ → World → World
start_lock_timer i w = put_door i (record (w.doors i) { door_lock_timer = door_open_time }) w

unfoldable pub unlock_door : ℕ → ℕ → World → ℕ × World
unfolding start_lock_timer
unlock_door i mask w =
    let d = w.doors i in
    let m = unlock_mask d mask in
    let w₁ = emit (door_state do_unlock m) (air_lock_on_partner i all_ones w) in
    let w₂ = emit (event (door_unlock d.door_name m)) w₁ in
    let w₃ = door_signal i door_open (start_lock_timer i w₂) in if m == 0 then (m, w) else (m, w₃)

unfoldable pub lock_door : ℕ → ℕ → World → ℕ × World
lock_door i mask w =
    let d = w.doors i in
    let m = lock_mask d mask in
    let w₁ = air_lock_on_partner i 0 (emit (door_state do_lock m) w) in
    let w₂ = emit (event (Door.Event.door_lock d.door_name m)) w₁ in
    if m == 0 then (m, w) else (m, door_signal i Reader.Signal.door_lock w₂)
