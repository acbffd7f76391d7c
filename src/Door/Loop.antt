-- ===== src/Door/Loop.antt =====
-- `mainLoop` of door_controller/door_controller.c: one round over the doors, then the inputs.
use osdp_roger_acs.Base.{ℕ, zero, suc, ◌-◌, List, [], ◌∷◌, none, some}
use osdp_roger_acs.Base.{◌==◌, truth, if◌then◌else◌}
use osdp_roger_acs.Reader.{UserInfo}
use osdp_roger_acs.Door.{World, put_door, Side, side_a, side_b, door_reader}
use osdp_roger_acs.Door.Lock.{lock_door}
use osdp_roger_acs.Door.Inputs.{check_inputs}
use osdp_roger_acs.Door.Auth.{UserDb, two_factor_tick, process_user_info}

-- The close-door timer.
unfoldable pub lock_timer_tick : ℕ → World → World
lock_timer_tick i w =
    let d = w.doors i in
    let n = d.door_lock_timer - 1 in
    let w' = put_door i (record d { door_lock_timer = n }) w in
    if truth d.door_lock_timer then (if n == 0 then (lock_door i d.mask_full w').1 else w') else w

-- The calls that `get_reader_data` makes of `process_user_info`, in their order.
unfoldable pub process_all : UserDb → ℕ → List UserInfo → ℕ → World → World
process_all db handle [] i w = w
process_all db handle (u ∷ us) i w = process_all db handle us i (process_user_info db handle u i w)

-- `inputs` is what the reader hands over in this round.
unfoldable pub read_reader : UserDb → (ℕ → List UserInfo) → ℕ → Side → World → World
unfolding process_all
read_reader db inputs i side w = elim ((door_reader side (w.doors i)).reader) [
  | none ↦ w
  | some handle ↦ process_all db handle (inputs handle) i w
]

-- The body of the loop for one door.
unfoldable pub door_round : UserDb → (ℕ → List UserInfo) → ℕ → World → World
door_round db inputs i w =
    let w₁ = two_factor_tick i side_b (two_factor_tick i side_a (lock_timer_tick i w)) in
    read_reader db inputs i side_b (read_reader db inputs i side_a w₁)

-- The loop at door `i`, with `n` doors left.
unfoldable pub doors_round : UserDb → (ℕ → List UserInfo) → ℕ → ℕ → World → World
doors_round db inputs zero i w = w
doors_round db inputs (suc n) i w = doors_round db inputs n (suc i) (door_round db inputs i w)

-- `inputs` is what each reader hands over in this round, `lines` and `stack` are those of
-- `check_inputs`.
unfoldable pub main_loop : UserDb → (ℕ → List UserInfo) → List ℕ → (ℕ → ℕ) → World → World
main_loop db inputs lines stack w =
    check_inputs lines stack (doors_round db inputs w.doors_count 0 w)
