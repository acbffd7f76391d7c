-- ===== src/Gpio.antt =====
-- gpios/gpio.h and gpios/gpio-orangepizero.c. libgpiod is outside: the writes are given as the
-- list of `(line, value)` handed to `gpiod_ctxless_set_value`, the reads as the eight values that
-- `gpiod_ctxless_get_value_multiple_ext` stored.
pub mod Lines
use osdp_roger_acs.Base.{ℕ, zero, suc, ◌+◌, ◌*◌, List, [], ◌∷◌, ◌==◌, truth, if◌then◌else◌}
use osdp_roger_acs.Base.{bit_and, bit_or, ◌<<<◌, ◌>>>◌, get_or, u8}
use osdp_roger_acs.Door.{DoorOperation, do_unlock, do_lock}

abbrev pub door_outputs_num : ℕ
door_outputs_num = 4

-- PA13, PA7, PG06 and PG07.
abbrev pub outputs : List ℕ
outputs = 13 ∷ 7 ∷ 198 ∷ 199 ∷ []

abbrev pub inputs_doors : ℕ
inputs_doors = 2

abbrev pub inputs_types : ℕ
inputs_types = 4

abbrev pub output_value : DoorOperation → ℕ
output_value do_unlock = 0
output_value do_lock = 1

-- The loop at output `i`, with `n` outputs left.
set_outputs : ℕ → ℕ → ℕ → ℕ → List (ℕ × ℕ)
set_outputs val mask zero i = []
set_outputs val mask (suc n) i =
    let rest = set_outputs val mask n (suc i) in
    if truth (bit_and mask (1 <<< i)) then (get_or outputs i 0, val) ∷ rest else rest

unfoldable pub set_door_state : DoorOperation → ℕ → List (ℕ × ℕ)
unfolding set_outputs
set_door_state op mask = set_outputs (output_value op) mask door_outputs_num 0

-- The inner loop: the inputs of type `j` and above, with `n` types left.
unfoldable pub pack_inputs : List ℕ → ℕ → ℕ → ℕ → ℕ → ℕ
pack_inputs lines i zero j acc = acc
pack_inputs lines i (suc n) j acc =
    pack_inputs lines i n (suc j) (u8 (bit_or acc (get_or lines (i * 4 + j) 0 <<< j)))

-- The outer loop at door `i`, with `n` doors left. An entry that `mask` leaves out stays as it is.
read_inputs : List ℕ → ℕ → ℕ → ℕ → (ℕ → ℕ) → ℕ → ℕ
read_inputs lines zero i mask values = values
read_inputs lines (suc n) i mask values =
    let here : ℕ → ℕ = λ k. if k == i then pack_inputs lines i inputs_types 0 0 else values k in
    let next = if truth (bit_and mask 1) then here else values in
    let rest = read_inputs lines n (suc i) (mask >>> 1) next in if truth mask then rest else values

-- `values` is the caller's array as it was before the call.
unfoldable pub get_input_state : List ℕ → ℕ → (ℕ → ℕ) → ℕ → ℕ
unfolding read_inputs
get_input_state lines mask values = read_inputs lines inputs_doors 0 mask values
