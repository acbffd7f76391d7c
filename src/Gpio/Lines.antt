-- ===== src/Gpio/Lines.antt =====
-- The outputs that `set_door_state` writes and the inputs that `get_input_state` packs
-- (gpios/gpio-orangepizero.c).
use osdp_roger_acs.Base.{ℕ, zero, suc, ◌*◌, ◌^◌, ◌≤◌, ◌<◌, ◌≡◌, ap, ◌∙◌, arith}
use osdp_roger_acs.Base.{List, [], ◌∷◌, ◌++◌}
use osdp_roger_acs.Base.{◌==◌, truth, if◌then◌else◌, bit, bit_and, ◌<<<◌}
use osdp_roger_acs.Base.{bit_and-two_pow, bit-le-one, two-pow-pos}
use native.Mathlib.Nat.{zero-mul, one-mul}
use osdp_roger_acs.Door.{DoorOperation}
use osdp_roger_acs.Gpio.{set_outputs, set_door_state}
use osdp_roger_acs.Gpio.{get_input_state}

-- The level of an operation on the lines: they are active low.
abbrev pub level : DoorOperation → ℕ
level DoorOperation.do_unlock = 0
level DoorOperation.do_lock = 1

-- What is written to line `l`, that of output `k`.
abbrev pub at_line : DoorOperation → ℕ → ℕ → ℕ → List (ℕ × ℕ)
at_line op mask k l = if bit k mask == 1 then (l, level op) ∷ [] else []

truth-mul : (b p : ℕ) → b ≤ 1 → 0 < p → truth (b * p) ≡ (b == 1)
truth-mul zero p h pos = rw zero-mul
truth-mul (suc zero) p h pos = rw one-mul (ground arith)
truth-mul (suc (suc b)) p h pos = absurd (omega arith)

selected : (mask k : ℕ) → truth (bit_and mask (1 <<< k)) ≡ (bit k mask == 1)
selected mask k =
    ap truth (ap (bit_and mask) (omega arith) ∙ bit_and-two_pow k mask)
    ∙ truth-mul (bit k mask) (2 ^ k) (bit-le-one k mask) (two-pow-pos k)

-- `set_door_state` writes to lines 13, 7, 198 and 199, in this order, to each if its output, from 0 to 3,
-- is in the mask, and to no other: 0 to unlock, 1 to lock.
pub set_door_state-written :
    (op : DoorOperation) (mask : ℕ)
    → set_door_state op mask
      ≡ at_line op mask 0 13
        ++ (at_line op mask 1 7 ++ (at_line op mask 2 198 ++ at_line op mask 3 199))
unfolding set_door_state
set_door_state-written DoorOperation.do_unlock mask =
    rw (set_outputs, selected mask 0, selected mask 1, selected mask 2, selected mask 3)
      (ground arith)
set_door_state-written DoorOperation.do_lock mask =
    rw (set_outputs, selected mask 0, selected mask 1, selected mask 2, selected mask 3)
      (ground arith)

-- The entries of the doors from the third on are not written.
pub get_input_state-beyond :
    (lines : List ℕ) (mask : ℕ) (values : ℕ → ℕ) (i : ℕ)
    → 2 ≤ i
    → get_input_state lines mask values i ≡ values i
unfolding get_input_state
get_input_state-beyond lines mask values i h = ground arith
