-- ===== src/Base/Digits.antt =====
-- The lowest binary digit of `&`, `|` and `^`, and what is left of them above it.
use Prim.Native.Nat.{ℕ, zero, suc, ◌+◌, ◌*◌, ◌/◌, ◌%◌, ◌≤◌, min, max, digits, bitwise, differ}
use Prim.Native.Nat.{bit_and, bit_or, bit_xor, bit_and-bitwise, bit_or-bitwise, bit_xor-bitwise}
use mathlib.Core.Path.{◌≡◌, refl, ap, ◌∙◌}
use native.Mathlib.Decide.{dec_lt}
use native.Mathlib.Omega.{arith}

module _ (rest : ℕ → ℕ) (op : ℕ → ℕ → ℕ) where
  -- Fuel that covers the first number is enough: one more changes nothing, and so no more does.
  one_more : (fuel x y : ℕ) → x ≤ fuel → digits rest op (suc fuel) x y ≡ digits rest op fuel x y
  one_more zero zero y h = refl
  one_more (suc fuel) zero y h = refl
  one_more zero (suc x) y h = absurd (omega arith)
  one_more (suc fuel) (suc x) y h =
      ap (λ (t : ℕ). t * 2 + op (suc x % 2) (y % 2))
        (one_more fuel (suc x / 2) (y / 2) (omega arith))

  any_more :
      (more fuel x y : ℕ)
      → x ≤ fuel
      → fuel ≤ more
      → digits rest op more x y ≡ digits rest op fuel x y
  any_more zero fuel x y h k = let same : fuel ≡ 0 = omega arith in rw same refl
  any_more (suc more) fuel x y h k = elim (dec_lt more fuel) [
    | yes last ↦ let same : fuel ≡ suc more = omega arith in rw same refl
    | no earlier ↦ one_more more x y (omega arith) ∙ any_more more fuel x y h (omega arith)
  ]

  low_digit :
      (x y : ℕ)
      → bitwise rest op (suc x) y ≡ op (suc x % 2) (y % 2) + 2 * bitwise rest op (suc x / 2) (y / 2)
  low_digit x y =
      let half = suc x / 2 in
      let enough : half ≤ half = omega arith in
      omega (arith, any_more x half half (y / 2) enough (omega arith))

pub low_digit_and : (x y : ℕ) → bit_and x y ≡ min (x % 2) (y % 2) + 2 * bit_and (x / 2) (y / 2)
low_digit_and zero y = simp bit_and-bitwise (omega arith)
low_digit_and (suc x) y = simp bit_and-bitwise (low_digit (λ t. 0) min x y)

pub low_digit_or : (x y : ℕ) → bit_or x y ≡ max (x % 2) (y % 2) + 2 * bit_or (x / 2) (y / 2)
low_digit_or zero y = simp bit_or-bitwise (omega arith)
low_digit_or (suc x) y = simp bit_or-bitwise (low_digit (λ t. t) max x y)

pub low_digit_xor : (x y : ℕ) → bit_xor x y ≡ differ (x % 2) (y % 2) + 2 * bit_xor (x / 2) (y / 2)
low_digit_xor zero y = simp bit_xor-bitwise (omega arith)
low_digit_xor (suc x) y = simp bit_xor-bitwise (low_digit (λ t. t) differ x y)

-- Digits differ where their sum is odd.
pub differ-sum : (x y : ℕ) → x ≤ 1 → y ≤ 1 → differ x y ≡ (x + y) % 2
differ-sum zero zero h k = refl
differ-sum zero (suc zero) h k = refl
differ-sum (suc zero) zero h k = refl
differ-sum (suc zero) (suc zero) h k = refl
differ-sum (suc (suc x)) y h k = absurd (omega arith)
differ-sum zero (suc (suc y)) h k = absurd (omega arith)
differ-sum (suc zero) (suc (suc y)) h k = absurd (omega arith)
