-- ===== src/Base/Bits.antt =====
-- The bits of a word, one at a time: what `&`, `|`, `^`, `~`, `<<` and a cast to 32 bits do to each.
use Prim.Native.Nat.{ℕ, zero, suc, ◌+◌, ◌-◌, ◌*◌, ◌/◌, ◌%◌, ◌^◌, ◌≤◌, ◌<◌, min, max}
use Prim.Native.Nat.{bit_and, bit_or, bit_and-bitwise}
use Prim.Native.Nat.{bit_xor}
use mathlib.Core.Path.{◌≡◌, refl, ap, ◌∙◌}
use native.Mathlib.Nat.{le_refl, pow-suc, one-le-pow, mul_comm, zero-add, mul-one, suc-add}
use native.Mathlib.Nat.{mod-lt, div-add-mod, add-mul-mod_self_left, mod-eq_of_lt}
use mathlib.Core.Logic.{◌≢◌}
use native.Mathlib.Decide.{dec_lt}
use native.Mathlib.Omega.{arith}
use osdp_roger_acs.Base.Digits.{low_digit_and, low_digit_or, low_digit_xor, differ-sum}
use osdp_roger_acs.Base.Word.{u32, not32}

-- The bit of weight `2 ^ k`.
abbrev pub bit : ℕ → ℕ → ℕ
bit zero x = x % 2
bit (suc k) x = bit k (x / 2)

pub bit-le-one : (k x : ℕ) → bit k x ≤ 1
bit-le-one zero x = omega arith
bit-le-one (suc k) x = bit-le-one k (x / 2)

pub bit-zero : (k : ℕ) → bit k 0 ≡ 0
bit-zero zero = refl
bit-zero (suc k) = bit-zero k

pub bit-bit_and : (k a b : ℕ) → bit k (bit_and a b) ≡ min (bit k a) (bit k b)
bit-bit_and zero a b = omega (arith, low_digit_and a b)
bit-bit_and (suc k) a b =
    let e : bit_and a b / 2 ≡ bit_and (a / 2) (b / 2) = omega (arith, low_digit_and a b) in
    ap (bit k) e ∙ bit-bit_and k (a / 2) (b / 2)

pub bit-bit_or : (k a b : ℕ) → bit k (bit_or a b) ≡ max (bit k a) (bit k b)
bit-bit_or zero a b = omega (arith, low_digit_or a b)
bit-bit_or (suc k) a b =
    let e : bit_or a b / 2 ≡ bit_or (a / 2) (b / 2) = omega (arith, low_digit_or a b) in
    ap (bit k) e ∙ bit-bit_or k (a / 2) (b / 2)

bit-complement : (n k x : ℕ) → k < n → x < 2 ^ n → bit k (2 ^ n - 1 - x) ≡ 1 - bit k x
bit-complement zero k x h lt = absurd (omega arith)
bit-complement (suc n) zero x h lt = omega (arith, pow-suc 2 n)
bit-complement (suc n) (suc k) x h lt =
    let e : (2 ^ suc n - 1 - x) / 2 ≡ 2 ^ n - 1 - x / 2 = omega (arith, pow-suc 2 n) in
    ap (bit k) e ∙ bit-complement n k (x / 2) (omega arith) (omega (arith, pow-suc 2 n))

pub two-pow-pos : (n : ℕ) → 0 < 2 ^ n
two-pow-pos n = one-le-pow n 2 (omega arith)

mod-double : (x m : ℕ) → 0 < m → x % (2 * m) ≡ 2 * (x / 2 % m) + x % 2
mod-double x m h =
    let r : ℕ = 2 * (x / 2 % m) + x % 2 in
    let small : r < 2 * m = omega (arith, mod-lt (x / 2) h) in
    let split : x ≡ r + 2 * m * (x / 2 / m) =
      omega (arith, ap (λ (t : ℕ). 2 * t) (div-add-mod (x / 2) m)) in
    ap (λ (t : ℕ). t % (2 * m)) split
    ∙ add-mul-mod_self_left r (2 * m) (x / 2 / m)
    ∙ mod-eq_of_lt small

mod-pow-suc : (n x : ℕ) → x % 2 ^ suc n ≡ 2 * (x / 2 % 2 ^ n) + x % 2
mod-pow-suc n x = rw (pow-suc 2 n, mul_comm (2 ^ n) 2) (mod-double x (2 ^ n) (two-pow-pos n))

pub bit-mod : (n k x : ℕ) → k < n → bit k (x % 2 ^ n) ≡ bit k x
bit-mod zero k x h = absurd (omega arith)
bit-mod (suc n) zero x h = rw (mod-pow-suc n x) (omega arith)
bit-mod (suc n) (suc k) x h =
    let e : x % 2 ^ suc n / 2 ≡ x / 2 % 2 ^ n = rw (mod-pow-suc n x) (omega arith) in
    ap (bit k) e ∙ bit-mod n k (x / 2) (omega arith)

pub bit-u32 : (k x : ℕ) → k < 32 → bit k (u32 x) ≡ bit k x
bit-u32 k x h = bit-mod 32 k x h

pub bit-not32 : (k x : ℕ) → k < 32 → bit k (not32 x) ≡ 1 - bit k x
unfolding not32
bit-not32 k x h =
    bit-complement 32 k (u32 x) h (omega arith) ∙ ap (λ (t : ℕ). 1 - t) (bit-u32 k x h)

pub bit-shift : (o k x : ℕ) → bit (o + k) (x * 2 ^ o) ≡ bit k x
bit-shift zero k x = rw (zero-add, mul-one)
bit-shift (suc o) k x =
    let e : x * 2 ^ suc o / 2 ≡ x * 2 ^ o = omega (arith, ap (λ (t : ℕ). x * t) (pow-suc 2 o)) in
    rw suc-add (ap (bit (o + k)) e ∙ bit-shift o k x)

pub bit-shift_below : (o k x : ℕ) → k < o → bit k (x * 2 ^ o) ≡ 0
bit-shift_below zero k x h = absurd (omega arith)
bit-shift_below (suc o) zero x h = omega (arith, ap (λ (t : ℕ). x * t) (pow-suc 2 o))
bit-shift_below (suc o) (suc k) x h =
    let e : x * 2 ^ suc o / 2 ≡ x * 2 ^ o = omega (arith, ap (λ (t : ℕ). x * t) (pow-suc 2 o)) in
    ap (bit k) e ∙ bit-shift_below o k x (omega arith)

pub bit-above : (n k x : ℕ) → n ≤ k → x < 2 ^ n → bit k x ≡ 0
bit-above zero k x h lt = let z : x ≡ 0 = omega arith in ap (bit k) z ∙ bit-zero k
bit-above (suc n) zero x h lt = absurd (omega arith)
bit-above (suc n) (suc k) x h lt = bit-above n k (x / 2) (omega arith) (omega (arith, pow-suc 2 n))

-- A number below `2 ^ n` whose low `n` bits are 0 is 0.
pub zero_of_bits : (n x : ℕ) → x < 2 ^ n → ((k : ℕ) → k < n → bit k x ≡ 0) → x ≡ 0
zero_of_bits zero x h b = omega arith
zero_of_bits (suc n) x h b = omega (
  arith,
  b 0 (omega arith),
  zero_of_bits n (x / 2) (omega (arith, pow-suc 2 n)) (λ k lt. b (suc k) (omega arith)),
)

bit_and-le_fuel : (n a b : ℕ) → a ≤ n → (bit_and a b ≤ a) × (bit_and a b ≤ b)
bit_and-le_fuel n zero b h = omega (arith, bit_and-bitwise 0 b)
bit_and-le_fuel zero (suc a) b h = absurd (omega arith)
bit_and-le_fuel (suc n) (suc a) b h =
    omega (arith, low_digit_and (suc a) b, bit_and-le_fuel n (suc a / 2) (b / 2) (omega arith))

pub bit_and-le : (a b : ℕ) → (bit_and a b ≤ a) × (bit_and a b ≤ b)
bit_and-le a b = bit_and-le_fuel a a b (le_refl a)

pub zero-bit_and : (b : ℕ) → bit_and 0 b ≡ 0
zero-bit_and b = bit_and-bitwise 0 b

pub eq_of_bits : (n x y : ℕ) → x < 2 ^ n → y < 2 ^ n → ((k : ℕ) → k < n → bit k x ≡ bit k y) → x ≡ y
eq_of_bits zero x y hx hy b = omega arith
eq_of_bits (suc n) x y hx hy b = omega (
  arith,
  b 0 (omega arith),
  eq_of_bits n (x / 2) (y / 2) (omega (arith, pow-suc 2 n)) (omega (arith, pow-suc 2 n))
      (λ k lt. b (suc k) (omega arith)),
)

pub bit-ones : (n k : ℕ) → k < n → bit k (2 ^ n - 1) ≡ 1
bit-ones n k h =
    let e : 2 ^ n - 1 ≡ 2 ^ n - 1 - 0 = omega arith in
    ap (bit k) e ∙ bit-complement n k 0 h (two-pow-pos n) ∙ ap (λ (t : ℕ). 1 - t) (bit-zero k)

pub bit_and-ones : (n x : ℕ) → x < 2 ^ n → bit_and x (2 ^ n - 1) ≡ x
bit_and-ones n x h =
    eq_of_bits n (bit_and x (2 ^ n - 1)) x (omega (arith, bit_and-le x (2 ^ n - 1))) h
      (λ k lt. omega (arith, bit-bit_and k x (2 ^ n - 1), bit-ones n k lt, bit-le-one k x))

bit_and-zero : (a : ℕ) → bit_and a 0 ≡ 0
bit_and-zero a = omega (arith, bit_and-le a 0)

-- A mask of one bit.
pub bit_and-two_pow : (k a : ℕ) → bit_and a (2 ^ k) ≡ bit k a * 2 ^ k
bit_and-two_pow zero a = omega (arith, low_digit_and a 1, bit_and-zero (a / 2))
bit_and-two_pow (suc k) a =
    let half : 2 ^ suc k / 2 ≡ 2 ^ k = omega (arith, pow-suc 2 k) in
    let low : 2 ^ suc k % 2 ≡ 0 = omega (arith, pow-suc 2 k) in
    omega (
      arith,
      low_digit_and a (2 ^ suc k),
      ap (bit_and (a / 2)) half,
      low,
      bit_and-two_pow k (a / 2),
      ap (λ (t : ℕ). bit k (a / 2) * t) (pow-suc 2 k),
    )

-- One bit at place `j`.
pub bit-one_bit : (j k x : ℕ) → x ≤ 1 → k ≢ j → bit k (x * 2 ^ j) ≡ 0
bit-one_bit j k x h ne = elim (dec_lt k j) [
  | yes lt ↦ bit-shift_below j k x lt
  | no ge ↦
      let e : k ≡ j + suc (k - j - 1) = omega arith in
      ap (λ (t : ℕ). bit t (x * 2 ^ j)) e
      ∙ bit-shift j (suc (k - j - 1)) x
      ∙ ap (bit (k - j - 1)) (omega arith)
      ∙ bit-zero (k - j - 1)
]

pub bit-one_bit_self : (j x : ℕ) → x ≤ 1 → bit j (x * 2 ^ j) ≡ x
bit-one_bit_self j x h =
    let e : j ≡ j + 0 = omega arith in
    ap (λ (t : ℕ). bit t (x * 2 ^ j)) e ∙ bit-shift j 0 x ∙ omega arith

-- The lowest digit of `^`: 1 where the digits differ.
abbrev pub xor_bit : ℕ → ℕ → ℕ
xor_bit a b = (a + b) % 2

pub bit_xor_step : (a b : ℕ) → bit_xor a b ≡ bit_xor (a / 2) (b / 2) * 2 + xor_bit (a % 2) (b % 2)
bit_xor_step a b =
    omega (arith, low_digit_xor a b, differ-sum (a % 2) (b % 2) (omega arith) (omega arith))

pub bit-bit_xor : (k a b : ℕ) → bit k (bit_xor a b) ≡ xor_bit (bit k a) (bit k b)
bit-bit_xor zero a b = omega (arith, bit_xor_step a b)
bit-bit_xor (suc k) a b =
    let e : bit_xor a b / 2 ≡ bit_xor (a / 2) (b / 2) = omega (arith, bit_xor_step a b) in
    ap (bit k) e ∙ bit-bit_xor k (a / 2) (b / 2)

-- `^` of words is a word.
pub bit_xor-lt : (n a b : ℕ) → a < 2 ^ n → b < 2 ^ n → bit_xor a b < 2 ^ n
bit_xor-lt zero a b p q =
    let za : a ≡ 0 = omega arith in
    let zb : b ≡ 0 = omega arith in omega (arith, ap (λ (t : ℕ). bit_xor t b) za, ap (bit_xor 0) zb)
bit_xor-lt (suc n) a b p q = omega (
  arith,
  bit_xor_step a b,
  pow-suc 2 n,
  bit_xor-lt n (a / 2) (b / 2) (omega (arith, pow-suc 2 n)) (omega (arith, pow-suc 2 n)),
)
