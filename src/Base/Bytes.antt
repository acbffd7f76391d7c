-- ===== src/Base/Bytes.antt =====
-- Bytes joined to words and taken from them.
use Prim.Native.Nat.{ℕ, zero, suc, ◌+◌, ◌*◌, ◌/◌, ◌%◌, ◌^◌, ◌<◌, bit_and, bit_or}
use mathlib.Core.Path.{◌≡◌, ap}
use native.Mathlib.Nat.{pow-suc}
use native.Mathlib.Omega.{arith}
use osdp_roger_acs.Base.Digits.{low_digit_or}
use osdp_roger_acs.Base.Bits.{bit_and-le, bit-bit_and, bit-ones, bit-mod, bit-le-one, eq_of_bits}

pub bit_or-lt : (n a b : ℕ) → a < 2 ^ n → b < 2 ^ n → bit_or a b < 2 ^ n
bit_or-lt zero a b p q =
    let za : a ≡ 0 = omega arith in
    let zb : b ≡ 0 = omega arith in omega (arith, ap (λ (t : ℕ). bit_or t b) za, ap (bit_or 0) zb)
bit_or-lt (suc n) a b p q = omega (
  arith,
  low_digit_or a b,
  pow-suc 2 n,
  bit_or-lt n (a / 2) (b / 2) (omega (arith, pow-suc 2 n)) (omega (arith, pow-suc 2 n)),
)

bit_or-zero : (n a : ℕ) → a < 2 ^ n → bit_or a 0 ≡ a
bit_or-zero zero a h = let za : a ≡ 0 = omega arith in omega (arith, ap (λ (t : ℕ). bit_or t 0) za)
bit_or-zero (suc n) a h =
    omega (arith, low_digit_or a 0, bit_or-zero n (a / 2) (omega (arith, pow-suc 2 n)))

bit_or-double : (a l : ℕ) → bit_or a (l / 2) ≡ a + l / 2 → bit_or (a * 2) l ≡ a * 2 + l
bit_or-double a l h =
    let half : a * 2 / 2 ≡ a = omega arith in
    omega (arith, low_digit_or (a * 2) l, ap (λ (t : ℕ). bit_or t (l / 2)) half)

-- A high and a low byte together.
pub bit_or-bytes : (h l : ℕ) → h < 2 ^ 8 → l < 2 ^ 8 → bit_or (h * 2 ^ 8) l ≡ h * 2 ^ 8 + l
bit_or-bytes h l hh hl =
    let none_left : l / 2 / 2 / 2 / 2 / 2 / 2 / 2 / 2 ≡ 0 = omega arith in
    let start : bit_or h (l / 2 / 2 / 2 / 2 / 2 / 2 / 2 / 2)
        ≡ h + l / 2 / 2 / 2 / 2 / 2 / 2 / 2 / 2 =
      omega (arith, ap (bit_or h) none_left, bit_or-zero 8 h hh) in
    let shifted : h * 2 ^ 8 ≡ h * 2 * 2 * 2 * 2 * 2 * 2 * 2 * 2 = omega arith in
    rw shifted (
      bit_or-double _ l (
        bit_or-double _ (l / 2) (
          bit_or-double _ (l / 2 / 2) (
            bit_or-double _ (l / 2 / 2 / 2) (
              bit_or-double _ (l / 2 / 2 / 2 / 2) (
                bit_or-double _ (l / 2 / 2 / 2 / 2 / 2) (
                  bit_or-double _ (l / 2 / 2 / 2 / 2 / 2 / 2)
                    (bit_or-double h (l / 2 / 2 / 2 / 2 / 2 / 2 / 2) start))))))))

-- The low byte by a mask.
pub bit_and-byte : (x : ℕ) → bit_and x 0xff ≡ x % 2 ^ 8
bit_and-byte x =
    eq_of_bits 8 (bit_and x 0xff) (x % 2 ^ 8) (omega (arith, bit_and-le x 0xff)) (omega arith)
      (λ k lt.
        omega (arith, bit-bit_and k x 0xff, bit-ones 8 k lt, bit-mod 8 k x lt, bit-le-one k x))
