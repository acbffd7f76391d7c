-- ===== src/Osdp/Crc/Shift.antt =====
-- The shift register of the polynomial 0x1021, and the table of readers/osdp/crctable.c.
use osdp_roger_acs.Base.{ℕ, zero, suc, ◌*◌, ◌/◌, ◌^◌, ◌≤◌, ◌<◌, ◌≡◌, refl, sym, ap, ◌∙◌, arith}
use mathlib.Core.Path.{ap₂}
use osdp_roger_acs.Base.{
  Bool-cases, inl, inr, List, [], ◌∷◌, Bool, true, ◌==◌, ==_iff, if◌then◌else◌,
}
use osdp_roger_acs.Base.{bit_xor, u16, get_or, bit, xor_bit, bit-bit_xor}
use osdp_roger_acs.Base.{bit_xor-lt, eq_of_bits, bit-mod, bit-le-one}
use osdp_roger_acs.Base.{all_below, all_below-holds}
use osdp_roger_acs.Osdp.Table.{crc16_table}

-- One step of the register: the bit that is shifted out decides whether the polynomial is added.
pub crc_bit : ℕ → ℕ
crc_bit x = if x / 2 ^ 15 == 1 then bit_xor (u16 (x * 2)) 0x1021 else u16 (x * 2)

unfoldable pub crc_bits : ℕ → ℕ → ℕ
crc_bits zero x = x
crc_bits (suc n) x = crc_bits n (crc_bit x)

-- The register takes in a byte at its top, and steps eight times.
unfoldable pub crc_byte : ℕ → ℕ → ℕ
crc_byte crc byte = crc_bits 8 (bit_xor crc (byte * 2 ^ 8))

unfoldable pub crc_register : ℕ → List ℕ → ℕ
crc_register crc [] = crc
crc_register crc (b ∷ bs) = crc_register (crc_byte crc b) bs

abbrev entry_holds : ℕ → Bool
entry_holds b = get_or crc16_table b 0 == crc_bits 8 (b * 2 ^ 8)

abbrev low_holds : ℕ → Bool
low_holds b = crc_bits 8 b == b * 2 ^ 8

entries : all_below 256 entry_holds ≡ true
unfolding all_below crc16_table crc_bits crc_bit
entries = refl

lows : all_below 256 low_holds ≡ true
unfolding all_below crc_bits crc_bit
lows = refl

-- Each entry of the table is what the register makes of a byte at its top.
pub table_entry : (b : ℕ) → b < 256 → get_or crc16_table b 0 ≡ crc_bits 8 (b * 2 ^ 8)
table_entry b h = (==_iff _ _).0 (all_below-holds 256 entry_holds b entries h)

-- A low byte is shifted to the top with no polynomial added.
pub low_byte : (b : ℕ) → b < 256 → crc_bits 8 b ≡ b * 2 ^ 8
low_byte b h = (==_iff _ _).0 (all_below-holds 256 low_holds b lows h)

pub crc_bit-lt : (x : ℕ) → crc_bit x < 2 ^ 16
unfolding crc_bit
crc_bit-lt x = ground (arith, bit_xor-lt 16 (u16 (x * 2)) 0x1021)

pub bit-crc_bit :
    (k x : ℕ)
    → k < 16
    → x < 2 ^ 16
    → bit k (crc_bit x) ≡ xor_bit (bit k (x * 2)) (bit 15 x * bit k 0x1021)
unfolding crc_bit
bit-crc_bit k x h fits =
    let top : bit 15 x ≡ x / 2 ^ 15 = omega arith in
    let doubled : bit k (u16 (x * 2)) ≡ bit k (x * 2) = bit-mod 16 k (x * 2) h in
    let added = ap (λ (t : ℕ). t * bit k 0x1021) top in
    elim (Bool-cases (x / 2 ^ 15 == 1)) [
      | inl e ↦
          let one : x / 2 ^ 15 ≡ 1 = (==_iff _ 1).0 e in
          rw (e, crc_bit)
            (omega (
              arith,
              bit-bit_xor k (u16 (x * 2)) 0x1021,
              doubled,
              added,
              ap (λ (t : ℕ). t * bit k 0x1021) one,
            ))
      | inr e ↦
          let none_out : x / 2 ^ 15 ≡ 0 = ground arith in
          rw (e, crc_bit)
            (omega (
              arith,
              doubled,
              added,
              ap (λ (t : ℕ). t * bit k 0x1021) none_out,
              bit-le-one k (x * 2),
            ))
    ]

pub bit-doubled : (k x : ℕ) → bit (suc k) (x * 2) ≡ bit k x
bit-doubled k x = ap (bit k) (omega arith)

-- Adding the polynomial twice is adding it as often as the bits say, mod 2.
xor_bit-products :
    (a b c d p : ℕ)
    → p ≤ 1
    → xor_bit (xor_bit a b) (xor_bit c d * p) ≡ xor_bit (xor_bit a (c * p)) (xor_bit b (d * p))
xor_bit-products a b c d zero h = omega arith
xor_bit-products a b c d (suc zero) h = omega arith
xor_bit-products a b c d (suc (suc p)) h = absurd (omega arith)

bit-double : (k x y : ℕ) → bit k (bit_xor x y * 2) ≡ xor_bit (bit k (x * 2)) (bit k (y * 2))
bit-double zero x y = omega arith
bit-double (suc k) x y =
    omega (arith, bit-doubled k (bit_xor x y), bit-doubled k x, bit-doubled k y, bit-bit_xor k x y)

-- The step is linear over `^`.
crc_bit-bit_xor :
    (x y : ℕ) → x < 2 ^ 16 → y < 2 ^ 16 → crc_bit (bit_xor x y) ≡ bit_xor (crc_bit x) (crc_bit y)
crc_bit-bit_xor x y hx hy =
    eq_of_bits 16 (crc_bit (bit_xor x y)) (bit_xor (crc_bit x) (crc_bit y)) (crc_bit-lt _)
      (bit_xor-lt 16 (crc_bit x) (crc_bit y) (crc_bit-lt x) (crc_bit-lt y))
      (λ k h.
        bit-crc_bit k (bit_xor x y) h (bit_xor-lt 16 x y hx hy)
        ∙ ap₂ (λ (a b : ℕ). xor_bit a (b * bit k 0x1021)) (bit-double k x y) (bit-bit_xor 15 x y)
        ∙ xor_bit-products (bit k (x * 2)) (bit k (y * 2)) (bit 15 x) (bit 15 y) (bit k 0x1021)
            (bit-le-one k 0x1021)
        ∙ sym (
            bit-bit_xor k (crc_bit x) (crc_bit y)
            ∙ ap₂ xor_bit (bit-crc_bit k x h hx) (bit-crc_bit k y h hy)))

pub crc_bits-bit_xor :
    (n x y : ℕ)
    → x < 2 ^ 16
    → y < 2 ^ 16
    → crc_bits n (bit_xor x y) ≡ bit_xor (crc_bits n x) (crc_bits n y)
unfolding crc_bits
crc_bits-bit_xor zero x y hx hy = refl
crc_bits-bit_xor (suc n) x y hx hy =
    ap (crc_bits n) (crc_bit-bit_xor x y hx hy)
    ∙ crc_bits-bit_xor n (crc_bit x) (crc_bit y) (crc_bit-lt x) (crc_bit-lt y)

pub crc_bits-lt : (n x : ℕ) → x < 2 ^ 16 → crc_bits n x < 2 ^ 16
unfolding crc_bits
crc_bits-lt zero x h = h
crc_bits-lt (suc n) x h = crc_bits-lt n (crc_bit x) (crc_bit-lt x)
