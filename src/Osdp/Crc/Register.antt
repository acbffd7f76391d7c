-- ===== src/Osdp/Crc/Register.antt =====
-- `fCrcBlk` of readers/osdp/osdp.c computes, by its table, the checksum of the polynomial 0x1021:
-- a shift register that takes the message one bit at a time.
pub mod Burst
use osdp_roger_acs.Base.{
  ℕ, zero, suc, ◌-◌, ◌*◌, ◌/◌, ◌%◌, ◌^◌, ◌≤◌, ◌<◌, ◌≡◌, refl, sym, ap, ◌∙◌, arith,
}
use mathlib.Core.Path.{ap₂}
use osdp_roger_acs.Base.{
  Bool-cases, inl, inr, List, [], ◌∷◌, Bool, true, false, ◌&&◌, ◌==◌, ==_iff, if◌then◌else◌,
}
use osdp_roger_acs.Base.{bit_and, bit_xor, u16, ◌>>>◌, get_or, bit, xor_bit, bit-bit_xor}
use osdp_roger_acs.Base.{
  bit_xor-lt, eq_of_bits, bit-mod, bit-le-one, bit_and-le, bit_and-ones, bit-shift_below, bit-zero,
}
use osdp_roger_acs.Base.{all_below, all_below-holds}
use native.Mathlib.Decide.{dec_lt}
use osdp_roger_acs.Osdp.Table.{crc16_table}
use osdp_roger_acs.Osdp.Crc.{crc_round, crc_from, f_crc_blk}
use osdp_roger_acs.Osdp.Crc.Shift.{
  crc_bits, crc_byte, crc_register, table_entry, low_byte, crc_bits-bit_xor, crc_bits-lt,
}

abbrev table_index : ℕ → ℕ → ℕ
table_index crc byte = bit_and (bit_xor (crc >>> 8) byte) 0xff

table_index-lt : (crc byte : ℕ) → table_index crc byte < 256
table_index-lt crc byte = omega (arith, bit_and-le (bit_xor (crc >>> 8) byte) 0xff)

module _ (crc byte : ℕ) (h : crc < 2 ^ 16) (b : byte < 2 ^ 8) where
  index_eq : table_index crc byte ≡ bit_xor (crc / 2 ^ 8) byte
  index_eq = bit_and-ones 8 _ (bit_xor-lt 8 (crc / 2 ^ 8) byte (omega arith) b)

  split_low :
      (k : ℕ)
      → k < 8
      → bit k (bit_xor crc (byte * 2 ^ 8))
        ≡ bit k (bit_xor (table_index crc byte * 2 ^ 8) (crc % 2 ^ 8))
  split_low k lt = omega (
    arith,
    bit-bit_xor k crc (byte * 2 ^ 8),
    bit-bit_xor k (table_index crc byte * 2 ^ 8) (crc % 2 ^ 8),
    bit-shift_below 8 k byte lt,
    bit-shift_below 8 k (table_index crc byte) lt,
    bit-mod 8 k crc lt,
  )

  split_high :
      (m : ℕ)
      → bit (suc (suc (suc (suc (suc (suc (suc (suc m)))))))) (bit_xor crc (byte * 2 ^ 8))
        ≡ bit
            (suc (suc (suc (suc (suc (suc (suc (suc m))))))))
            (bit_xor (table_index crc byte * 2 ^ 8) (crc % 2 ^ 8))
  split_high m =
      let index = table_index crc byte in
      let top : bit (suc (suc (suc (suc (suc (suc (suc (suc m)))))))) (index * 2 ^ 8)
          ≡ bit m index =
        ap (bit m) (omega arith) in
      let gone : bit (suc (suc (suc (suc (suc (suc (suc (suc m)))))))) (crc % 2 ^ 8) ≡ 0 =
        ap (bit m) (omega arith) ∙ bit-zero m in
      bit-bit_xor (suc (suc (suc (suc (suc (suc (suc (suc m)))))))) crc (byte * 2 ^ 8)
      ∙ ap₂ xor_bit {x = bit m _} (ap (bit m) (omega arith)) (ap (bit m) (omega arith))
      ∙ sym (bit-bit_xor m (crc / 2 ^ 8) byte)
      ∙ ap (bit m) (sym index_eq)
      ∙ omega (
        arith,
        bit-bit_xor (suc (suc (suc (suc (suc (suc (suc (suc m)))))))) (index * 2 ^ 8) (crc % 2 ^ 8),
        top,
        gone,
        bit-le-one m index,
      )

  -- A register and a byte at its top, as a high and a low byte.
  split_register : bit_xor crc (byte * 2 ^ 8) ≡ bit_xor (table_index crc byte * 2 ^ 8) (crc % 2 ^ 8)
  split_register =
      eq_of_bits 16 (bit_xor crc (byte * 2 ^ 8)) _
        (bit_xor-lt 16 crc (byte * 2 ^ 8) h (omega arith))
        (bit_xor-lt 16 (table_index crc byte * 2 ^ 8) (crc % 2 ^ 8)
          (omega (arith, table_index-lt crc byte)) (omega arith))
        (λ k _. elim (dec_lt k 8) [
          | yes lt ↦ split_low k lt
          | no ge ↦
              let m : ℕ = k - 8 in
              let e : k ≡ suc (suc (suc (suc (suc (suc (suc (suc m))))))) = omega arith in
              rw e (split_high m)
        ])

  -- The high byte of the register is shifted out.
  shift_out : (t : ℕ) → t < 2 ^ 16 → u16 (bit_xor (crc * 2 ^ 8) t) ≡ bit_xor t (crc % 2 ^ 8 * 2 ^ 8)
  shift_out t fits =
      eq_of_bits 16 _ _ (omega arith) (bit_xor-lt 16 t (crc % 2 ^ 8 * 2 ^ 8) fits (omega arith))
        (λ k lt.
          let same : crc * 2 ^ 8 % 2 ^ 16 ≡ crc % 2 ^ 8 * 2 ^ 8 = omega arith in
          omega (
            arith,
            bit-mod 16 k (bit_xor (crc * 2 ^ 8) t) lt,
            bit-bit_xor k (crc * 2 ^ 8) t,
            bit-bit_xor k t (crc % 2 ^ 8 * 2 ^ 8),
            bit-mod 16 k (crc * 2 ^ 8) lt,
            ap (bit k) same,
          ))

  -- One round by the table is one byte of the register.
  pub crc_round-eq : crc_round crc byte ≡ crc_byte crc byte
  unfolding crc_round crc_byte
  crc_round-eq =
      let index = table_index crc byte in
      let low = crc % 2 ^ 8 in
      let entry = table_entry index (table_index-lt crc byte) in
      ap (λ (t : ℕ). u16 (bit_xor (crc * 2 ^ 8) t)) entry
      ∙ shift_out (crc_bits 8 (index * 2 ^ 8))
          (crc_bits-lt 8 _ (omega (arith, table_index-lt crc byte)))
      ∙ sym (
          ap (crc_bits 8) split_register
          ∙ crc_bits-bit_xor 8 (index * 2 ^ 8) low (omega (arith, table_index-lt crc byte))
              (omega arith)
          ∙ ap (bit_xor (crc_bits 8 (index * 2 ^ 8))) (low_byte low (omega arith)))

pub crc_byte-lt : (crc byte : ℕ) → crc < 2 ^ 16 → byte < 2 ^ 8 → crc_byte crc byte < 2 ^ 16
unfolding crc_byte
crc_byte-lt crc byte h b = crc_bits-lt 8 _ (bit_xor-lt 16 crc (byte * 2 ^ 8) h (omega arith))

-- All bytes of a list.
abbrev pub AreBytes : List ℕ → Type 0
AreBytes [] = Unit
AreBytes (b ∷ bs) = (b < 256) × AreBytes bs

crc_from-eq :
    (crc : ℕ) (bytes : List ℕ)
    → crc < 2 ^ 16
    → AreBytes bytes
    → crc_from crc bytes ≡ crc_register crc bytes
unfolding crc_from crc_register
crc_from-eq crc [] h b = refl
crc_from-eq crc (x ∷ bytes) h b =
    let same = crc_round-eq crc x h b.0 in
    ap (λ (c : ℕ). crc_from c bytes) same
    ∙ crc_from-eq (crc_byte crc x) bytes (crc_byte-lt crc x h b.0) b.1

-- The table-driven checksum of any message of bytes is that of the bit-by-bit shift register.
pub f_crc_blk-eq : (bytes : List ℕ) → AreBytes bytes → f_crc_blk bytes ≡ crc_register 0x1D0F bytes
unfolding f_crc_blk
f_crc_blk-eq bytes b = crc_from-eq 0x1D0F bytes (omega arith) b

crc_from-lt : (crc : ℕ) (bytes : List ℕ) → crc < 2 ^ 16 → crc_from crc bytes < 2 ^ 16
unfolding crc_from crc_round
crc_from-lt crc [] h = h
crc_from-lt crc (x ∷ bytes) h = crc_from-lt (crc_round crc x) bytes (omega arith)

pub f_crc_blk-lt : (bytes : List ℕ) → f_crc_blk bytes < 2 ^ 16
unfolding f_crc_blk
f_crc_blk-lt bytes = crc_from-lt 0x1D0F bytes (omega arith)
