-- ===== src/Osdp/Crc/Register/Burst.antt =====
-- What the checksum of readers/osdp/osdp.c detects.
use osdp_roger_acs.Base.{
  ℕ, zero, suc, ◌*◌, ◌^◌, ◌≤◌, ◌<◌, ◌≡◌, sym, ap, ◌∙◌, arith, List, [], ◌∷◌, ◌++◌,
}
use osdp_roger_acs.Base.{bit_xor, bit, xor_bit, bit-bit_xor, bit_xor-lt, eq_of_bits, bit-le-one}
use osdp_roger_acs.Base.{bit-shift_below}
use native.Mathlib.Decide.{dec_lt}
use osdp_roger_acs.Base.{◌≢◌, ◌⊎◌, inl, inr}
use osdp_roger_acs.Osdp.Crc.{f_crc_blk}
use osdp_roger_acs.Osdp.Crc.Register.{AreBytes, f_crc_blk-eq}
use osdp_roger_acs.Osdp.Crc.Shift.{crc_bit, crc_bits, crc_byte, crc_register}
use osdp_roger_acs.Osdp.Crc.Register.{crc_byte-lt}
use osdp_roger_acs.Osdp.Crc.Shift.{
  bit-crc_bit, bit-doubled, crc_bit-lt, crc_bits-bit_xor, crc_bits-lt, low_byte,
}

xor_bit-cancel : (a b c : ℕ) → a ≤ 1 → b ≤ 1 → xor_bit a c ≡ xor_bit b c → a ≡ b
xor_bit-cancel a b c ha hb h = omega arith

crc_bit-inj : (x y : ℕ) → x < 2 ^ 16 → y < 2 ^ 16 → crc_bit x ≡ crc_bit y → x ≡ y
crc_bit-inj x y hx hy h =
    let step : (k : ℕ)
        → k < 16
        → xor_bit (bit k (x * 2)) (bit 15 x * bit k 0x1021)
          ≡ xor_bit (bit k (y * 2)) (bit 15 y * bit k 0x1021) =
      λ k lt. sym (bit-crc_bit k x lt hx) ∙ ap (bit k) h ∙ bit-crc_bit k y lt hy in
    let top : bit 15 x ≡ bit 15 y =
      omega (arith, step 0 (omega arith), bit-le-one 15 x, bit-le-one 15 y) in
    eq_of_bits 16 x y hx hy (λ k lt. elim (dec_lt k 15) [
      | yes below ↦
          let p = bit (suc k) 0x1021 in
          xor_bit-cancel (bit k x) (bit k y) (bit 15 y * p) (bit-le-one k x) (bit-le-one k y) (
            omega (
              arith,
              step (suc k) (omega arith),
              bit-doubled k x,
              bit-doubled k y,
              ap (λ (t : ℕ). t * p) top,
            ))
      | no above ↦ let last : k ≡ 15 = omega arith in rw last top
    ])

crc_bits-inj : (n x y : ℕ) → x < 2 ^ 16 → y < 2 ^ 16 → crc_bits n x ≡ crc_bits n y → x ≡ y
unfolding crc_bits
crc_bits-inj zero x y hx hy h = h
crc_bits-inj (suc n) x y hx hy h =
    crc_bit-inj x y hx hy (crc_bits-inj n (crc_bit x) (crc_bit y) (crc_bit-lt x) (crc_bit-lt y) h)

bit_xor-cancel-right : (x y c : ℕ) → x < 2 ^ 16 → y < 2 ^ 16 → bit_xor x c ≡ bit_xor y c → x ≡ y
bit_xor-cancel-right x y c hx hy h = eq_of_bits 16 x y hx hy (λ k lt.
    xor_bit-cancel (bit k x) (bit k y) (bit k c) (bit-le-one k x) (bit-le-one k y)
      (omega (arith, bit-bit_xor k x c, bit-bit_xor k y c, ap (bit k) h)))

bit_xor-cancel-left : (c x y : ℕ) → x < 2 ^ 16 → y < 2 ^ 16 → bit_xor c x ≡ bit_xor c y → x ≡ y
bit_xor-cancel-left c x y hx hy h = eq_of_bits 16 x y hx hy (λ k lt.
    xor_bit-cancel (bit k x) (bit k y) (bit k c) (bit-le-one k x) (bit-le-one k y)
      (omega (arith, bit-bit_xor k c x, bit-bit_xor k c y, ap (bit k) h)))

crc_byte-inj : (x y c : ℕ) → x < 2 ^ 16 → y < 2 ^ 16 → c < 256 → crc_byte x c ≡ crc_byte y c → x ≡ y
unfolding crc_byte
crc_byte-inj x y c hx hy hc h =
    let inside : (z : ℕ) → z < 2 ^ 16 → bit_xor z (c * 2 ^ 8) < 2 ^ 16 =
      λ z hz. bit_xor-lt 16 z (c * 2 ^ 8) hz (omega arith) in
    bit_xor-cancel-right x y (c * 2 ^ 8) hx hy (crc_bits-inj 8 _ _ (inside x hx) (inside y hy) h)

-- Registers that differ stay different.
crc_register-inj :
    (x y : ℕ) (bytes : List ℕ)
    → x < 2 ^ 16
    → y < 2 ^ 16
    → AreBytes bytes
    → crc_register x bytes ≡ crc_register y bytes
    → x ≡ y
unfolding crc_register
crc_register-inj x y [] hx hy b h = h
crc_register-inj x y (c ∷ bytes) hx hy b h = crc_byte-inj x y c hx hy b.0 (
    crc_register-inj (crc_byte x c) (crc_byte y c) bytes (crc_byte-lt x c hx b.0)
      (crc_byte-lt y c hy b.0) b.1 h)

-- Two bytes taken in, as one word.
two_bytes :
    (crc a b : ℕ)
    → crc < 2 ^ 16
    → a < 256
    → b < 256
    → crc_byte (crc_byte crc a) b ≡ crc_bits 8 (crc_bits 8 (bit_xor (bit_xor crc (a * 2 ^ 8)) b))
unfolding crc_byte
two_bytes crc a b h ha hb =
    let word = bit_xor crc (a * 2 ^ 8) in
    let fits : word < 2 ^ 16 = bit_xor-lt 16 crc (a * 2 ^ 8) h (omega arith) in
    ap (crc_bits 8) (
      ap (bit_xor (crc_bits 8 word)) (sym (low_byte b hb))
      ∙ sym (crc_bits-bit_xor 8 word b fits (omega arith)))

module _ (crc a b c d : ℕ) (h : crc < 2 ^ 16) (ha : a < 256) (hb : b < 256) (hc : c < 256)
    (hd : d < 256) where
  same_word :
      crc_byte (crc_byte crc a) b ≡ crc_byte (crc_byte crc c) d
      → bit_xor (bit_xor crc (a * 2 ^ 8)) b ≡ bit_xor (bit_xor crc (c * 2 ^ 8)) d
  same_word e =
      let word : (x y : ℕ) → x < 256 → y < 256 → bit_xor (bit_xor crc (x * 2 ^ 8)) y < 2 ^ 16 =
        λ x y hx hy.
          bit_xor-lt 16 (bit_xor crc (x * 2 ^ 8)) y (bit_xor-lt 16 crc (x * 2 ^ 8) h (omega arith))
            (omega arith) in
      crc_bits-inj 8 _ _ (word a b ha hb) (word c d hc hd) (
        crc_bits-inj 8 _ _ (crc_bits-lt 8 _ (word a b ha hb)) (crc_bits-lt 8 _ (word c d hc hd))
          (sym (two_bytes crc a b h ha hb) ∙ e ∙ two_bytes crc c d h hc hd))

  low_same : bit_xor (bit_xor crc (a * 2 ^ 8)) b ≡ bit_xor (bit_xor crc (c * 2 ^ 8)) d → b ≡ d
  low_same e = eq_of_bits 8 b d hb hd (λ k lt.
      xor_bit-cancel (bit k b) (bit k d) (bit k crc) (bit-le-one k b) (bit-le-one k d) (
        omega (
          arith,
          ap (bit k) e,
          bit-bit_xor k (bit_xor crc (a * 2 ^ 8)) b,
          bit-bit_xor k (bit_xor crc (c * 2 ^ 8)) d,
          bit-bit_xor k crc (a * 2 ^ 8),
          bit-bit_xor k crc (c * 2 ^ 8),
          bit-shift_below 8 k a lt,
          bit-shift_below 8 k c lt,
        )))

  both_same : crc_byte (crc_byte crc a) b ≡ crc_byte (crc_byte crc c) d → (a ≡ c) × (b ≡ d)
  both_same e =
      let word = same_word e in
      let low = low_same word in
      let word' : bit_xor (bit_xor crc (a * 2 ^ 8)) b ≡ bit_xor (bit_xor crc (c * 2 ^ 8)) b =
        word ∙ ap (bit_xor (bit_xor crc (c * 2 ^ 8))) (sym low) in
      let inner : bit_xor crc (a * 2 ^ 8) ≡ bit_xor crc (c * 2 ^ 8) =
        bit_xor-cancel-right _ _ b (bit_xor-lt 16 crc (a * 2 ^ 8) h (omega arith))
          (bit_xor-lt 16 crc (c * 2 ^ 8) h (omega arith)) word' in
      let high : a * 2 ^ 8 ≡ c * 2 ^ 8 =
        bit_xor-cancel-left crc _ _ (omega arith) (omega arith) inner in
      (omega arith, low)

-- Both messages start alike, and the bytes after the two that may differ are alike.
register_detects :
    (crc a b c d : ℕ) (before after : List ℕ)
    → crc < 2 ^ 16
    → AreBytes (before ++ a ∷ b ∷ after)
    → c < 256
    → d < 256
    → crc_register crc (before ++ a ∷ b ∷ after) ≡ crc_register crc (before ++ c ∷ d ∷ after)
    → (a ≡ c) × (b ≡ d)
unfolding crc_register
register_detects crc a b c d [] after h all hc hd e = both_same crc a b c d h all.0 all.1.0 hc hd (
    crc_register-inj _ _ after (crc_byte-lt _ b (crc_byte-lt crc a h all.0) all.1.0)
      (crc_byte-lt _ d (crc_byte-lt crc c h hc) hd) all.1.1 e)
register_detects crc a b c d (x ∷ before) after h all hc hd e =
    register_detects (crc_byte crc x) a b c d before after (crc_byte-lt crc x h all.0) all.1 hc hd e

with_bytes :
    (a b c d : ℕ) (before after : List ℕ)
    → AreBytes (before ++ a ∷ b ∷ after)
    → c < 256
    → d < 256
    → AreBytes (before ++ c ∷ d ∷ after)
with_bytes a b c d [] after all hc hd = (hc, (hd, all.1.1))
with_bytes a b c d (x ∷ before) after all hc hd =
    (all.0, with_bytes a b c d before after all.1 hc hd)

burst_inj :
    (a b c d : ℕ) (before after : List ℕ)
    → AreBytes (before ++ a ∷ b ∷ after)
    → c < 256
    → d < 256
    → f_crc_blk (before ++ a ∷ b ∷ after) ≡ f_crc_blk (before ++ c ∷ d ∷ after)
    → (a ≡ c) × (b ≡ d)
burst_inj a b c d before after all hc hd e =
    register_detects 0x1D0F a b c d before after (omega arith) all hc hd (
      sym (f_crc_blk-eq (before ++ a ∷ b ∷ after) all)
      ∙ e
      ∙ f_crc_blk-eq (before ++ c ∷ d ∷ after) (with_bytes a b c d before after all hc hd))

-- The checksum detects every change of one byte or of two adjacent bytes: two messages of bytes that
-- differ there, and nowhere else, have different checksums.
pub detects_burst :
    (a b c d : ℕ) (before after : List ℕ)
    → AreBytes (before ++ a ∷ b ∷ after)
    → c < 256
    → d < 256
    → (a ≢ c) ⊎ (b ≢ d)
    → f_crc_blk (before ++ a ∷ b ∷ after) ≢ f_crc_blk (before ++ c ∷ d ∷ after)
detects_burst a b c d before after all hc hd (inl differ) e =
    differ (burst_inj a b c d before after all hc hd e).0
detects_burst a b c d before after all hc hd (inr differ) e =
    differ (burst_inj a b c d before after all hc hd e).1
