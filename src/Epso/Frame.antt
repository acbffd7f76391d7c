-- ===== src/Epso/Frame.antt =====
-- `epso_write` of readers/epso/epso.c: the frame of a request.
use osdp_roger_acs.Base.{
  ℕ, zero, suc, ◌-◌, ◌/◌, ◌%◌, ◌<◌, ◌≡◌, ◌≢◌, refl, ap, ◌∙◌, inl, inr, arith, List, [], ◌∷◌, ◌++◌,
  some,
}
use osdp_roger_acs.Base.{
  length, length-append, set, set-append, Bool-cases, ◌==◌, ltb, true, false, drop,
}
use osdp_roger_acs.CString.{dec, digits_on, digit_code, hex_byte}
use osdp_roger_acs.Epso.{
  epso_checksum, epso_write, request_text, dec2, soh, stx, etx, epso_read, reads, read_rest,
  skip_zeros, bytes_read,
}
use osdp_roger_acs.Epso.Answer.{answer, check_answer-answer}

-- A text of two digits.
abbrev TwoDigits : List ℕ → Type 0
TwoDigits s = (d : ℕ) × (e : ℕ) × (s ≡ d ∷ e ∷ [])

dec2-TwoDigits : (n : ℕ) → n < 100 → TwoDigits (dec2 n)
unfolding dec2 dec digits_on
dec2-TwoDigits zero h = (b'0', b'0', refl)
dec2-TwoDigits (suc n) h = elim (Bool-cases (ltb (suc n) 10)) [
  | inl e ↦ (b'0', digit_code b'a' (suc n % 10), rw e refl)
  | inr e ↦
      let low : ltb (suc n / 10) 10 ≡ true = ground arith in
      (digit_code b'a' (suc n / 10 % 10), digit_code b'a' (suc n % 10), rw (e, low) refl)
]

hex_byte-TwoDigits : (n : ℕ) → n < 256 → TwoDigits (hex_byte n)
unfolding hex_byte digits_on
hex_byte-TwoDigits n h = elim (Bool-cases (ltb n 16)) [
  | inl e ↦ (b'0', digit_code b'A' (n % 16), rw e refl)
  | inr e ↦
      let low : ltb (n / 16) 16 ≡ true = ground arith in
      (digit_code b'A' (n / 16 % 16), digit_code b'A' (n % 16), rw (e, low) refl)
]

digits_on-grows : (ten base fuel n c : ℕ) (out : List ℕ) → digits_on ten base fuel n (c ∷ out) ≢ []
unfolding digits_on
digits_on-grows ten base zero n c out h = absurd (ground (arith, h))
digits_on-grows ten base (suc fuel) n c out h = elim (Bool-cases (ltb n base)) [
  | inl e ↦ absurd (ground (arith, rw e at h))
  | inr e ↦ digits_on-grows ten base fuel (n / base) _ (c ∷ out) (rw e at h)
]

digits_on-nonempty : (ten base fuel n : ℕ) (out : List ℕ) → digits_on ten base (suc fuel) n out ≢ []
unfolding digits_on
digits_on-nonempty ten base fuel n out h = elim (Bool-cases (ltb n base)) [
  | inl e ↦ absurd (ground (arith, rw e at h))
  | inr e ↦ digits_on-grows ten base fuel (n / base) _ out (rw e at h)
]

dec-nonempty : (n : ℕ) → dec n ≢ []
unfolding dec digits_on
dec-nonempty n h = digits_on-nonempty b'a' 10 n n [] h

-- The header of a request to an address below 100: the start, `S`, the address and the function.
abbrev pub header : ℕ → ℕ → List ℕ
header addr func = b'S' ∷ (dec2 addr ++ (hex_byte func ++ stx ∷ []))

-- The bytes that `epso_write` puts in place of the underscores.
marked :
    (d e g h : ℕ) (text : List ℕ)
    → let t = b'_' ∷ b'S' ∷ d ∷ e ∷ g ∷ h ∷ b'_' ∷ (text ++ b'_' ∷ []) in
      set (set (set t 0 soh) 6 stx) (length t - 1) etx
      ≡ soh ∷ b'S' ∷ d ∷ e ∷ g ∷ h ∷ stx ∷ (text ++ etx ∷ [])
marked d e g h text =
    let t = soh ∷ b'S' ∷ d ∷ e ∷ g ∷ h ∷ stx ∷ (text ++ b'_' ∷ []) in
    let at_end : length t - 1 ≡ length (soh ∷ b'S' ∷ d ∷ e ∷ g ∷ h ∷ stx ∷ text) =
      omega (arith, length-append {0} text (b'_' ∷ [])) in
    ap (λ (k : ℕ). set t k etx) at_end
    ∙ set-append (soh ∷ b'S' ∷ d ∷ e ∷ g ∷ h ∷ stx ∷ text) [] b'_' etx

-- A request to an address below 100, for a function other than 0xFF, is framed as an answer is:
-- header, start of text, the value in decimal, end of text and checksum.
epso_write-answer :
    (addr func value : ℕ)
    → addr < 100
    → func < 255
    → epso_write addr func value ≡ answer soh (header addr func) (dec value)
unfolding epso_write request_text
epso_write-answer addr func value a f =
    let (d, e, two) = dec2-TwoDigits addr a in
    let (g, h, hex) = hex_byte-TwoDigits func (omega arith) in
    let other : (func == 0xFF) ≡ false = ground arith in
    rw (two, hex, other)
      (ap (λ (f : List ℕ). f ++ epso_checksum f ∷ []) (marked d e g h (dec value)))

-- A request that is read back is accepted as an answer: for an address below 100 and a function other
-- than 0xFF, the bytes that `epso_write` writes pass every check of `epso_write_read`, which returns
-- the number of digits of the value and leaves these digits in front of the buffer.
pub epso_write-epso_read :
    (addr func value : ℕ) (buf : List ℕ)
    → addr < 100
    → func < 255
    → let sent = epso_write addr func value in
      epso_read (reads (some sent) []) buf
      ≡ some (
        bytes_read (length (dec value)),
        dec value ++ drop (length (dec value)) (sent ++ drop (length sent) buf),
      )
unfolding epso_read read_rest skip_zeros
epso_write-epso_read addr func value buf a f =
    let (d, e, two) = dec2-TwoDigits addr a in
    let (g, h, hex) = hex_byte-TwoDigits func (omega arith) in
    let six : length (header addr func) ≡ 6 = rw (two, hex) refl in
    rw (epso_write-answer addr func value a f)
      (ap some (check_answer-answer soh (header addr func) (dec value) _ six (dec-nonempty value)))
