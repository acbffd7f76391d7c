-- ===== src/Roger/Digits.antt =====
-- The digits in which the reader of readers/reader-roger.c sends a card.
use osdp_roger_acs.Base.{
  ℕ, ◌+◌, ◌*◌, ◌/◌, ◌%◌, ◌≤◌, ◌<◌, ◌≡◌, ◌≢◌, refl, ap, ◌∙◌, arith, List, [], ◌∷◌, ◌++◌,
}
use osdp_roger_acs.Base.{length, length-append, ◌==◌, ltb, true, false}
use osdp_roger_acs.CString.{digit_value, digit_code, scan_digits, c_string, skip_spaces, starts_hex}
use osdp_roger_acs.Roger.{bytes_of}

-- A hexadecimal digit.
abbrev pub IsHex : ℕ → Type 0
IsHex c = digit_value c < 16

abbrev pub AllHex : List ℕ → Type 0
AllHex [] = Unit
AllHex (c ∷ s) = IsHex c × AllHex s

-- The number of the bytes of a card, the lowest first, and its text, the highest first.
unfoldable pub card_number : List ℕ → ℕ
card_number [] = 0
card_number (b ∷ bytes) = card_number bytes * 256 + b

unfoldable pub card_digits : List ℕ → List ℕ
card_digits [] = []
card_digits (b ∷ bytes) =
    card_digits bytes ++ (digit_code b'A' (b / 16) ∷ digit_code b'A' (b % 16) ∷ [])

abbrev pub AllBytes : List ℕ → Type 0
AllBytes [] = Unit
AllBytes (b ∷ bytes) = (b < 256) × AllBytes bytes

digit_value-digit_code : (d : ℕ) → d < 16 → digit_value (digit_code b'A' d) ≡ d
unfolding digit_value
digit_value-digit_code d h = ground arith

scan_digits-append :
    (n : ℕ) (s t : List ℕ)
    → AllHex s
    → scan_digits 16 n (s ++ t) ≡ scan_digits 16 (scan_digits 16 n s) t
unfolding scan_digits
scan_digits-append n [] t h = refl
scan_digits-append n (c ∷ s) t (h, hs) =
    let e : ltb (digit_value c) 16 ≡ true = ground arith in
    rw e (scan_digits-append (n * 16 + digit_value c) s t hs)

AllHex-append : (s t : List ℕ) → AllHex s → AllHex t → AllHex (s ++ t)
AllHex-append [] t h k = k
AllHex-append (c ∷ s) t (h, hs) k = (h, AllHex-append s t hs k)

pub card_digits-AllHex : (bytes : List ℕ) → AllBytes bytes → AllHex (card_digits bytes)
unfolding card_digits
card_digits-AllHex [] h = tt
card_digits-AllHex (b ∷ bytes) (h, hs) =
    let high = digit_value-digit_code (b / 16) (omega arith) in
    let low = digit_value-digit_code (b % 16) (omega arith) in
    AllHex-append (card_digits bytes) _ (card_digits-AllHex bytes hs)
      (omega (arith, high), (omega (arith, low), tt))

pub length-card_digits : (bytes : List ℕ) → length (card_digits bytes) ≡ 2 * length bytes
unfolding card_digits
length-card_digits [] = refl
length-card_digits (b ∷ bytes) = omega (
  arith,
  length-card_digits bytes,
  length-append {0} (card_digits bytes) (digit_code b'A' (b / 16) ∷ digit_code b'A' (b % 16) ∷ []),
)

scan-two :
    (n d e : ℕ)
    → d < 16
    → e < 16
    → scan_digits 16 n (digit_code b'A' d ∷ digit_code b'A' e ∷ []) ≡ (n * 16 + d) * 16 + e
unfolding scan_digits
scan-two n d e h k =
    let high = digit_value-digit_code d h in
    let low = digit_value-digit_code e k in
    let f : ltb d 16 ≡ true = ground arith in
    let g : ltb e 16 ≡ true = ground arith in rw (high, low) (rw (f, g) refl)

pub scan-card_digits :
    (bytes : List ℕ) → AllBytes bytes → scan_digits 16 0 (card_digits bytes) ≡ card_number bytes
unfolding card_digits card_number scan_digits
scan-card_digits [] h = refl
scan-card_digits (b ∷ bytes) (h, hs) =
    scan_digits-append 0 (card_digits bytes) _ (card_digits-AllHex bytes hs)
    ∙ (ap (λ (n : ℕ). scan_digits 16 n (digit_code b'A' (b / 16) ∷ digit_code b'A' (b % 16) ∷ []))
          (scan-card_digits bytes hs)
        ∙ (scan-two (card_number bytes) (b / 16) (b % 16) (omega arith) (omega arith)
            ∙ omega arith))

pub bytes_of-card_number :
    (bytes : List ℕ) → AllBytes bytes → bytes_of (length bytes) (card_number bytes) ≡ bytes
unfolding bytes_of card_number
bytes_of-card_number [] h = refl
bytes_of-card_number (b ∷ bytes) (h, hs) =
    let low : (card_number bytes * 256 + b) % 256 ≡ b = omega arith in
    let rest : (card_number bytes * 256 + b) / 256 ≡ card_number bytes = omega arith in
    rw (low, rest) (ap (◌∷◌ b) (bytes_of-card_number bytes hs))

hex-code : (c : ℕ) → IsHex c → (48 ≤ c) × (c ≤ 102) × (c ≢ 58) × (c ≢ 88)
unfolding digit_value
hex-code c h = (ground arith, ground arith, ground arith, ground arith)

-- Hexadecimal digits are none of the characters that C's functions stop at or skip.
pub c_string-hex : (s t : List ℕ) → AllHex s → c_string (s ++ 0 ∷ t) ≡ s
unfolding c_string
c_string-hex [] t h = refl
c_string-hex (c ∷ s) t (h, hs) =
    let low = hex-code c h in
    let e : (c == 0) ≡ false = ground arith in rw e (ap (◌∷◌ c) (c_string-hex s t hs))

pub skip_spaces-hex : (s : List ℕ) → AllHex s → skip_spaces s ≡ s
unfolding skip_spaces
skip_spaces-hex [] h = refl
skip_spaces-hex (c ∷ s) (h, hs) = ground (arith, hex-code c h)

pub starts_hex-hex : (s : List ℕ) → AllHex s → starts_hex s ≡ false
starts_hex-hex [] h = refl
starts_hex-hex (c ∷ []) h = refl
starts_hex-hex (c ∷ d ∷ s) (h, hs) = ground (arith, hex-code c h)
