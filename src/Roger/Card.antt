-- ===== src/Roger/Card.antt =====
-- A card in an answer of the reader of readers/reader-roger.c, up to the callback.
use osdp_roger_acs.Base.{
  ℕ, zero, suc, ◌*◌, ◌^◌, ◌<◌, ◌≡◌, ◌≢◌, refl, sym, ap, ◌∙◌, arith, List, [], ◌∷◌, ◌++◌, none, some,
}
use osdp_roger_acs.Base.{length, length-append, drop, ◌==◌, ltb, true, false, store}
use osdp_roger_acs.Base.{get_or, ◌&&◌, ◌+◌, ◌/◌, ◌%◌, if◌then◌else◌}
use osdp_roger_acs.CString.{c_string}
use osdp_roger_acs.Base.{store-append}
use osdp_roger_acs.Reader.{DataType, DataMode}
use osdp_roger_acs.Epso.{
  CardPin, card_pin, skip_0x, strtoul, reads, read_rest, skip_zeros, epso_read, read_card_pin,
  bytes_read, epso_checksum, etx,
}
use osdp_roger_acs.Epso.Answer.{answer, framed, append_assoc, drop_first, check_answer-answer}
use osdp_roger_acs.Roger.Digits.{
  AllHex, AllBytes, card_number, card_digits, card_digits-AllHex, length-card_digits,
  scan-card_digits, bytes_of-card_number, c_string-hex, skip_spaces-hex, starts_hex-hex,
}
use osdp_roger_acs.Roger.{bytes_of, card_len_of, get_reader_data}

-- The first number that does not fit into a number of bytes.
abbrev top : ℕ → ℕ
top zero = 1
top (suc n) = top n * 256

card_number-top : (bytes : List ℕ) → AllBytes bytes → card_number bytes < top (length bytes)
unfolding card_number
card_number-top [] h = omega arith
card_number-top (b ∷ bytes) (h, hs) = omega (arith, card_number-top bytes hs)

skip_0x-hex : (s : List ℕ) → AllHex s → skip_0x 16 s ≡ s
skip_0x-hex [] h = refl
skip_0x-hex (c ∷ s) (h, hs) = ground (arith, starts_hex-hex s hs)

strtoul-card_digits :
    (bytes : List ℕ)
    → length bytes ≡ 8
    → AllBytes bytes
    → strtoul 16 64 (card_digits bytes) ≡ card_number bytes
unfolding strtoul
strtoul-card_digits bytes eight all =
    let hex = card_digits-AllHex bytes all in
    let below : card_number bytes < 2 ^ 64 = rw eight at (card_number-top bytes all) in
    rw (skip_spaces-hex (card_digits bytes) hex) (
      rw (skip_0x-hex (card_digits bytes) hex)
        (rw (scan-card_digits bytes all) (omega (arith, below))))

-- The text of an answer with a card and no PIN; `sep` is the byte after the card.
abbrev pub card_answer : List ℕ → ℕ → List ℕ → List ℕ
card_answer bytes sep rest = b'R' ∷ (card_digits bytes ++ sep ∷ b':' ∷ rest)

abbrev found_card : List ℕ → CardPin
found_card bytes = record { card = some (card_number bytes); pin = none }

card_pin-card_answer :
    (bytes : List ℕ) (sep : ℕ) (rest : List ℕ) (y : ℕ) (ys : List ℕ)
    → length bytes ≡ 8
    → AllBytes bytes
    → let text = card_answer bytes sep rest in
      card_pin (length text) (text ++ y ∷ ys) ≡ some (found_card bytes)
unfolding card_pin c_string
card_pin-card_answer bytes sep rest y ys eight all =
    let digits = card_digits bytes in
    let tail = b':' ∷ (rest ++ 0 ∷ ys) in
    let text = card_answer bytes sep rest in
    let sixteen : length digits ≡ 16 = omega (arith, length-card_digits bytes, eight) in
    let flat = append_assoc digits (sep ∷ b':' ∷ rest) (0 ∷ ys) in
    let long : ltb 4 (length text) ≡ true =
      ground (arith, length-append {0} digits (sep ∷ b':' ∷ rest), sixteen) in
    let cut : store (b'R' ∷ (digits ++ sep ∷ tail)) 17 0 ≡ some (b'R' ∷ (digits ++ 0 ∷ tail)) =
      ap (λ (k : ℕ). store (b'R' ∷ (digits ++ sep ∷ tail)) (suc k) 0) (sym sixteen)
      ∙ store-append (b'R' ∷ digits) tail sep 0 in
    let pin_at : drop 17 (digits ++ 0 ∷ tail) ≡ tail =
      ap (drop 17) (sym (append_assoc digits (0 ∷ []) tail))
      ∙ drop_first 17 (digits ++ 0 ∷ []) tail
          (omega (arith, length-append {0} digits (0 ∷ []), sixteen)) in
    rw (store-append text ys y 0, long)
      (rw flat (
        rw cut (
          rw (pin_at, c_string-hex digits tail (card_digits-AllHex bytes all))
            (rw (strtoul-card_digits bytes eight all) refl))))

-- A buffer that holds more than a text has a byte behind it.
behind : (n : ℕ) (s : List ℕ) → n < length s → (y : ℕ) × (ys : List ℕ) × (drop n s ≡ y ∷ ys)
behind zero [] h = absurd (omega arith)
behind zero (y ∷ ys) h = (y, ys, refl)
behind (suc n) [] h = absurd (omega arith)
behind (suc n) (y ∷ s) h = behind n s (omega arith)

answer_longer :
    (b : ℕ) (head text rest : List ℕ) → length text < length (answer b head text ++ rest)
answer_longer b head text rest =
    let sum = epso_checksum (framed b head text) in
    omega (
      arith,
      length-append {0} (answer b head text) rest,
      length-append {0} (framed b head text) (sum ∷ []),
      length-append {0} head (text ++ etx ∷ []),
      length-append {0} text (etx ∷ []),
    )

-- What an answer with a card leaves in the buffer.
epso_read-answer :
    (b : ℕ) (head text buf : List ℕ)
    → b ≢ 0
    → length head ≡ 6
    → text ≢ []
    → let sent = answer b head text in
      epso_read (reads (some sent) []) buf
      ≡ some (bytes_read (length text), text ++ drop (length text) (sent ++ drop (length sent) buf))
unfolding epso_read read_rest skip_zeros
epso_read-answer b head text buf nonzero six nonempty =
    let first : (b == 0) ≡ false = ground arith in
    rw first (ap some (check_answer-answer b head text _ six nonempty))

-- The length that a card is given.
abbrev pub card_len : List ℕ → ℕ
card_len bytes =
    if get_or bytes 4 0 == 0 && (get_or bytes 5 0 == 0 && get_or bytes 6 0 == 0) then 4 else 7

card_len_of-card_number :
    (bytes : List ℕ)
    → length bytes ≡ 8
    → AllBytes bytes
    → card_len_of (card_number bytes) ≡ card_len bytes
unfolding card_number
card_len_of-card_number (b₀ ∷ b₁ ∷ b₂ ∷ b₃ ∷ b₄ ∷ b₅ ∷ b₆ ∷ b₇ ∷ []) h all =
    let number = card_number (b₀ ∷ b₁ ∷ b₂ ∷ b₃ ∷ b₄ ∷ b₅ ∷ b₆ ∷ b₇ ∷ []) in
    let middle : number / 2 ^ 32 % 2 ^ 24 ≡ b₄ + 256 * b₅ + 65536 * b₆ = omega (arith, all) in
    rw middle (ground arith)
card_len_of-card_number _ h all = absurd (omega (arith, h))

-- A card whose number the reader sends in an answer with 16 upper-case digits, the highest byte
-- first, and without a PIN, is handed to `process_user_info` once, as its bytes, the lowest first; its
-- length is 4 where bytes 4 to 6 are all 0, and 7 else. The answer is framed and has its checksum,
-- begins with a byte other than 0, and is read at once.
pub get_reader_data-card :
    (b : ℕ) (head bytes : List ℕ) (sep : ℕ) (rest buf : List ℕ)
    → b ≢ 0
    → length head ≡ 6
    → length bytes ≡ 8
    → AllBytes bytes
    → get_reader_data (reads (some (answer b head (card_answer bytes sep rest))) []) buf
      ≡ some (
          record {
            bytes = bytes;
            len = card_len bytes;
            type = DataType.is_card;
            mode = DataMode.complete;
          }
          ∷ [])
unfolding get_reader_data read_card_pin
get_reader_data-card b head bytes sep rest buf nonzero six eight all =
    let text = card_answer bytes sep rest in
    let sent = answer b head text in
    let behind_sent = drop (length sent) buf in
    let room = answer_longer b head text behind_sent in
    let (y, ys, e) = behind (length text) (sent ++ behind_sent) room in
    let read = epso_read-answer b head text buf nonzero six (λ h. absurd (ground (arith, h))) in
    let whole : bytes_of 8 (card_number bytes) ≡ bytes =
      rw eight at (bytes_of-card_number bytes all) in
    let len = card_len_of-card_number bytes eight all in
    rw read (rw e (rw (card_pin-card_answer bytes sep rest y ys eight all) (rw (whole, len) refl)))
