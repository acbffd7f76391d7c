-- ===== src/CString.antt =====
-- What the program uses of C's string functions: `strtok_r`, `strtoll`, `strchr` and the numbers of
-- `printf`. A string is the list of its bytes, without the final zero.
pub mod Words
use Prim.Native.Char.{code}
use Prim.Native.String.{String}
use osdp_roger_acs.Base.{ℕ, zero, suc, ◌+◌, ◌-◌, ◌*◌, ◌/◌, ◌%◌, ◌^◌, List, [], ◌∷◌, ◌++◌}
use osdp_roger_acs.Base.{
  Option, none, some, Bool, true, false, ◌&&◌, ◌||◌, ◌==◌, ltb, leb, if◌then◌else◌, u32,
}

-- A C string literal.
abbrev pub codes : String → List ℕ
codes String.[] = []
codes (String.◌∷◌ c s) = code c ∷ codes s

-- The bytes before the first zero.
unfoldable pub c_string : List ℕ → List ℕ
c_string [] = []
c_string (c ∷ s) = if c == 0 then [] else c ∷ c_string s

-- The separators `" \t\n"` of every `strtok_r` in the program.
abbrev pub is_separator : ℕ → Bool
is_separator c = c == b' ' || c == b'\t' || c == b'\n'

unfoldable pub skip_separators : List ℕ → List ℕ
skip_separators [] = []
skip_separators (c ∷ s) = if is_separator c then skip_separators s else c ∷ s

-- The bytes up to the next separator, and those after it.
unfoldable pub split_word : List ℕ → List ℕ × List ℕ
split_word [] = ([], [])
split_word (c ∷ s) =
    let (word, rest) = split_word s in if is_separator c then ([], s) else (c ∷ word, rest)

abbrev pub cut : List ℕ → Option (List ℕ) × List ℕ
cut [] = (none, [])
cut (c ∷ s) = (some (split_word (c ∷ s)).0, (split_word (c ∷ s)).1)

-- `strtok_r(s, " \t\n", &save)`: the word, if there is one, and what `save` points to.
unfoldable pub strtok : List ℕ → Option (List ℕ) × List ℕ
strtok s = cut (skip_separators s)

abbrev pub digit_code : ℕ → ℕ → ℕ
digit_code ten d = if ltb d 10 then b'0' + d else ten + (d - 10)

-- The digits of `n` in a base from 2 to 16, in front of `out`; `ten` is the letter for 10.
unfoldable pub digits_on : ℕ → ℕ → ℕ → ℕ → List ℕ → List ℕ
digits_on ten base zero n out = out
digits_on ten base (suc fuel) n out =
    let c = digit_code ten (n % base) in
    let rest = digits_on ten base fuel (n / base) (c ∷ out) in if ltb n base then c ∷ out else rest

-- `%u`. A number has at most as many digits as it counts, and one more.
unfoldable pub dec : ℕ → List ℕ
unfolding digits_on
dec n = digits_on b'a' 10 (suc n) n []

-- `%d` of an `int` that is given as a word.
unfoldable pub dec_signed : ℕ → List ℕ
unfolding dec
dec_signed n = if ltb n (2 ^ 31) then dec n else b'-' ∷ dec (2 ^ 32 - n)

-- `%x`.
unfoldable pub hex_number : ℕ → List ℕ
unfolding digits_on
hex_number n = digits_on b'a' 16 (suc n) n []

-- A string of two upper-case digits, `%02X`, for a byte.
unfoldable pub hex_byte : ℕ → List ℕ
unfolding digits_on
hex_byte n = if ltb n 16 then b'0' ∷ digits_on b'A' 16 1 n [] else digits_on b'A' 16 2 n []

-- `%s` of a string that may be null, as glibc prints it.
abbrev pub text_or_null : Option (List ℕ) → List ℕ
text_or_null none = codes "(null)"
text_or_null (some s) = s

-- `isspace`.
abbrev is_space : ℕ → Bool
is_space c = c == 0x20 || leb 0x09 c && leb c 0x0d

unfoldable pub skip_spaces : List ℕ → List ℕ
skip_spaces [] = []
skip_spaces (c ∷ s) = if is_space c then skip_spaces s else c ∷ s

-- The value of a digit of any base, and 36 for what is no digit.
unfoldable pub digit_value : ℕ → ℕ
digit_value c =
    if leb b'0' c && leb c b'9'
    then c - b'0'
    else if leb b'a' c && leb c b'z'
    then c - b'a' + 10
    else if leb b'A' c && leb c b'Z'
    then c - b'A' + 10
    else 36

-- The number that the leading digits spell, behind `n`.
unfoldable pub scan_digits : ℕ → ℕ → List ℕ → ℕ
scan_digits base n [] = n
scan_digits base n (c ∷ s) =
    let rest = scan_digits base (n * base + digit_value c) s in
    if ltb (digit_value c) base then rest else n

abbrev pub starts_hex : List ℕ → Bool
starts_hex (x ∷ c ∷ s) = (x == b'x' || x == b'X') && ltb (digit_value c) 16
starts_hex _ = false

abbrev pub after_x : List ℕ → List ℕ
after_x [] = []
after_x (x ∷ s) = s

-- Base 0: hexadecimal after `0x`, octal after `0`, else decimal.
unfoldable pub scan_prefixed : List ℕ → ℕ
scan_prefixed [] = 0
scan_prefixed (c ∷ s) =
    if c == b'0'
    then (if starts_hex s then scan_digits 16 0 (after_x s) else scan_digits 8 0 s)
    else scan_digits 10 0 (c ∷ s)

-- A magnitude and its sign as a `long long` word; what does not fit is clamped.
unfoldable pub clamp64 : Bool → ℕ → ℕ
clamp64 true n = if ltb (2 ^ 63) n then 2 ^ 63 else (2 ^ 64 - n) % 2 ^ 64
clamp64 false n = if ltb n (2 ^ 63) then n else 2 ^ 63 - 1

abbrev scan_signed : List ℕ → ℕ
scan_signed [] = 0
scan_signed (c ∷ s) =
    if c == b'-'
    then clamp64 true (scan_prefixed s)
    else clamp64 false (scan_prefixed (if c == b'+' then s else c ∷ s))

-- `strtoll(s, 0, 0)`, as a word of 64 bits.
unfoldable pub strtoll : List ℕ → ℕ
strtoll s = scan_signed (skip_spaces s)
