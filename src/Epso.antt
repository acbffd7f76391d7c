-- ===== src/Epso.antt =====
-- readers/epso/epso.c: the frames that are sent to a reader, the answers that are accepted, and the
-- card and PIN in them. The serial port is outside: what `select` and `read` give is a parameter.
pub mod Port
pub mod Frame
pub mod Answer
use osdp_roger_acs.Base.{
  ℕ, zero, suc, ◌+◌, ◌-◌, List, [], ◌∷◌, ◌++◌, Option, none, some, Bool, true, false,
}
use osdp_roger_acs.Base.{
  ◌&&◌, ◌||◌, not, ◌==◌, ltb, leb, if◌then◌else◌, length, take, drop, set, store, get_elem?,
}
use osdp_roger_acs.Base.{bit_or, bit_xor, u8, ◌>>=◌, min, ◌%◌, ◌*◌, ◌^◌}
use osdp_roger_acs.CString.{
  codes, c_string, dec, hex_byte, scan_digits, skip_spaces, starts_hex, after_x,
}

abbrev pub soh : ℕ
soh = 0x01

abbrev pub stx : ℕ
stx = 0x02

abbrev pub etx : ℕ
etx = 0x03

unfoldable pub xor_all : List ℕ → ℕ → ℕ
xor_all [] sum = sum
xor_all (b ∷ bytes) sum = xor_all bytes (bit_xor sum b)

-- `epso_checksum`.
unfoldable pub epso_checksum : List ℕ → ℕ
epso_checksum bytes = bit_or (xor_all bytes 0) 0x20

-- `%02d`.
unfoldable pub dec2 : ℕ → List ℕ
dec2 n = if ltb n 10 then b'0' ∷ dec n else dec n

-- What `snprintf` puts into `buf`; it never reaches the limit of 15.
unfoldable pub request_text : ℕ → ℕ → ℕ → List ℕ
request_text addr func value =
    let last = if func == 0xFF then value ∷ [] else dec value in
    codes "_S" ++ (dec2 addr ++ (hex_byte func ++ (b'_' ∷ (last ++ codes "_"))))

-- The bytes that `epso_write` writes.
unfoldable pub epso_write : ℕ → ℕ → ℕ → List ℕ
epso_write addr func value =
    let text = request_text addr func value in
    let framed = set (set (set text 0 soh) 6 stx) (length text - 1) etx in
    framed ++ epso_checksum framed ∷ []

-- What comes after a request: nothing in time, an error of `select`, or reads, each with the bytes
-- that it puts into the buffer. `none` is an error of `read`.
pub data Incoming : Type 0 where
  timeout select_error : Incoming
  reads : Option (List ℕ) → List (Option (List ℕ)) → Incoming

-- The return value of `epso_write_read`: a code below 0, negated, or a number of bytes.
pub data Received : Type 0 where
  failed : ℕ → Received
  bytes_read : ℕ → Received

-- The loop that reads the rest of a packet, behind `got`. An error takes one byte back.
unfoldable pub read_rest : List ℕ → List (Option (List ℕ)) → Option (List ℕ)
read_rest got [] = some got
read_rest got (some more ∷ rest) = read_rest (got ++ more) rest
read_rest [] (none ∷ rest) = none
read_rest (b ∷ got) (none ∷ rest) = read_rest (take (length got) (b ∷ got)) rest

-- The loop over leading zeros; `none` looks at bytes that were not received.
unfoldable pub skip_zeros : List ℕ → Option (List ℕ)
skip_zeros [] = none
skip_zeros (b ∷ bytes) = if b == 0 then skip_zeros bytes else some (b ∷ bytes)

-- The bytes before the last, and the last.
unfoldable pub split_last : ℕ → List ℕ → List ℕ × ℕ
split_last b [] = ([], b)
split_last b (c ∷ bytes) = let (before, last) = split_last c bytes in (b ∷ before, last)

-- What is copied to the front of the buffer: the bytes from the seventh up to the last two.
abbrev pub payload_of : List ℕ → List ℕ
payload_of packet = take (length packet - 2 - 7) (drop 7 packet)

-- The value that is returned when nothing is copied: `j` is a `uint8_t` that began with -40.
abbrev pub nothing_copied : ℕ
nothing_copied = 217

abbrev pub count_of : ℕ → ℕ
count_of zero = nothing_copied
count_of (suc n) = suc n

-- The answer, without its leading zeros, and the buffer `raw` that holds it.
unfoldable pub check_answer : List ℕ → List ℕ → Received × List ℕ
check_answer [] raw = (failed 24, raw)
check_answer (b ∷ bytes) raw =
    let (before, last) = split_last b bytes in
    let payload = payload_of (b ∷ bytes) in
    if ltb (length (b ∷ bytes)) 3
    then (failed 24, raw)
    else if not (last == epso_checksum before)
    then (failed 30, raw)
    else (bytes_read (count_of (length payload)), payload ++ drop (length payload) raw)

-- `epso_write_read` into the buffer `buf`, from where it is called with one: what it returns and the
-- buffer.
unfoldable pub epso_read : Incoming → List ℕ → Option (Received × List ℕ)
epso_read timeout buf = some (failed 20, buf)
epso_read select_error buf = some (failed 23, buf)
epso_read (reads none rest) buf = some (failed 21, buf)
epso_read (reads (some first) rest) buf = elim (read_rest first rest) [
  | none ↦ some (failed 22, buf)
  | some got ↦
      let raw = got ++ drop (length got) buf in
      skip_zeros got >>= λ answer. some (check_answer answer raw)
]

-- `strtoull` and `strtoul` of a string without a sign, for a word of `w` bits; a `long` has 32. The
-- program gives them the digits of a card and of a PIN.
abbrev pub skip_0x : ℕ → List ℕ → List ℕ
skip_0x base [] = []
skip_0x base (c ∷ s) = if base == 16 && c == b'0' && starts_hex s then after_x s else c ∷ s

unfoldable pub strtoul : ℕ → ℕ → List ℕ → ℕ
strtoul base w s = min (scan_digits base 0 (skip_0x base (skip_spaces s))) (2 ^ w - 1)

-- The bytes before the first `:`; `none` if there is none, for which `*pe` writes to a null pointer.
unfoldable pub until_colon : List ℕ → Option (List ℕ)
until_colon [] = none
until_colon (c ∷ s) =
    let rest = until_colon s in
    if c == b':' then some [] else (rest >>= λ before. some (c ∷ before))

-- What `readCardPin` finds: the card and the PIN, where it finds them.
pub record CardPin : Type 0 where
  pub card : Option ℕ
  pub pin : Option ℕ

abbrev at_pin : Option ℕ → List ℕ → Option CardPin
at_pin card [] = none
at_pin card (c ∷ s) =
    if c == b':'
    then some (record { card = card; pin = none })
    else (until_colon (c ∷ s) >>= λ digits.
        some (record { card = card; pin = some (strtoul 10 32 digits) }))

-- `readCardPin` after `epso_write_read` returned `len` and left the buffer `buf`.
unfoldable pub card_pin : ℕ → List ℕ → Option CardPin
card_pin len buf = store buf len 0 >>= λ ended.
    if ltb 4 len
    then (get_elem? ended 0 >>= λ c.
        if c == b'R'
        then (store ended 17 0 >>= λ cut.
            at_pin (some (strtoul 16 64 (c_string (drop 1 cut)))) (c_string (drop 18 cut)))
        else at_pin none (c_string (drop 1 ended)))
    else some (record { card = none; pin = none })

-- `readCardPin` with the buffer `buf`; `none` is also the write of `buf[len]` for a code below 0.
unfoldable pub read_card_pin : Incoming → List ℕ → Option CardPin
read_card_pin incoming buf = epso_read incoming buf >>= λ (received, buf'). elim received [
  | failed code ↦ none
  | bytes_read len ↦ card_pin len buf'
]
