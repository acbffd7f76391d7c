-- ===== src/Osdp/Packet/Frame.antt =====
-- The layout of a packet that `fill_packet` (readers/osdp/osdp.c) builds.
use osdp_roger_acs.Base.{
  ℕ, zero, suc, ◌+◌, ◌-◌, ◌≤◌, ◌<◌, ◌≡◌, refl, sym, ap, arith, List, [], ◌∷◌, ◌++◌,
}
use osdp_roger_acs.Base.{true, Option, some, bit_and, u8, u16, ◌>>>◌, length, take, drop, ltb}
use osdp_roger_acs.Base.{
  length-append, append_cons, length-drop, ◌>>=◌, store, first, copy_at, store-append, first-append,
}
use osdp_roger_acs.Osdp.Crc.{f_crc_blk}
use osdp_roger_acs.Osdp.Packet.{Packet, crclen_packet, fill_packet, packet_len}

-- Start byte, address, length, control byte, command and payload.
abbrev pub body : ℕ → ℕ → List ℕ → List ℕ
body address command payload =
    let len = 8 + length payload in
    0x53 ∷ u8 address ∷ bit_and len 0xff ∷ u8 (len >>> 8) ∷ 0x04 ∷ u8 command ∷ payload

-- The body, its checksum with the low byte first, and what is in the buffer after it.
abbrev pub frame : ℕ → ℕ → List ℕ → List ℕ → List ℕ
frame address command payload rest =
    let b = body address command payload in
    b ++ bit_and (f_crc_blk b) 0xff ∷ f_crc_blk b >>> 8 ∷ rest

-- What is left of `crclen_packet` once the length is written.
abbrev seal : List ℕ → ℕ → Option Packet
seal d n = do
  covered ← first d (u16 (n - 2))
  let crc = f_crc_blk covered
  d₃ ← store d (n - 2) (bit_and crc 0xff)
  d₄ ← store d₃ (n - 1) (crc >>> 8)
  some (record { len = n; bytes = d₄ })

pub append_one : (b rest : List ℕ) (y z : ℕ) → b ++ y ∷ z ∷ rest ≡ (b ++ y ∷ []) ++ z ∷ rest
append_one b rest y z = append_cons b (z ∷ rest) y

store_last :
    (b rest : List ℕ) (x z v : ℕ)
    → store (b ++ x ∷ z ∷ rest) (length b + 1) v ≡ some (b ++ x ∷ v ∷ rest)
store_last b rest x z v =
    let e : length b + 1 ≡ length (b ++ x ∷ []) = omega (arith, length-append b (x ∷ [])) in
    rw (append_one b rest x z, append_one b rest x v, e) (store-append (b ++ x ∷ []) rest z v)

-- The bytes up to the checksum are `b`; the two after them are overwritten.
seal-append :
    (b rest : List ℕ) (y z n : ℕ)
    → n ≡ length b + 2
    → length b < 1000
    → seal (b ++ y ∷ z ∷ rest) n
      ≡ some
          (record { len = n; bytes = b ++ bit_and (f_crc_blk b) 0xff ∷ f_crc_blk b >>> 8 ∷ rest })
seal-append b rest y z n e h =
    let covered : u16 (n - 2) ≡ length b = omega arith in
    let low : n - 2 ≡ length b = omega arith in
    let high : n - 1 ≡ length b + 1 = omega arith in
    rw
      (
        covered,
        low,
        high,
        first-append b (y ∷ z ∷ rest),
        store-append b (z ∷ rest) y (bit_and (f_crc_blk b) 0xff),
        store_last b rest (bit_and (f_crc_blk b) 0xff) z (f_crc_blk b >>> 8),
      )
      refl

-- Every index of the header is within the buffer.
in_header : (k n : ℕ) → k < 6 → ltb k (suc (suc (suc (suc (suc (suc n)))))) ≡ true
in_header k n h = ground arith

crclen_packet-eq :
    (b₀ b₁ b₂ b₃ b₄ b₅ y z : ℕ) (payload rest : List ℕ)
    → length payload < 900
    → let len = 8 + length payload in
      let b = b₀ ∷ b₁ ∷ bit_and len 0xff ∷ u8 (len >>> 8) ∷ b₄ ∷ b₅ ∷ payload in
      crclen_packet (record {
        len = 6 + length payload;
        bytes = b₀ ∷ b₁ ∷ b₂ ∷ b₃ ∷ b₄ ∷ b₅ ∷ (payload ++ y ∷ z ∷ rest);
      })
      ≡ some
          (record { len = len; bytes = b ++ bit_and (f_crc_blk b) 0xff ∷ f_crc_blk b >>> 8 ∷ rest })
unfolding crclen_packet
crclen_packet-eq b₀ b₁ b₂ b₃ b₄ b₅ y z payload rest h =
    let e : 6 + length payload + 2 ≡ 8 + length payload = omega arith in
    let b =
      b₀
      ∷ b₁
      ∷ bit_and (8 + length payload) 0xff
      ∷ u8 ((8 + length payload) >>> 8)
      ∷ b₄
      ∷ b₅
      ∷ payload in
    let size = length (payload ++ y ∷ z ∷ rest) in
    rw (e, in_header 2 size (omega arith), in_header 3 size (omega arith))
      (seal-append b rest y z (8 + length payload) (omega arith) (omega arith))

-- The two bytes after the first `n` of a long enough list.
two_after :
    (n : ℕ) (xs : List ℕ)
    → n + 2 ≤ length xs
    → (y : ℕ) × (z : ℕ) × (drop n xs ≡ y ∷ z ∷ drop (suc (suc n)) xs)
two_after zero [] h = absurd (omega arith)
two_after zero (x ∷ []) h = absurd (omega arith)
two_after zero (x ∷ y ∷ xs) h = (x, y, refl)
two_after (suc n) [] h = absurd (omega arith)
two_after (suc n) (x ∷ xs) h = two_after n xs (omega arith)

pub take_all : (xs : List ℕ) → take (length xs) xs ≡ xs
take_all [] = refl
take_all (x ∷ xs) = ap (◌∷◌ x) (take_all xs)

copy_payload :
    (b₀ b₁ b₂ b₃ b₄ b₅ : ℕ) (rest payload : List ℕ)
    → length payload ≤ length rest
    → copy_at (b₀ ∷ b₁ ∷ b₂ ∷ b₃ ∷ b₄ ∷ b₅ ∷ rest) 6 payload (length payload)
      ≡ some (b₀ ∷ b₁ ∷ b₂ ∷ b₃ ∷ b₄ ∷ b₅ ∷ (payload ++ drop (length payload) rest))
copy_payload b₀ b₁ b₂ b₃ b₄ b₅ rest payload h =
    let n_suc : 6 + length payload ≡ suc (suc (suc (suc (suc (suc (length payload)))))) =
      omega arith in
    rw (take_all payload, n_suc) (ground arith)

fill_packet-eq :
    (p : Packet) (x₀ x₁ x₂ x₃ x₄ x₅ : ℕ) (rest payload : List ℕ) (address command : ℕ)
    → p.bytes ≡ x₀ ∷ x₁ ∷ x₂ ∷ x₃ ∷ x₄ ∷ x₅ ∷ rest
    → length payload + 2 ≤ length rest
    → length payload < 900
    → fill_packet p address command payload (length payload)
      ≡ some (record {
        len = 8 + length payload;
        bytes = frame address command payload (drop (length payload + 2) rest);
      })
unfolding fill_packet
fill_packet-eq p x₀ x₁ x₂ x₃ x₄ x₅ rest payload address command e h k =
    let size = length rest in
    let (y, z, f) = two_after (length payload) rest h in
    let n_suc : length payload + 2 ≡ suc (suc (length payload)) = omega arith in
    rw
      (
        e,
        in_header 0 size (omega arith),
        in_header 1 size (omega arith),
        in_header 2 size (omega arith),
        in_header 3 size (omega arith),
        in_header 4 size (omega arith),
        in_header 5 size (omega arith),
        copy_payload 0x53 (u8 address) 0 0 0x04 (u8 command) rest payload (omega arith),
        f,
        sym n_suc,
      )
      (crclen_packet-eq 0x53 (u8 address) 0 0 0x04 (u8 command) y z payload
        (drop (length payload + 2) rest) k)

header :
    (xs : List ℕ)
    → 6 ≤ length xs
    → (x₀ : ℕ) × (x₁ : ℕ) × (x₂ : ℕ) × (x₃ : ℕ) × (x₄ : ℕ) × (x₅ : ℕ) × (xs
        ≡ x₀ ∷ x₁ ∷ x₂ ∷ x₃ ∷ x₄ ∷ x₅ ∷ drop 6 xs)
header [] h = absurd (omega arith)
header (_ ∷ []) h = absurd (omega arith)
header (_ ∷ _ ∷ []) h = absurd (omega arith)
header (_ ∷ _ ∷ _ ∷ []) h = absurd (omega arith)
header (_ ∷ _ ∷ _ ∷ _ ∷ []) h = absurd (omega arith)
header (_ ∷ _ ∷ _ ∷ _ ∷ _ ∷ []) h = absurd (omega arith)
header (x₀ ∷ x₁ ∷ x₂ ∷ x₃ ∷ x₄ ∷ x₅ ∷ rest) h = (x₀, x₁, x₂, x₃, x₄, x₅, refl)

-- A payload of at most 56 bytes, which leaves room for the header and the checksum, is framed
-- within the buffer of 64 bytes: start byte, address, length, control byte, command, payload and
-- checksum, and the bytes after them as they were.
pub fill_packet-frame :
    (p : Packet) (address command : ℕ) (payload : List ℕ)
    → length p.bytes ≡ packet_len
    → length payload ≤ 56
    → fill_packet p address command payload (length payload)
      ≡ some (record {
        len = 8 + length payload;
        bytes = frame address command payload (drop (length payload + 2) (drop 6 p.bytes));
      })
fill_packet-frame p address command payload size h =
    let (x₀, x₁, x₂, x₃, x₄, x₅, e) = header p.bytes (omega arith) in
    fill_packet-eq p x₀ x₁ x₂ x₃ x₄ x₅ (drop 6 p.bytes) payload address command e
      (omega (arith, length-drop 6 p.bytes)) (omega arith)
