-- ===== src/Osdp/Process/Roundtrip.antt =====
-- A packet that `fill_packet` builds, read by `process_packet` (readers/osdp/osdp.c).
use osdp_roger_acs.Base.{ℕ, ◌+◌, ◌^◌, ◌%◌, ◌≤◌, ◌<◌, ◌≡◌, refl, ap, arith, List, [], ◌∷◌, ◌++◌}
use osdp_roger_acs.Base.{Bool, true, Option, some, ◌==◌, ==_iff}
use osdp_roger_acs.Base.{bit_and, bit_or, bit_or-bytes, bit_and-byte, u8, u16, ◌<<<◌, ◌>>>◌, ◌>>=◌}
use osdp_roger_acs.Base.{
  get_elem?, get_elem?-append, drop, take-append, leb, length, length-append, first, first-append,
  copy_at,
}
use osdp_roger_acs.Osdp.Crc.{f_crc_blk}
use osdp_roger_acs.Osdp.Crc.Register.{f_crc_blk-lt}
use osdp_roger_acs.Osdp.Packet.{Packet, fill_packet, packet_len}
use osdp_roger_acs.Osdp.Packet.Frame.{body, frame, fill_packet-frame, append_one}
use osdp_roger_acs.Osdp.Process.{
  Response, take_payload, by_code, process_packet, sub32, osdp_raw, osdp_kpd,
}
use osdp_roger_acs.Osdp.Process.Accept.{verdict}

abbrev checks : Packet → Response → ℕ → Option (Bool × Packet × Response)
checks p r len = do
  covered ← first p.bytes (u16 (sub32 len 2))
  crc_high ← get_elem? p.bytes (sub32 len 1)
  crc_low ← get_elem? p.bytes (sub32 len 2)
  code ← get_elem? p.bytes 5
  verdict p r len crc_high crc_low code covered

second_after : (b rest : List ℕ) (y z : ℕ) → get_elem? (b ++ y ∷ z ∷ rest) (length b + 1) ≡ some z
second_after b rest y z =
    let e : length b + 1 ≡ length (b ++ y ∷ []) = omega (arith, length-append b (y ∷ [])) in
    rw (append_one b rest y z, e) (get_elem?-append (b ++ y ∷ []) rest z)

joined : (x : ℕ) → x < 2 ^ 16 → bit_or ((x >>> 8) <<< 8) (bit_and x 0xff) ≡ x
joined x h =
    rw (bit_and-byte x)
      (omega (arith, bit_or-bytes (x >>> 8) (x % 2 ^ 8) (omega arith) (omega arith)))

-- The checksum of a sealed packet is found where it was written.
checks-sealed :
    (p : Packet) (r : Response) (b rest : List ℕ) (len code : ℕ)
    → p.bytes ≡ b ++ bit_and (f_crc_blk b) 0xff ∷ f_crc_blk b >>> 8 ∷ rest
    → len ≡ length b + 2
    → length b < 1000
    → get_elem? p.bytes 5 ≡ some code
    → checks p r len ≡ (
        by_code p.bytes len (record r { payload_len = 0; response = code }) code >>= λ (ok, after).
        some (ok, record p { len = len }, after))
checks-sealed p r b rest len code e size small at_five =
    let covered : u16 (sub32 len 2) ≡ length b = omega arith in
    let low : sub32 len 2 ≡ length b = omega arith in
    let high : sub32 len 1 ≡ length b + 1 = omega arith in
    let tail = bit_and (f_crc_blk b) 0xff ∷ f_crc_blk b >>> 8 ∷ rest in
    let covers : first p.bytes (length b) ≡ some b = rw e (first-append b tail) in
    let low_byte : get_elem? p.bytes (length b) ≡ some (bit_and (f_crc_blk b) 0xff) =
      rw e (get_elem?-append b _ _) in
    let high_byte : get_elem? p.bytes (length b + 1) ≡ some (f_crc_blk b >>> 8) =
      rw e (second_after b rest _ _) in
    let crc : (f_crc_blk b == u16 (bit_or ((f_crc_blk b >>> 8) <<< 8) (bit_and (f_crc_blk b) 0xff)))
        ≡ true =
      (==_iff _ _).1 (omega (arith, joined (f_crc_blk b) (f_crc_blk-lt b), f_crc_blk-lt b)) in
    rw (covered, low, high, covers, low_byte, high_byte, at_five, crc) refl

length_bytes : (n : ℕ) → n < 2 ^ 16 → bit_or (u8 (n >>> 8) <<< 8) (bit_and n 0xff) ≡ n
length_bytes n h = let e : u8 (n >>> 8) ≡ n >>> 8 = omega arith in rw e (joined n h)

taken :
    (r : Response) (payload tail : List ℕ)
    → length payload ≤ 56
    → length r.payload ≡ packet_len
    → copy_at r.payload 0 (payload ++ tail) (length payload)
      ≡ some (payload ++ drop (length payload) r.payload)
taken r payload tail h size =
    let start : 0 + length payload ≡ length payload = omega arith in
    let copied : leb (length payload) (length (payload ++ tail)) ≡ true =
      ground (arith, length-append payload tail) in
    let inside : leb (length payload) (length r.payload) ≡ true = ground (arith, h, size) in
    rw (start, copied, inside, take-append payload tail) refl

raw_payload :
    (r : Response) (b₀ b₁ b₂ b₃ b₄ b₅ : ℕ) (payload tail : List ℕ)
    → length payload ≤ 56
    → length r.payload ≡ packet_len
    → by_code (b₀ ∷ b₁ ∷ b₂ ∷ b₃ ∷ b₄ ∷ b₅ ∷ (payload ++ tail)) (8 + length payload) r osdp_raw
      ≡ some (
        true,
        record r {
          payload_len = length payload;
          payload = payload ++ drop (length payload) r.payload;
        },
      )
unfolding by_code take_payload
raw_payload r b₀ b₁ b₂ b₃ b₄ b₅ payload tail h size =
    let count : sub32 (8 + length payload) 8 ≡ length payload = omega arith in
    let narrow : u8 (length payload) ≡ length payload = omega arith in
    rw (count, taken r payload tail h size, narrow) refl

-- A keypad answer: the number of keys is the second byte of the payload, and the keys are behind it.
keys_payload :
    (r : Response) (b₀ b₁ b₂ b₃ b₄ b₅ reader len : ℕ) (keys tail : List ℕ)
    → length keys ≤ 56
    → length r.payload ≡ packet_len
    → by_code (b₀ ∷ b₁ ∷ b₂ ∷ b₃ ∷ b₄ ∷ b₅ ∷ reader ∷ length keys ∷ (keys ++ tail)) len r osdp_kpd
      ≡ some (
        true,
        record r { payload_len = length keys; payload = keys ++ drop (length keys) r.payload },
      )
unfolding by_code take_payload
keys_payload r b₀ b₁ b₂ b₃ b₄ b₅ reader len keys tail h size =
    let narrow : u8 (length keys) ≡ length keys = omega arith in
    rw (taken r keys tail h size, narrow) refl

-- The packet that `fill_packet` builds in the buffer of `p`.
abbrev pub framed : Packet → ℕ → ℕ → List ℕ → Packet
framed p address code payload = record {
  len = 8 + length payload;
  bytes = frame address code payload (drop (length payload + 2) (drop 6 p.bytes));
}

-- A packet that `fill_packet` builds passes the checks, and goes by its code.
fill_packet-by_code :
    (p : Packet) (r : Response) (address code : ℕ) (payload : List ℕ) (ok : Bool) (after : Response)
    → length p.bytes ≡ packet_len
    → u8 code ≡ code
    → length payload ≤ 56
    → by_code
        (framed p address code payload).bytes
        (8 + length payload)
        (record r { payload_len = 0; response = code })
        code
      ≡ some (ok, after)
    → (fill_packet p address code payload (length payload) >>= λ q. process_packet q r)
      ≡ some (ok, framed p address code payload, after)
unfolding process_packet
fill_packet-by_code p r address code payload ok after size byte h e =
    let len = 8 + length payload in
    let sealed =
      checks-sealed (framed p address code payload) r (body address code payload)
        (drop (length payload + 2) (drop 6 p.bytes)) len code refl (omega arith) (omega arith)
        (ap some byte) in
    rw (fill_packet-frame p address code payload size h, length_bytes len (omega arith), sealed, e)
      refl

-- A packet that `fill_packet` builds in a buffer of 64 bytes, with the code of a card and a
-- payload of at most 56 bytes, is accepted by `process_packet`, which gives back its payload and
-- the length of it.
pub fill_packet-process_packet :
    (p : Packet) (r : Response) (address : ℕ) (payload : List ℕ)
    → length p.bytes ≡ packet_len
    → length r.payload ≡ packet_len
    → length payload ≤ 56
    → (fill_packet p address osdp_raw payload (length payload) >>= λ q. process_packet q r)
      ≡ some (
        true,
        record {
          len = 8 + length payload;
          bytes = frame address osdp_raw payload (drop (length payload + 2) (drop 6 p.bytes));
        },
        record {
          response = osdp_raw;
          payload_len = length payload;
          payload = payload ++ drop (length payload) r.payload;
        },
      )
fill_packet-process_packet p r address payload size room h =
    fill_packet-by_code p r address osdp_raw payload true _ size refl h (
      raw_payload (record { response = osdp_raw; payload_len = 0; payload = r.payload }) 0x53
        (u8 address) (bit_and (8 + length payload) 0xff) (u8 ((8 + length payload) >>> 8)) 0x04
        osdp_raw payload _ h room)

-- A packet with the code of a keypad: its keys are given back, and their number.
pub fill_packet-process_packet-keys :
    (p : Packet) (r : Response) (address reader : ℕ) (keys : List ℕ)
    → length p.bytes ≡ packet_len
    → length r.payload ≡ packet_len
    → length keys ≤ 54
    → let payload = reader ∷ length keys ∷ keys in
      (fill_packet p address osdp_kpd payload (length payload) >>= λ q. process_packet q r)
      ≡ some (
        true,
        framed p address osdp_kpd payload,
        record {
          response = osdp_kpd;
          payload_len = length keys;
          payload = keys ++ drop (length keys) r.payload;
        },
      )
fill_packet-process_packet-keys p r address reader keys size room h =
    let payload = reader ∷ length keys ∷ keys in
    fill_packet-by_code p r address osdp_kpd payload true _ size refl (omega arith) (
      keys_payload (record { response = osdp_kpd; payload_len = 0; payload = r.payload }) 0x53
        (u8 address) (bit_and (8 + length payload) 0xff) (u8 ((8 + length payload) >>> 8)) 0x04
        osdp_kpd reader (8 + length payload) keys _ (omega arith) room)
