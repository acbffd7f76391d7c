-- ===== src/Osdp/Process/Total.antt =====
-- The answers that `process_packet` (readers/osdp/osdp.c) reads without an access past the end of an
-- array, whatever their checksum and code are.
use osdp_roger_acs.Base.{
  ℕ, zero, suc, ◌+◌, ◌-◌, ◌≤◌, ◌<◌, ◌≡◌, ◌≢◌, refl, inl, inr, arith, List, [], ◌∷◌, ◌++◌, Option,
  some, Bool, true, false,
}
use osdp_roger_acs.Base.{
  bit_or, u8, u16, ◌<<<◌, get_elem?, drop, take, length, length-append, length-take, length-drop,
  first, leb, Bool-cases, ◌==◌,
}
use osdp_roger_acs.Osdp.Crc.{f_crc_blk}
use osdp_roger_acs.Osdp.Packet.{Packet, packet_len}
use osdp_roger_acs.Osdp.Process.{
  Response, sub32, take_payload, by_code, process_packet, recv_packet, osdp_ack, osdp_nack,
  osdp_raw, osdp_kpd, osdp_com,
}

-- A buffer of 64 bytes whose length field is between 8 and 64, and whose count of keys, where a keypad
-- answer has it, is at most 56.
pub record IsAnswer (bytes : List ℕ) : Type 0 where
  pub size : length bytes ≡ packet_len
  pub high : ℕ
  pub low : ℕ
  pub keys : ℕ
  pub at_high : get_elem? bytes 3 ≡ some high
  pub at_low : get_elem? bytes 2 ≡ some low
  pub at_keys : get_elem? bytes 7 ≡ some keys
  pub long : 8 ≤ bit_or (high <<< 8) low
  pub short : bit_or (high <<< 8) low ≤ packet_len
  pub few : keys ≤ 56

-- A response within its buffer.
pub record IsResponse (r : Response) : Type 0 where
  pub size : length r.payload ≡ packet_len
  pub room : r.payload_len ≤ packet_len

-- A step that returns, and leaves a response within its buffer.
abbrev pub Returns : {A : Type 0} → (A → Response) → Option A → Type 0
Returns {A} response_of m = (a : A) × (m ≡ some a) × IsResponse (response_of a)

get_elem?-total : (xs : List ℕ) (i : ℕ) → i < length xs → (v : ℕ) × (get_elem? xs i ≡ some v)
get_elem?-total [] i h = absurd (omega arith)
get_elem?-total (x ∷ xs) zero h = (x, refl)
get_elem?-total (x ∷ xs) (suc i) h = get_elem?-total xs i (omega arith)

first-total : (xs : List ℕ) (n : ℕ) → n ≤ length xs → first xs n ≡ some (take n xs)
first-total xs n h = ground arith

take_payload-Returns :
    (bytes : List ℕ) (r : Response) (off n : ℕ)
    → length bytes ≡ packet_len
    → IsResponse r
    → off + n ≤ packet_len
    → Returns (λ (a : Bool × Response). a.1) (take_payload bytes r off n)
unfolding take_payload
take_payload-Returns bytes r off n size v fits =
    let src = drop off bytes in
    let payload = take 0 r.payload ++ (take n src ++ drop (0 + n) r.payload) in
    let there : leb n (length src) ≡ true = ground (arith, length-drop off bytes, size) in
    let inside : leb (0 + n) (length r.payload) ≡ true = ground (arith, v.size) in
    let left : length payload ≡ packet_len = omega (
      arith,
      v.size,
      size,
      length-append {0} (take n src) (drop (0 + n) r.payload),
      length-take {0} n src,
      length-drop {0} off bytes,
      length-drop {0} (0 + n) r.payload,
    ) in
    (
      (true, record r { payload = payload; payload_len = u8 n }),
      rw (there, inside) refl,
      record { size = left; room = omega arith },
    )

by_code-Returns :
    (bytes : List ℕ) (len : ℕ) (r : Response) (code : ℕ)
    → (a : IsAnswer bytes) → len ≡ bit_or (a.high <<< 8) a.low
    → IsResponse r
    → Returns (λ (a : Bool × Response). a.1) (by_code bytes len r code)
unfolding by_code
by_code-Returns bytes len r code a e v =
    let count : 6 + sub32 len 8 ≤ packet_len = omega (arith, e, a.long, a.short) in
    let copied = take_payload-Returns bytes r 6 (sub32 len 8) a.size v count in
    let keys = take_payload-Returns bytes r 8 a.keys a.size v (omega (arith, a.few)) in
    elim (Bool-cases (code == osdp_ack)) [
      | inl f ↦ rw f ((true, r), refl, v)
      | inr f ↦ elim (Bool-cases (code == osdp_nack)) [
        | inl g ↦ rw (f, g) ((true, r), refl, v)
        | inr g ↦ elim (Bool-cases (code == osdp_raw)) [
          | inl h ↦ rw (f, g, h) copied
          | inr h ↦ elim (Bool-cases (code == osdp_kpd)) [
            | inl k ↦ rw (f, g, h, k, a.at_keys) keys
            | inr k ↦ elim (Bool-cases (code == osdp_com)) [
              | inl l ↦ rw (f, g, h, k, l) copied
              | inr l ↦ rw (f, g, h, k, l) ((false, r), refl, v)
            ]
          ]
        ]
      ]
    ]

-- It returns, with the length of the packet set from its field and a response within its buffer.
pub process_packet-Returns :
    (p : Packet) (r : Response) (a : IsAnswer p.bytes)
    → IsResponse r
    → (ok : Bool) × (after : Response) × (process_packet p r
        ≡ some (ok, record p { len = bit_or (a.high <<< 8) a.low }, after))
      × IsResponse after
unfolding process_packet
process_packet-Returns p r a v =
    let len = bit_or (a.high <<< 8) a.low in
    let (crc_high, e₁) =
      get_elem?-total p.bytes (sub32 len 1) (omega (arith, a.long, a.short, a.size)) in
    let (crc_low, e₂) =
      get_elem?-total p.bytes (sub32 len 2) (omega (arith, a.long, a.short, a.size)) in
    let (code, e₃) = get_elem?-total p.bytes 5 (omega (arith, a.size)) in
    let covers = first-total p.bytes (u16 (sub32 len 2)) (omega (arith, a.long, a.short, a.size)) in
    let covered = take (u16 (sub32 len 2)) p.bytes in
    let begun : Response = record r { payload_len = 0; response = code } in
    let ((ok, after), done, left) =
      by_code-Returns p.bytes len begun code a refl
        (record { size = v.size; room = omega arith }) in
    elim (Bool-cases (f_crc_blk covered == u16 (bit_or (crc_high <<< 8) crc_low))) [
      | inl f ↦ (
        ok,
        after,
        rw (a.at_high, a.at_low) (rw (covers, e₁, e₂, e₃) (rw f (rw done refl))),
        left,
      )
      | inr f ↦ (false, r, rw (a.at_high, a.at_low) (rw (covers, e₁, e₂, e₃) (rw f refl)), v)
    ]

pub recv_packet-start :
    (p : Packet) (count : ℕ) (bytes : List ℕ)
    → get_elem? bytes 0 ≡ some 0x53
    → recv_packet p (some (count, bytes)) ≡ (true, record { len = count; bytes = bytes })
unfolding recv_packet
recv_packet-start p count bytes start = rw (start, recv_packet) refl

-- The two bytes behind the others are not their checksum.
pub record BadChecksum (bytes : List ℕ) (a : IsAnswer bytes) : Type 0 where
  pub crc_high : ℕ
  pub crc_low : ℕ
  pub at_high : get_elem? bytes (bit_or (a.high <<< 8) a.low - 1) ≡ some crc_high
  pub at_low : get_elem? bytes (bit_or (a.high <<< 8) a.low - 2) ≡ some crc_low
  pub differs :
      f_crc_blk (take (bit_or (a.high <<< 8) a.low - 2) bytes)
      ≢ u16 (bit_or (crc_high <<< 8) crc_low)

-- Then the packet is refused, and the response is left as it was.
pub process_packet-refused :
    (p : Packet) (r : Response) (a : IsAnswer p.bytes)
    → BadChecksum p.bytes a
    → process_packet p r ≡ some (false, record p { len = bit_or (a.high <<< 8) a.low }, r)
unfolding process_packet
process_packet-refused p r a bad =
    let len = bit_or (a.high <<< 8) a.low in
    let less_one : sub32 len 1 ≡ len - 1 = omega (arith, a.long, a.short) in
    let less_two : sub32 len 2 ≡ len - 2 = omega (arith, a.long, a.short) in
    let narrow : u16 (len - 2) ≡ len - 2 = omega (arith, a.short) in
    let covers = first-total p.bytes (len - 2) (omega (arith, a.short, a.size)) in
    let (code, five) = get_elem?-total p.bytes 5 (omega (arith, a.size)) in
    let crc : (f_crc_blk (take (len - 2) p.bytes) == u16 (bit_or (bad.crc_high <<< 8) bad.crc_low))
        ≡ false =
      ground (arith, bad.differs) in
    rw (a.at_high, a.at_low)
      (rw (less_one, less_two) (rw narrow (rw (covers, bad.at_high, bad.at_low, five, crc) refl)))
