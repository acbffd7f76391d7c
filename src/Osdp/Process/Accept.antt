-- ===== src/Osdp/Process/Accept.antt =====
-- What `process_packet` of readers/osdp/osdp.c accepts.
use osdp_roger_acs.Base.{ℕ, zero, suc, ◌-◌, ◌≤◌, ◌<◌, ◌≡◌, refl, ap, ◌∙◌, arith, List, [], ◌∷◌}
use osdp_roger_acs.Base.{Bool, true, false, Option, none, some, Bool-cases, inl, inr, ◌==◌, ==_iff}
use osdp_roger_acs.Base.{bit_or, u16, ◌<<<◌, ◌>>=◌, get_elem?, take, length, first, if◌then◌else◌}
use osdp_roger_acs.Base.{◌*◌, ◌^◌, bit_or-lt, on_some}
use osdp_roger_acs.Osdp.Crc.Register.{AreBytes}
use osdp_roger_acs.Osdp.Crc.{f_crc_blk}
use osdp_roger_acs.Osdp.Packet.{Packet, packet_len}
use osdp_roger_acs.Osdp.Process.{Response, by_code, process_packet, sub32}
use osdp_roger_acs.Osdp.Process.Codes.{
  IsAnswer, get_elem?-lt, number_of, GoodPayload, by_code-good, first-eq,
}

-- What an accepted packet `p` is: `q` is the packet and `after` the response that are left.
pub record Accepted (p q : Packet) (after : Response) : Type 0 where
  pub size : (2 ≤ q.len) × (q.len ≤ length p.bytes)
  pub checksum :
      (high : ℕ) × (low : ℕ) × (get_elem? p.bytes (q.len - 1) ≡ some high)
      × (get_elem? p.bytes (q.len - 2) ≡ some low)
      × (f_crc_blk (take (q.len - 2) p.bytes) ≡ u16 (bit_or (high <<< 8) low))
  pub code : get_elem? p.bytes 5 ≡ some after.response
  pub answer : IsAnswer after.response
  pub payload : after.payload_len ≤ length after.payload
  pub same : q.bytes ≡ p.bytes

-- The end of `process_packet`, where the checksum is compared.
abbrev pub verdict : Packet → Response → ℕ → ℕ → ℕ → ℕ → List ℕ → Option (Bool × Packet × Response)
verdict p r len crc_high crc_low code covered =
    if f_crc_blk covered == u16 (bit_or (crc_high <<< 8) crc_low)
    then (by_code p.bytes len (record r { payload_len = 0; response = code }) code
        >>= λ (ok, after). some (ok, record p { len = len }, after))
    else some (false, record p { len = len }, r)

abbrev parts :
    Bool × Packet × Response → Option (Bool × Packet × Response) → Bool × Packet × Response
parts d none = d
parts d (some x) = x

accepted :
    (p : Packet) (r got : Response)
    → length p.bytes ≡ packet_len
    → (len crc_high crc_low code : ℕ) → len < 2 ^ 16
    → (covered : List ℕ) → first p.bytes (u16 (sub32 len 2)) ≡ some covered
    → get_elem? p.bytes (sub32 len 1) ≡ some crc_high
    → get_elem? p.bytes (sub32 len 2) ≡ some crc_low
    → get_elem? p.bytes 5 ≡ some code
    → f_crc_blk covered ≡ u16 (bit_or (crc_high <<< 8) crc_low)
    → by_code p.bytes len (record r { payload_len = 0; response = code }) code ≡ some (true, got)
    → Accepted p (record p { len = len }) got
unfolding GoodPayload
accepted p r got size len crc_high crc_low code small covered e₃ e₄ e₅ e₆ crc h =
    let (fits, taken) = first-eq p.bytes covered _ e₃ in
    let low_in = get_elem?-lt p.bytes (sub32 len 2) crc_low e₅ in
    let high_in = get_elem?-lt p.bytes (sub32 len 1) crc_high e₄ in
    let (answer, (same_code, payload)) = by_code-good p.bytes _ got len code refl h in
    let last : sub32 len 1 ≡ len - 1 = omega arith in
    let before : sub32 len 2 ≡ len - 2 = omega arith in
    let covers : u16 (sub32 len 2) ≡ len - 2 = omega arith in
    record {
      size = (omega arith, omega arith);
      checksum = (crc_high, crc_low, rw (← last) e₄, rw (← before) e₅, rw (← covers, ← taken) crc);
      code = rw same_code e₆;
      answer = rw same_code answer;
      payload = payload;
      same = refl;
    }

checked :
    (p q : Packet) (r after : Response)
    → length p.bytes ≡ packet_len
    → (len crc_high crc_low code : ℕ) → len < 2 ^ 16
    → (covered : List ℕ) → first p.bytes (u16 (sub32 len 2)) ≡ some covered
    → get_elem? p.bytes (sub32 len 1) ≡ some crc_high
    → get_elem? p.bytes (sub32 len 2) ≡ some crc_low
    → get_elem? p.bytes 5 ≡ some code
    → verdict p r len crc_high crc_low code covered ≡ some (true, q, after)
    → Accepted p q after
checked p q r after size len crc_high crc_low code small covered e₃ e₄ e₅ e₆ h =
    elim (Bool-cases (f_crc_blk covered == u16 (bit_or (crc_high <<< 8) crc_low))) [
      | inr e ↦ absurd (ground (arith, h, e))
      | inl e ↦
          on_some (by_code p.bytes len (record r { payload_len = 0; response = code }) code)
            (rw e at h)
            λ (ok, got) f g.
              let same = ap (parts (true, q, after)) g in
              let f' : by_code p.bytes len (record r { payload_len = 0; response = code }) code
                  ≡ some (true, got) =
                f ∙ ap (λ (b : Bool). some (b, got)) (ap (λ x. x.0) same) in
              rw (← ap (λ x. x.1) same, ← ap (λ x. x.2) same)
                (accepted p r got size len crc_high crc_low code small covered e₃ e₄ e₅ e₆
                  ((==_iff _ _).0 e) f')
    ]

get_elem?-byte : (xs : List ℕ) (i v : ℕ) → AreBytes xs → get_elem? xs i ≡ some v → v < 256
get_elem?-byte [] i v b h = absurd (ground arith)
get_elem?-byte (x ∷ xs) zero v b h = omega (arith, b.0, ap number_of h)
get_elem?-byte (x ∷ xs) (suc i) v b h = get_elem?-byte xs i v b.1 h

length_field :
    (p : Packet)
    → AreBytes p.bytes
    → (high low : ℕ) → get_elem? p.bytes 3 ≡ some high
    → get_elem? p.bytes 2 ≡ some low
    → bit_or (high <<< 8) low < 2 ^ 16
length_field p all high low e₁ e₂ =
    let high_byte = get_elem?-byte p.bytes 3 high all e₁ in
    let low_byte = get_elem?-byte p.bytes 2 low all e₂ in
    bit_or-lt 16 (high * 2 ^ 8) low (omega arith) (omega arith)

-- Where C defines what `process_packet` does on a packet of bytes, which is where its unchecked length
-- and counts stay within the buffers: a packet that it accepts has the checksum of the bytes before it in
-- its last two bytes and the code of an answer; its length, and that of the payload, are then within
-- the buffers, and its bytes are unchanged.
pub process_packet-Accepted :
    (p q : Packet) (r after : Response)
    → length p.bytes ≡ packet_len
    → AreBytes p.bytes
    → process_packet p r ≡ some (true, q, after)
    → Accepted p q after
unfolding process_packet
process_packet-Accepted p q r after size all h = on_some (get_elem? p.bytes 3) h λ high e₁ h₁.
    on_some (get_elem? p.bytes 2) h₁ λ low e₂ h₂.
      on_some (first p.bytes (u16 (sub32 (bit_or (high <<< 8) low) 2))) h₂ λ covered e₃ h₃.
        on_some (get_elem? p.bytes (sub32 (bit_or (high <<< 8) low) 1)) h₃ λ crc_high e₄ h₄.
          on_some (get_elem? p.bytes (sub32 (bit_or (high <<< 8) low) 2)) h₄ λ crc_low e₅ h₅.
            on_some (get_elem? p.bytes 5) h₅ λ code e₆ h₆.
              checked p q r after size (bit_or (high <<< 8) low) crc_high crc_low code
                (length_field p all high low e₁ e₂) covered e₃ e₄ e₅ e₆ h₆
