-- ===== src/Osdp/Process.antt =====
-- Reading an answer: `struct osdp_response`, `process_packet` and `recv_packet` of
-- readers/osdp/osdp.c.
pub mod Accept
pub mod Codes
pub mod Roundtrip
pub mod Total
use osdp_roger_acs.Base.{ℕ, ◌+◌, ◌-◌, ◌%◌, ◌^◌, List, Option, none, some, Bool, true, false, ◌==◌}
use osdp_roger_acs.Base.{
  bit_or, u8, u16, ◌<<<◌, get_elem?, drop, truth, if◌then◌else◌, ◌>>=◌, first, copy_at,
}
use osdp_roger_acs.Osdp.Crc.{f_crc_blk}
use osdp_roger_acs.Osdp.Packet.{Packet}

abbrev pub osdp_ack : ℕ
osdp_ack = 0x40

abbrev pub osdp_nack : ℕ
osdp_nack = 0x41

abbrev pub osdp_raw : ℕ
osdp_raw = 0x50

abbrev pub osdp_kpd : ℕ
osdp_kpd = 0x53

abbrev pub osdp_com : ℕ
osdp_com = 0x54

-- `struct osdp_response`; `payload_len` is an unsigned `char`.
pub record Response : Type 0 where
  pub response : ℕ
  pub payload_len : ℕ
  pub payload : List ℕ

-- `a - b` of `unsigned int`.
abbrev pub sub32 : ℕ → ℕ → ℕ
sub32 a b = (a + 2 ^ 32 - b) % 2 ^ 32

-- `memcpy(response->payload, packet->data + off, n)`.
unfoldable pub take_payload : List ℕ → Response → ℕ → ℕ → Option (Bool × Response)
take_payload bytes r off n = do
  payload ← copy_at r.payload 0 (drop off bytes) n
  some (true, record r { payload = payload; payload_len = u8 n })

-- The `switch` on the code, after `payloadlen` and `response` are set.
unfoldable pub by_code : List ℕ → ℕ → Response → ℕ → Option (Bool × Response)
by_code bytes len r code =
    if code == osdp_ack
    then some (true, r)
    else (if code == osdp_nack
        then some (true, r)
        else (if code == osdp_raw
            then take_payload bytes r 6 (sub32 len 8)
            else (if code == osdp_kpd
                then (get_elem? bytes 7 >>= λ pin_len. take_payload bytes r 8 pin_len)
                else (if code == osdp_com
                    then take_payload bytes r 6 (sub32 len 8)
                    else some (false, r)))))

-- `process_packet(packet, response)`: the value, the packet and the response after it.
unfoldable pub process_packet : Packet → Response → Option (Bool × Packet × Response)
process_packet p r = do
  high ← get_elem? p.bytes 3
  low ← get_elem? p.bytes 2
  let len = bit_or (high <<< 8) low
  covered ← first p.bytes (u16 (sub32 len 2))
  crc_high ← get_elem? p.bytes (sub32 len 1)
  crc_low ← get_elem? p.bytes (sub32 len 2)
  code ← get_elem? p.bytes 5
  if f_crc_blk covered == u16 (bit_or (crc_high <<< 8) crc_low)
      then (by_code p.bytes len (record r { payload_len = 0; response = code }) code
          >>= λ (ok, after). some (ok, record p { len = len }, after))
      else some (false, record p { len = len }, r)

-- `recv_packet(packet, fd)`: `received` is what `read` returns when it returns a positive count, with
-- the packet's bytes after it.
unfoldable pub recv_packet : Packet → Option (ℕ × List ℕ) → Bool × Packet
recv_packet p none = (false, p)
recv_packet p (some (count, bytes)) =
    let q : Packet = record { len = count; bytes = bytes } in
    elim (get_elem? bytes 0) [ some b ↦ (b == 0x53, q) | none ↦ (false, q) ]
