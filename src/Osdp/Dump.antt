-- ===== src/Osdp/Dump.antt =====
-- `packet_dump` of readers/osdp/osdp.c: the bytes of a packet in lines of eight, for the system log.
pub mod Lines
use osdp_roger_acs.Base.{
  ℕ, zero, suc, ◌+◌, ◌-◌, ◌*◌, ◌%◌, ◌≤◌, ◌<◌, ◌≡◌, refl, inl, inr, arith, List, [], ◌∷◌, ◌++◌,
  Option, some, Bool, ◌&&◌,
}
use osdp_roger_acs.Base.{
  ◌>>=◌, ◌==◌, leb, ltb, if◌then◌else◌, length, length-append, take, replicate, get_elem?, truth,
  Bool-cases,
}
use osdp_roger_acs.CString.{codes, hex_number}
use osdp_roger_acs.Door.{Text}
use osdp_roger_acs.Osdp.Packet.{Packet, packet_len}
use osdp_roger_acs.Osdp.Process.{sub32}

-- What is printed. The first line has the packet's address, which is left out here.
pub data DumpLine : Type 0 where
  heading : ℕ → DumpLine
  too_short : DumpLine
  row : Text → DumpLine
  dump_error : DumpLine

-- `%0*x`.
unfoldable pub hex_padded : ℕ → ℕ → Text
hex_padded width n = replicate (width - length (hex_number n)) b'0' ++ hex_number n

abbrev dump_size : ℕ
dump_size = 32

-- `snprintf(buf + pos, 32 - pos, …)`: what is before `pos` stays.
unfoldable pub print_at : Text → ℕ → Text → Text
print_at buf pos text = take pos buf ++ take (dump_size - 1 - pos) text

abbrev offset_text : ℕ → Text
offset_text i = hex_padded 4 i ++ codes ": "

abbrev byte_text : ℕ → Text
byte_text b = hex_padded 2 b ++ codes " "

-- What a new line prints of the one before it.
abbrev finished : ℕ → Text → List DumpLine
finished pos buf = if truth pos then row buf ∷ [] else []

-- The loop at index `i`, with `n` rounds left.
unfoldable pub dump_from : List ℕ → ℕ → ℕ → ℕ → Text → ℕ → Option (List DumpLine)
dump_from bytes start zero i buf pos = some (row buf ∷ [])
dump_from bytes start (suc n) i buf pos =
    let begins = (i - start) % 8 == 0 in
    let before = if begins then finished pos buf else [] in
    let buf₁ = if begins then print_at buf 0 (offset_text i) else buf in
    let pos₁ = if begins then length (offset_text i) else pos in
    get_elem? bytes i >>= λ b.
    let pos₂ = pos₁ + length (byte_text b) in
    let rest = dump_from bytes start n (suc i) (print_at buf₁ pos₁ (byte_text b)) pos₂ in
    if leb dump_size pos₂
    then some (before ++ dump_error ∷ [])
    else (rest >>= λ lines. some (before ++ lines))

-- `packet_dump(packet, start_offset, end_offset)`; `trash` is what `buf` holds before.
unfoldable pub packet_dump : Packet → ℕ → ℕ → Text → Option (List DumpLine)
packet_dump p start end trash =
    let stop = sub32 p.len end in
    let head = if start == 0 && end == 0 then heading p.len ∷ [] else [] in
    let rows =
      dump_from p.bytes start (stop - start) start trash 0 >>= λ lines. some (head ++ lines) in
    if leb stop start then some (head ++ too_short ∷ []) else rows
