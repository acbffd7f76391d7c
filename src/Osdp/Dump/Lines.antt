-- ===== src/Osdp/Dump/Lines.antt =====
-- `packet_dump` of readers/osdp/osdp.c against a definition without a buffer.
use osdp_roger_acs.Base.{
  ℕ, zero, suc, ◌+◌, ◌-◌, ◌*◌, ◌%◌, ◌≤◌, ◌<◌, ◌≡◌, ◌≢◌, refl, ap, ◌∙◌, arith, List, [], ◌∷◌, ◌++◌,
  Option, none, some, true, false, ◌&&◌,
}
use osdp_roger_acs.Base.{
  ◌>>=◌, ◌==◌, ==_iff, leb, if◌then◌else◌, length, length-append, append_cons, take, get_elem?,
  get_elem?-append, truth, all_below, all_below-holds,
}
use osdp_roger_acs.CString.{hex_number}
use osdp_roger_acs.Door.{Text}
use osdp_roger_acs.Osdp.Crc.Register.{AreBytes}
use osdp_roger_acs.Osdp.Packet.{Packet, packet_len}
use osdp_roger_acs.Osdp.Process.{sub32}
use osdp_roger_acs.Osdp.Dump.{
  DumpLine, heading, row, hex_padded, print_at, offset_text, byte_text, dump_from, packet_dump,
}

-- The lines of some bytes: `line` is the one that is being filled, with room for `room` more bytes,
-- and `i` the offset of the next byte.
unfoldable pub lines_from : Text → ℕ → ℕ → List ℕ → List DumpLine
lines_from line room i [] = row line ∷ []
lines_from line zero i (b ∷ bytes) =
    row line ∷ lines_from (offset_text i ++ byte_text b) 7 (suc i) bytes
lines_from line (suc room) i (b ∷ bytes) = lines_from (line ++ byte_text b) room (suc i) bytes

-- Lines of eight bytes, each behind the offset of its first.
unfoldable pub dump_lines : ℕ → List ℕ → List DumpLine
dump_lines i [] = []
dump_lines i (b ∷ bytes) = lines_from (offset_text i ++ byte_text b) 7 (suc i) bytes

byte_widths : all_below 256 (λ b. length (byte_text b) == 3) ≡ true
unfolding all_below hex_padded hex_number
byte_widths = refl

offset_widths : all_below 64 (λ i. length (offset_text i) == 6) ≡ true
unfolding all_below hex_padded hex_number
offset_widths = refl

length-byte_text : (b : ℕ) → b < 256 → length (byte_text b) ≡ 3
length-byte_text b h = (==_iff _ 3).0 (all_below-holds 256 _ b byte_widths h)

length-offset_text : (i : ℕ) → i < 64 → length (offset_text i) ≡ 6
length-offset_text i h = (==_iff _ 6).0 (all_below-holds 64 _ i offset_widths h)

take-all : (n : ℕ) (s : Text) → length s ≤ n → take n s ≡ s
take-all zero [] h = refl
take-all zero (c ∷ s) h = absurd (omega arith)
take-all (suc n) [] h = refl
take-all (suc n) (c ∷ s) h = ap (◌∷◌ c) (take-all n s (omega arith))

-- What fits is appended.
print_at-fits :
    (buf text : Text) (pos : ℕ)
    → length buf ≡ pos
    → pos + length text ≤ 31
    → print_at buf pos text ≡ buf ++ text
unfolding print_at
print_at-fits buf text pos e h =
    rw (take-all pos buf (omega arith), take-all (31 - pos) text (omega arith)) refl

print_at-start : (buf text : Text) → length text ≤ 31 → print_at buf 0 text ≡ text
unfolding print_at
print_at-start buf text h = take-all 31 text h

bind-some : (m : Option (List DumpLine)) → m >>= (λ lines. some lines) ≡ m
bind-some none = refl
bind-some (some lines) = refl

module _ (bytes : List ℕ) (start : ℕ) where
  -- One byte behind a line that has room for it.
  dump_from-room :
      (n i b pos : ℕ) (buf : Text)
      → get_elem? bytes i ≡ some b
      → b < 256
      → ((i - start) % 8 == 0) ≡ false
      → length buf ≡ pos
      → pos ≤ 28
      → dump_from bytes start (suc n) i buf pos
        ≡ dump_from bytes start n (suc i) (buf ++ byte_text b) (pos + 3)
  unfolding dump_from
  dump_from-room n i b pos buf at small inside e h =
      let width = length-byte_text b small in
      let fits : leb 32 (pos + 3) ≡ false = ground (arith, h) in
      rw (at, inside, width, fits)
        (rw (print_at-fits buf (byte_text b) pos e (omega (arith, width))) (bind-some _))

  dump_from-begins :
      (n i b pos : ℕ) (buf : Text)
      → get_elem? bytes i ≡ some b
      → b < 256
      → i < 64
      → ((i - start) % 8 == 0) ≡ true
      → dump_from bytes start (suc n) i buf pos ≡ (
          dump_from bytes start n (suc i) (offset_text i ++ byte_text b) 9 >>= λ lines.
          some ((if truth pos then row buf ∷ [] else []) ++ lines))
  unfolding dump_from
  dump_from-begins n i b pos buf at small low begins =
      let width = length-byte_text b small in
      let offset = length-offset_text i low in
      rw (at, begins, offset, width)
        (rw
          (
            print_at-start buf (offset_text i) (omega (arith, offset)),
            print_at-fits (offset_text i) (byte_text b) 6 offset (omega (arith, width)),
          )
          refl)

  dump_from-end : (i pos : ℕ) (buf : Text) → dump_from bytes start 0 i buf pos ≡ some (row buf ∷ [])
  unfolding dump_from
  dump_from-end i pos buf = refl

  -- The loop over the bytes from offset `i` on.
  dump_from-lines :
      (ys pre post : List ℕ) (buf : Text) (room i : ℕ)
      → bytes ≡ pre ++ (ys ++ post)
      → length pre ≡ i
      → start ≤ i
      → (i - start + room) % 8 ≡ 0
      → room ≤ 7
      → length buf ≡ 30 - 3 * room
      → i + length ys ≤ 64
      → AreBytes ys
      → dump_from bytes start (length ys) i buf (30 - 3 * room) ≡ some (lines_from buf room i ys)
  unfolding lines_from
  dump_from-lines [] pre post buf room i e at from align little size low small =
      dump_from-end i (30 - 3 * room) buf
  dump_from-lines (b ∷ ys) pre post buf zero i e at from align little size low small =
      let here : get_elem? bytes i ≡ some b = rw (e, ← at) (get_elem?-append pre (ys ++ post) b) in
      let begins : ((i - start) % 8 == 0) ≡ true = (==_iff _ 0).1 (omega arith) in
      let next : length (pre ++ b ∷ []) ≡ suc i = omega (arith, length-append pre (b ∷ [])) in
      let line : length (offset_text i ++ byte_text b) ≡ 9 = omega (
        arith,
        length-append (offset_text i) (byte_text b),
        length-offset_text i (omega arith),
        length-byte_text b small.0,
      ) in
      rw (dump_from-begins (length ys) i b 30 buf here small.0 (omega arith) begins) (
        rw
          (dump_from-lines ys (pre ++ b ∷ []) post (offset_text i ++ byte_text b) 7 (suc i)
            (e ∙ append_cons pre (ys ++ post) b) next (omega arith) (omega arith) (omega arith) line
            (omega arith) small.1)
          refl)
  dump_from-lines (b ∷ ys) pre post buf (suc room) i e at from align little size low small =
      let here : get_elem? bytes i ≡ some b = rw (e, ← at) (get_elem?-append pre (ys ++ post) b) in
      let inside : ((i - start) % 8 == 0) ≡ false =
        let off : (i - start) % 8 ≢ 0 = λ z. absurd (omega arith) in ground (arith, off) in
      let next : length (pre ++ b ∷ []) ≡ suc i = omega (arith, length-append pre (b ∷ [])) in
      let line : length (buf ++ byte_text b) ≡ 30 - 3 * room =
        omega (arith, length-append buf (byte_text b), length-byte_text b small.0) in
      let more : 30 - 3 * suc room + 3 ≡ 30 - 3 * room = omega arith in
      rw
        (dump_from-room (length ys) i b (30 - 3 * suc room) buf here small.0 inside size
          (omega arith))
        (rw more (
          dump_from-lines ys (pre ++ b ∷ []) post (buf ++ byte_text b) room (suc i)
            (e ∙ append_cons pre (ys ++ post) b) next (omega arith) (omega arith) (omega arith) line
            (omega arith) small.1))

-- A packet of bytes within its buffer, from an offset before its end on: `packet_dump` prints its bytes
-- up to the end, in lines of eight behind the offset of the first, each in whole within the buffer of 32
-- characters, and never the error; in front of them the heading, if both offsets are 0. The bytes that
-- are printed are `body`, between `pre` and `post` in the packet.
pub packet_dump-lines :
    (p : Packet) (pre body post : List ℕ) (end : ℕ) (trash : Text)
    → p.bytes ≡ pre ++ (body ++ post)
    → AreBytes body
    → 0 < length body
    → p.len ≤ packet_len
    → length pre + length body + end ≡ p.len
    → packet_dump p (length pre) end trash
      ≡ some (
          (if length pre == 0 && end == 0 then heading p.len ∷ [] else [])
          ++ dump_lines (length pre) body)
unfolding packet_dump dump_lines
packet_dump-lines p pre [] post end trash e small some_byte fits size = absurd (omega arith)
packet_dump-lines p pre (b ∷ body) post end trash e small some_byte fits size =
    let start = length pre in
    let stop : sub32 p.len end ≡ start + suc (length body) = omega arith in
    let more : leb (start + suc (length body)) start ≡ false = ground arith in
    let count : start + suc (length body) - start ≡ suc (length body) = omega arith in
    let here : get_elem? p.bytes start ≡ some b = rw e (get_elem?-append pre (body ++ post) b) in
    let begins : ((start - start) % 8 == 0) ≡ true = (==_iff _ 0).1 (omega arith) in
    let next : length (pre ++ b ∷ []) ≡ suc start = omega (arith, length-append pre (b ∷ [])) in
    let line : length (offset_text start ++ byte_text b) ≡ 9 = omega (
      arith,
      length-append (offset_text start) (byte_text b),
      length-offset_text start (omega arith),
      length-byte_text b small.0,
    ) in
    rw (stop, more, count)
      (rw
        (dump_from-begins p.bytes start (length body) start b 0 trash here small.0 (omega arith)
          begins)
        (rw
          (dump_from-lines p.bytes start body (pre ++ b ∷ []) post
            (offset_text start ++ byte_text b) 7 (suc start) (e ∙ append_cons pre (body ++ post) b)
            next (omega arith) (omega arith) (omega arith) line (omega arith) small.1)
          refl))
