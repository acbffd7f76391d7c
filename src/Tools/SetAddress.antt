-- ===== src/Tools/SetAddress.antt =====
-- tools/osdp-set-address.c: it gives a reader its address.
use osdp_roger_acs.Base.{
  ℕ, zero, suc, ◌+◌, ap, sym, ◌∙◌, ◌<◌, ◌≤◌, ◌≡◌, refl, arith, List, [], ◌∷◌, ◌++◌, Option, none,
  some, true, u8,
}
use osdp_roger_acs.Base.{
  ◌>>=◌, inl, inr, ◌⊎◌, bit_or, ◌<<<◌, if◌then◌else◌, length, take, drop, length-take,
}
use osdp_roger_acs.Base.{false}
use osdp_roger_acs.Base.{take-drop}
use osdp_roger_acs.CString.{codes, dec_signed}
use osdp_roger_acs.Door.{Text}
use osdp_roger_acs.Osdp.Dump.Lines.{dump_lines, packet_dump-lines}
use osdp_roger_acs.Osdp.Crc.Register.{AreBytes}
use osdp_roger_acs.Osdp.Dump.{DumpLine, heading, hex_padded, packet_dump}
use osdp_roger_acs.Osdp.Packet.{Packet, packet_len, fill_packet, comset, osdp_comset}
use osdp_roger_acs.Osdp.Packet.Frame.{frame, fill_packet-frame}
use osdp_roger_acs.Osdp.Process.Total.{IsAnswer, IsResponse, process_packet-Returns}
use osdp_roger_acs.Idesco.Ends.{ReadsAnswer, received_cases}
use osdp_roger_acs.Osdp.Process.{Response, process_packet, recv_packet}

-- What happens in one run: a line of usage, or what is sent, printed and dumped.
pub data SetRun : Type 0 where
  usage : Text → SetRun
  done : Packet → Text → List DumpLine → SetRun

-- What `main` finds: its arguments, what `portsetup` and `strtol` give of them, as words of an `int`,
-- what the variables hold before, and what `read` gives.
pub record SetSetting : Type 0 where
  pub portsetup : Text → ℕ
  pub strtol : Text → ℕ
  pub packet : Packet
  pub answer : Packet
  pub res : Response
  pub trash : List ℕ
  pub buf : Text
  pub received : Option (ℕ × List ℕ)

abbrev started : ℕ → ℕ → Text
started serial address =
    codes "Init done\nFD: TX: "
    ++ dec_signed serial
    ++ codes "\n"
    ++ codes "Address set to "
    ++ hex_padded 2 address
    ++ codes "\n"

-- The part of `main` behind the two arguments.
unfoldable pub set_address : SetSetting → Text → Text → Option SetRun
set_address env device address = do
  let new_address = env.strtol address
  packet ← comset env.packet 0x7f new_address 9600 env.trash
  let head = started (env.portsetup device) new_address
  let (came, answer) = recv_packet env.answer env.received
  if came
      then (process_packet answer env.res >>= λ (_, answer', _).
          packet_dump answer' 0 0 env.buf >>= λ lines.
          some (SetRun.done packet (head ++ codes "Response received OK\n") lines))
      else some (SetRun.done packet (head ++ codes "Received bad packet\n") [])

-- `main`, with the program's name and its arguments.
unfoldable pub set_address_main : SetSetting → Text → List Text → Option SetRun
set_address_main env name (device ∷ address ∷ more) = set_address env device address
set_address_main env name (device ∷ []) =
    some (SetRun.usage (codes "Usage: " ++ name ++ codes " <serial> <address>\n"))
set_address_main env name [] =
    some (SetRun.usage (codes "Usage: " ++ name ++ codes " <serial> <address>\n"))

-- The packet that gives a reader the address: to the broadcast address, with the low byte of the new
-- address, that of 9600, and three bytes that were never set.
abbrev set_payload : SetSetting → ℕ → List ℕ
set_payload env new_address = u8 new_address ∷ u8 9600 ∷ env.trash

abbrev pub set_packet : SetSetting → ℕ → Packet
set_packet env new_address =
    let payload = set_payload env new_address in
    record {
      len = 8 + length payload;
      bytes = frame 0x7f osdp_comset payload (drop (length payload + 2) (drop 6 env.packet.bytes));
    }

comset-set_packet :
    (env : SetSetting) (new_address : ℕ)
    → length env.packet.bytes ≡ packet_len
    → length env.trash ≡ 3
    → comset env.packet 0x7f new_address 9600 env.trash ≡ some (set_packet env new_address)
unfolding comset
comset-set_packet env new_address size three =
    let payload = set_payload env new_address in
    let five : 5 ≡ length payload = omega (arith, three) in
    ap (λ (n : ℕ). fill_packet env.packet 0x7f osdp_comset payload n) five
    ∙ fill_packet-frame env.packet 0x7f osdp_comset payload size (omega (arith, three))

take-AreBytes : (n : ℕ) (xs : List ℕ) → AreBytes xs → AreBytes (take n xs)
take-AreBytes zero xs h = tt
take-AreBytes (suc n) [] h = tt
take-AreBytes (suc n) (x ∷ xs) (b, h) = (b, take-AreBytes n xs h)

-- What `packet_dump` prints of a whole packet.
abbrev pub whole_dump : ℕ → List ℕ → List DumpLine
whole_dump len bytes = heading len ∷ dump_lines 0 (take len bytes)

dumps :
    (p : Packet) (buf : Text)
    → AreBytes p.bytes
    → 0 < p.len
    → p.len ≤ length p.bytes
    → p.len ≤ packet_len
    → packet_dump p 0 0 buf ≡ some (whole_dump p.len p.bytes)
dumps p buf small some_byte long fits =
    let body = take p.len p.bytes in
    let whole : p.bytes ≡ body ++ drop p.len p.bytes = sym (take-drop p.len p.bytes) in
    let count : length body ≡ p.len = omega (arith, length-take {0} p.len p.bytes, long) in
    packet_dump-lines p [] body (drop p.len p.bytes) 0 buf whole (take-AreBytes p.len p.bytes small)
      (omega (arith, count)) fits (omega (arith, count))

-- What is read has bytes only.
abbrev pub ReadsBytes : Option (ℕ × List ℕ) → Type 0
ReadsBytes none = Unit
ReadsBytes (some (count, bytes)) = AreBytes bytes

received-AreBytes :
    (answer : Packet) (o : Option (ℕ × List ℕ))
    → ReadsBytes o
    → (recv_packet answer o).0 ≡ true
    → AreBytes (recv_packet answer o).1.bytes
unfolding recv_packet
received-AreBytes answer none small e = absurd (ground (arith, e))
received-AreBytes answer (some (count, [])) small e = small
received-AreBytes answer (some (count, b ∷ bytes)) small e = small

-- The two ways that a run with two arguments ends.
abbrev pub Outcome : SetSetting → Text → Text → Option SetRun → Type 0
Outcome env device address run =
    let new_address = env.strtol address in
    let sent = set_packet env new_address in
    let head = started (env.portsetup device) new_address in
    let (came, answer) = recv_packet env.answer env.received in
    ((came ≡ false) × (run ≡ some (SetRun.done sent (head ++ codes "Received bad packet\n") [])))
    ⊎ ((came ≡ true)
        × (a : IsAnswer answer.bytes) × (run
            ≡ some (
                SetRun.done sent (head ++ codes "Response received OK\n")
                  (whole_dump (bit_or (a.high <<< 8) a.low) answer.bytes))))

-- With two arguments the tool sends one packet: to the broadcast address, with the command to set the
-- port, the low byte of the new address and that of 9600, and three bytes that were never set. It ends
-- with the text for a bad packet, if none with a start byte is read, and else with that for a good one
-- and a dump of as many bytes as the packet's length field says, whether its checksum is right or wrong.
-- What is read is nothing, or bytes that `process_packet` reads within its buffer, and `res` is one.
pub set_address-sends :
    (env : SetSetting) (name device address : Text) (more : List Text)
    → length env.packet.bytes ≡ packet_len
    → length env.trash ≡ 3
    → IsResponse env.res
    → ReadsAnswer env.received
    → ReadsBytes env.received
    → Outcome env device address (set_address_main env name (device ∷ address ∷ more))
unfolding set_address_main set_address
set_address-sends env name device address more size three fits reads small =
    let built = comset-set_packet env (env.strtol address) size three in
    elim (received_cases env.answer env.received reads) [
      | inl e ↦ inl (e, rw (built, e) refl)
      | inr (e, a) ↦
          let answer = (recv_packet env.answer env.received).1 in
          let (ok, after, f, v) = process_packet-Returns answer env.res a fits in
          let len = bit_or (a.high <<< 8) a.low in
          let g =
            dumps (record answer { len = len }) env.buf
              (received-AreBytes env.answer env.received small e) (omega (arith, a.long))
              (omega (arith, a.short, a.size)) a.short in
          inr (e, a, rw built (rw (e, f, g) refl))
    ]
