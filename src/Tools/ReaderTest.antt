-- ===== src/Tools/ReaderTest.antt =====
-- tools/osdp-reader-test.c: it polls a reader and prints what the reader says.
use osdp_roger_acs.Base.{
  ℕ, ◌≡◌, ◌≢◌, refl, inl, inr, arith, List, [], ◌∷◌, ◌++◌, Option, none, some,
}
use osdp_roger_acs.Base.{
  ◌>>=◌, ◌==◌, if◌then◌else◌, first, take, length, get_elem?, Option-cases, drop, bit_or, ◌<<<◌,
}
use osdp_roger_acs.CString.{codes}
use osdp_roger_acs.Door.{Text}
use osdp_roger_acs.Osdp.Dump.{hex_padded}
use osdp_roger_acs.Osdp.Packet.{Packet, fill_packet, packet_len, osdp_poll}
use osdp_roger_acs.Osdp.Packet.Frame.{frame, fill_packet-frame}
use osdp_roger_acs.Osdp.Process.Total.{
  IsAnswer, IsResponse, BadChecksum, process_packet-refused, recv_packet-start,
}
use osdp_roger_acs.Osdp.Process.{
  Response, process_packet, recv_packet, osdp_ack, osdp_nack, osdp_raw, osdp_kpd,
}

-- `0x7f` is the broadcast address.
abbrev broadcast : ℕ
broadcast = 0x7f

-- The variables of `main`, which are not set before and stay from round to round.
pub record Variables : Type 0 where
  pub packet : Packet
  pub answer : Packet
  pub res : Response

abbrev hex_digits : List ℕ → Text
hex_digits [] = []
hex_digits (b ∷ bytes) = hex_padded 2 b ++ hex_digits bytes

-- The text for one key.
abbrev key_text : ℕ → Text
key_text key =
    if key == 0x7f
    then codes "clear pin\n"
    else (if key == 0x0d then codes "pin accepted\n" else codes "add " ++ key ∷ codes " to pin\n")

abbrev key_texts : List ℕ → Text
key_texts [] = []
key_texts (key ∷ keys) = key_text key ++ key_texts keys

abbrev ack_text : Text
ack_text = codes "ACK - all OK, but no new data from reader\n"

-- The `switch` on the code of the response: what is printed. Keys fall through to the text of an
-- acknowledgement. `none` reads past the payload.
unfoldable pub print_response : Response → Option Text
print_response res =
    let bytes = first res.payload res.payload_len in
    if res.response == osdp_raw
    then (bytes >>= λ card. some (codes "enter card: 0x" ++ hex_digits card ++ codes "\n"))
    else if res.response == osdp_kpd
    then (bytes >>= λ keys. some (key_texts keys ++ ack_text))
    else if res.response == osdp_ack
    then some ack_text
    else if res.response == osdp_nack
    then some (codes "Received NACK from reader\n")
    else some []

-- One round of the loop: the packet that is sent, what is printed and what the variables are then.
-- `received` is what `read` gives. The value of `process_packet` is not looked at.
unfoldable pub test_round : Option (ℕ × List ℕ) → Variables → Option (Packet × Text × Variables)
test_round received v = do
  poll ← fill_packet v.packet broadcast osdp_poll [] 0
  let (came, answer) = recv_packet v.answer received
  if came
      then (process_packet answer v.res >>= λ (_, answer', res). print_response res >>= λ text.
          some (poll, text, record v { packet = poll; answer = answer'; res = res }))
      else some (poll, codes "Received bad packet\n", record v { packet = poll; answer = answer })

-- The loop over what `read` gives: the packets and texts of each round.
unfoldable pub test_rounds :
    List (Option (ℕ × List ℕ)) → Variables → Option (List (Packet × Text) × Variables)
test_rounds [] v = some ([], v)
test_rounds (received ∷ more) v = test_round received v >>= λ (poll, text, v').
    test_rounds more v' >>= λ (rest, last). some ((poll, text) ∷ rest, last)

-- `main`: the exit status if the port does not open, else the loop.
unfoldable pub reader_test :
    Option ℕ → List (Option (ℕ × List ℕ)) → Variables → Option (Text × List (Packet × Text))
reader_test none reads v = some (codes "Open TTY ERROR\n", [])
reader_test (some serial) reads v = test_rounds reads v >>= λ (rounds, _). some ([], rounds)

print_response-ne-none : (res : Response) → IsResponse res → print_response res ≢ none
unfolding print_response
print_response-ne-none res v =
    let bytes = take res.payload_len res.payload in
    let inside : first res.payload res.payload_len ≡ some bytes = ground (arith, v.size, v.room) in
    rw inside (ground arith)

-- A packet with a wrong checksum is printed as the last good one: the round prints the response that
-- the variables hold from before, and leaves it there for the next. The packet is one that
-- `process_packet` reads within its buffer, and the response fits its own.
pub test_round-stale :
    (v : Variables) (count : ℕ) (bytes : List ℕ)
    → length v.packet.bytes ≡ packet_len
    → IsResponse v.res
    → (a : IsAnswer bytes) → get_elem? bytes 0 ≡ some 0x53
    → BadChecksum bytes a
    → (poll : Packet) × (text : Text) × (v' : Variables) × (test_round (some (count, bytes)) v
        ≡ some (poll, text, v'))
      × (print_response v.res ≡ some text)
      × (v'.res ≡ v.res)
unfolding test_round
test_round-stale v count bytes size fits a start bad =
    let polls = fill_packet-frame v.packet broadcast osdp_poll [] size (omega arith) in
    let poll : Packet = record {
      len = 8;
      bytes = frame broadcast osdp_poll [] (drop 2 (drop 6 v.packet.bytes));
    } in
    let refused = process_packet-refused (record { len = count; bytes = bytes }) v.res a bad in
    elim (Option-cases (print_response v.res)) [
      | inl e ↦ absurd (print_response-ne-none v.res fits e)
      | inr (text, e) ↦ (
        poll,
        text,
        record v {
          packet = poll;
          answer = record { len = bit_or (a.high <<< 8) a.low; bytes = bytes };
        },
        rw (polls, recv_packet-start v.answer count bytes start) (rw (refused, e) refl),
        e,
        refl,
      )
    ]
