-- ===== src/Idesco/Ends.antt =====
-- One poll of readers/reader-idesco.c ends for every answer that fits the buffers.
use osdp_roger_acs.Base.{
  ℕ, ◌≡◌, refl, ◌⊎◌, inl, inr, arith, List, [], ◌∷◌, Option, none, some, true, false,
}
use osdp_roger_acs.Base.{length, take, ltb, leb, truth, Bool-cases, Option-cases, get_elem?}
use osdp_roger_acs.Base.{◌==◌}
use osdp_roger_acs.Reader.{DataMode}
use osdp_roger_acs.Osdp.Packet.{Packet, packet_len, osdp_poll}
use osdp_roger_acs.Osdp.Packet.Frame.{fill_packet-frame}
use osdp_roger_acs.Osdp.Process.{Response, recv_packet, osdp_raw, osdp_kpd, osdp_ack}
use osdp_roger_acs.Osdp.Process.Total.{IsAnswer, IsResponse, process_packet-Returns}
use osdp_roger_acs.Idesco.{
  Reader, Callback, Exchange, get_reader_data, on_response, card_read, card_id_offset, idle,
}
use osdp_roger_acs.Idesco.Keypad.{
  IsReady, KeepsReady, EndsReady, deliver-IsReady, press_all-EndsReady,
}
use osdp_roger_acs.Idesco.Poll.{poll_packet}

module _ {S : Type 0} (handle : Callback S) (keeps : KeepsReady handle) (t : ℕ) where
  idle-IsReady : (r : Reader) (s : S) → IsReady r → IsReady (idle handle t r s).0
  unfolding idle
  idle-IsReady r s h =
      let timed = deliver-IsReady handle keeps DataMode.timeout r s h in
      elim (Bool-cases (ltb 0 r.pin_buf_pos)) [
        | inr e ↦ rw e h
        | inl e ↦ elim (Bool-cases (ltb 0 r.code_timeout)) [
          | inl f ↦ rw (e, f) (record { size = h.size; room = h.room })
          | inr f ↦ elim (Bool-cases (truth t)) [
            | inl g ↦ rw (e, f, g) timed
            | inr g ↦ rw (e, f, g) h
          ]
        ]
      ]

  card_read-IsReady :
      (res : Response) (r : Reader) (s : S) → IsReady r → IsReady (card_read handle res r s).0
  unfolding card_read
  card_read-IsReady res r s h = elim (Bool-cases (ltb card_id_offset res.payload_len)) [
    | inl e ↦ rw e (let after = keeps _ r s h in record { size = after.size; room = omega arith })
    | inr e ↦ rw e (record { size = h.size; room = omega arith })
  ]

  on_response-EndsReady :
      (res : Response) (r : Reader) (s : S)
      → IsResponse res
      → IsReady r
      → EndsReady (on_response handle t res r s)
  unfolding on_response
  on_response-EndsReady res r s v h = elim (Bool-cases (res.response == osdp_raw)) [
    | inl e ↦
        let after = card_read handle res r s in
        rw e (after.0, after.1, refl, card_read-IsReady res r s h)
    | inr e ↦ elim (Bool-cases (res.response == osdp_kpd)) [
      | inl f ↦
          let inside : leb res.payload_len (length res.payload) ≡ true =
            ground (arith, v.size, v.room) in
          let (r', s', g, h') =
            press_all-EndsReady handle keeps t (take res.payload_len res.payload) r s h in
          let after = idle handle t r' s' in
          rw (e, f, inside, g) (after.0, after.1, refl, idle-IsReady r' s' h')
      | inr f ↦ elim (Bool-cases (res.response == osdp_ack)) [
        | inl g ↦
            let after = idle handle t r s in
            rw (e, f, g) (after.0, after.1, refl, idle-IsReady r s h)
        | inr g ↦ rw (e, f, g) (r, s, refl, h)
      ]
    ]
  ]

-- What `read` gives at a poll: nothing, or a buffer whose lengths fit.
abbrev pub ReadsAnswer : Option (ℕ × List ℕ) → Type 0
ReadsAnswer none = Unit
ReadsAnswer (some (count, bytes)) = IsAnswer bytes

starts : (bytes : List ℕ) → IsAnswer bytes → (b : ℕ) × (get_elem? bytes 0 ≡ some b)
starts [] a = absurd (omega (arith, a.size))
starts (b ∷ bytes) a = (b, refl)

pub received_cases :
    (answer : Packet) (o : Option (ℕ × List ℕ))
    → ReadsAnswer o
    → ((recv_packet answer o).0 ≡ false)
      ⊎ (((recv_packet answer o).0 ≡ true) × IsAnswer (recv_packet answer o).1.bytes)
unfolding recv_packet
received_cases answer none a = inl refl
received_cases answer (some (count, bytes)) a =
    let (b, e) = starts bytes a in
    elim (Bool-cases (b == 0x53)) [
      | inl f ↦ inr (rw (e, recv_packet) f, rw (e, recv_packet) a)
      | inr f ↦ inl (rw (e, recv_packet) f)
    ]

-- A poll of a ready reader ends, and leaves it ready: the request is sent to its address, and whatever
-- the line gives is handled without an access past the end of an array, be it nothing, a bad packet,
-- an answer with a wrong checksum or an unknown code, a card or keys. The buffers have their size of 64
-- bytes, the length field of what is read is between 8 and 64 and its count of keys at most 56, what
-- `res` held before fits its buffer, and the callback keeps readers ready.
pub get_reader_data-EndsReady :
    {S : Type 0} (handle : Callback S) (x : Exchange) (t : ℕ) (r : Reader) (s : S)
    → KeepsReady handle
    → length x.packet.bytes ≡ packet_len
    → IsResponse x.res
    → ReadsAnswer x.received
    → IsReady r
    → (r' : Reader) × (s' : S) × (get_reader_data handle x t r s
        ≡ some (poll_packet x.packet r.address, r', s'))
      × IsReady r'
unfolding get_reader_data
get_reader_data-EndsReady handle x t r s keeps size v reads h =
    let polls = fill_packet-frame x.packet r.address osdp_poll [] size (omega arith) in
    elim (received_cases x.answer x.received reads) [
      | inl e ↦ elim (Option-cases x.reopened) [
        | inl f ↦ (r, s, rw (polls, e, f) refl, h)
        | inr (port, f) ↦ (
          record r { serial = port },
          s,
          rw (polls, e, f) refl,
          record { size = h.size; room = h.room },
        )
      ]
      | inr (e, a) ↦
          let answer = (recv_packet x.answer x.received).1 in
          let (ok, res, f, v') = process_packet-Returns answer x.res a v in
          let (r', s', g, h') = on_response-EndsReady handle keeps t res r s v' h in
          (r', s', rw polls (rw (e, f, g) refl), h')
    ]
