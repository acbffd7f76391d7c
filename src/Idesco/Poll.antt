-- ===== src/Idesco/Poll.antt =====
-- One poll of readers/reader-idesco.c: that it ends, and a card that comes over the line.
use osdp_roger_acs.Base.{
  ℕ, ◌-◌, ◌≤◌, ◌<◌, ◌≡◌, refl, sym, ◌∙◌, arith, List, [], ◌++◌, some, Bool, true, ltb,
}
use osdp_roger_acs.Base.{length, drop, get_elem?}
use mathlib.Core.Option.{some-injective}
use osdp_roger_acs.Reader.{UserInfo, DataType, DataMode}
use osdp_roger_acs.Osdp.Packet.{Packet, packet_len, fill_packet, osdp_poll}
use osdp_roger_acs.Osdp.Packet.Frame.{frame, fill_packet-frame}
use osdp_roger_acs.Osdp.Process.{Response, process_packet, osdp_raw}
use osdp_roger_acs.Osdp.Process.Total.{recv_packet-start}
use osdp_roger_acs.Osdp.Process.Roundtrip.{fill_packet-process_packet}
use osdp_roger_acs.Idesco.{
  Reader, Callback, Exchange, get_reader_data, on_response, card_read, card_id_offset,
}

-- The packet that polls a reader, in the buffer of `p`.
abbrev pub poll_packet : Packet → ℕ → Packet
poll_packet p address = record {
  len = 8;
  bytes = frame address osdp_poll [] (drop 2 (drop 6 p.bytes));
}

-- What the callback gets for a card answer with this payload.
abbrev pub card_info : List ℕ → Response → UserInfo
card_info payload res = record {
  bytes = drop card_id_offset (payload ++ drop (length payload) res.payload);
  len = length payload - card_id_offset;
  type = DataType.is_card;
  mode = DataMode.complete;
}

pub process_packet-bytes :
    (q : Packet) (r : Response) (count : ℕ)
    → process_packet (record q { len = count }) r ≡ process_packet q r
unfolding process_packet
process_packet-bytes q r count = refl

-- A card answer.
card_read-raw :
    {S : Type 0} (handle : Callback S) (t : ℕ) (r : Reader) (s : S) (payload : List ℕ)
    (res : Response)
    → card_id_offset < length payload
    → let (after, s') = handle (card_info payload res) r s in
      on_response handle t
        (record {
          response = osdp_raw;
          payload_len = length payload;
          payload = payload ++ drop (length payload) res.payload;
        })
        r
        s
      ≡ some (record after { pin_buf_pos = 0 }, s')
unfolding on_response card_read
card_read-raw handle t r s payload res long =
    let is : ltb card_id_offset (length payload) ≡ true = ground arith in rw is refl

-- A poll whose answer is read: what is left is the answer's.
pub polled :
    {S : Type 0} (handle : Callback S) (x : Exchange) (t : ℕ) (r r' : Reader) (s s' : S) (count : ℕ)
    (bytes : List ℕ) (ok : Bool) (q : Packet) (res : Response)
    → length x.packet.bytes ≡ packet_len
    → x.received ≡ some (count, bytes)
    → get_elem? bytes 0 ≡ some 0x53
    → process_packet (record { len = count; bytes = bytes }) x.res ≡ some (ok, q, res)
    → on_response handle t res r s ≡ some (r', s')
    → get_reader_data handle x t r s ≡ some (poll_packet x.packet r.address, r', s')
unfolding get_reader_data
polled handle x t r r' s s' count bytes ok q res size came start read done =
    rw (fill_packet-frame x.packet r.address osdp_poll [] size (omega arith), came)
      (rw (recv_packet-start x.answer count bytes start) (rw (read, done) refl))

-- A reader that answers the poll with a packet that `fill_packet` built, with the code of a card and a
-- payload of 5 to 56 bytes: the poll is sent to the reader's address, and the callback is called once,
-- with the payload from its fifth byte on, as a card; a PIN that was being typed is forgotten.
pub get_reader_data-card :
    {S : Type 0} (handle : Callback S) (x : Exchange) (t : ℕ) (r : Reader) (s : S) (p q : Packet)
    (address count : ℕ) (payload : List ℕ)
    → length x.packet.bytes ≡ packet_len
    → length x.res.payload ≡ packet_len
    → length p.bytes ≡ packet_len
    → card_id_offset < length payload
    → length payload ≤ 56
    → fill_packet p address osdp_raw payload (length payload) ≡ some q
    → x.received ≡ some (count, q.bytes)
    → let (after, s') = handle (card_info payload x.res) r s in
      get_reader_data handle x t r s
      ≡ some (poll_packet x.packet r.address, record after { pin_buf_pos = 0 }, s')
get_reader_data-card handle x t r s p q address count payload size room size' long fits built came =
    let shape = fill_packet-frame p address osdp_raw payload size' fits in
    let is_q = some-injective _ _ (sym built ∙ shape) in
    let read = rw built at (fill_packet-process_packet p x.res address payload size' room fits) in
    let start : get_elem? q.bytes 0 ≡ some 0x53 = rw is_q refl in
    polled handle x t r _ s _ count q.bytes _ _ _ size came start
      (process_packet-bytes q x.res count ∙ read) (card_read-raw handle t r s payload x.res long)
