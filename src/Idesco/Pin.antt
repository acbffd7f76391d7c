-- ===== src/Idesco/Pin.antt =====
-- A PIN that comes over the line to readers/reader-idesco.c.
use osdp_roger_acs.Base.{ℕ, suc, ◌≤◌, ◌≡◌, refl, sym, ◌∙◌, arith, List, [], ◌∷◌, ◌++◌, some}
use osdp_roger_acs.Base.{length, length-append, drop, get_elem?, first-append}
use mathlib.Core.Option.{some-injective}
use osdp_roger_acs.Reader.{UserInfo, DataType, DataMode}
use osdp_roger_acs.Osdp.Packet.{Packet, packet_len, fill_packet}
use osdp_roger_acs.Osdp.Packet.Frame.{fill_packet-frame}
use osdp_roger_acs.Osdp.Process.{osdp_kpd}
use osdp_roger_acs.Osdp.Process.Roundtrip.{fill_packet-process_packet-keys}
use osdp_roger_acs.Idesco.{
  Reader, Callback, Exchange, get_reader_data, on_response, idle, max_pin_len,
}
use osdp_roger_acs.Idesco.Keypad.{IsReady, AreDigits}
use osdp_roger_acs.Idesco.Poll.{poll_packet, polled, process_packet-bytes}
use osdp_roger_acs.Idesco.Typed.{typed_pin}

-- What the callback gets for the digits of a PIN, from a reader with this buffer.
abbrev pub pin_info : List ℕ → List ℕ → UserInfo
pin_info digits buf = record {
  bytes = digits ++ 0 ∷ drop (suc (length digits)) buf;
  len = length digits;
  type = DataType.is_pin;
  mode = DataMode.complete;
}

-- The keys of a PIN: its digits, and `#`.
abbrev pub pin_keys : List ℕ → List ℕ
pin_keys digits = digits ++ 0x0d ∷ []

idle-empty :
    {S : Type 0} (handle : Callback S) (t : ℕ) (r : Reader) (s : S)
    → r.pin_buf_pos ≡ 0
    → idle handle t r s ≡ (r, s)
unfolding idle
idle-empty handle t r s e = rw e refl

module _ {S : Type 0} (handle : Callback S) (t : ℕ) (r : Reader) (s : S) (digits : List ℕ)
    (all : AreDigits digits) (fits : length digits ≤ max_pin_len) (ready : IsReady r)
    (pos : r.pin_buf_pos ≡ 0) where
  -- A keypad answer with a whole PIN.
  on_response-pin :
      (rest : List ℕ)
      → let keys = pin_keys digits in
        (before : Reader) × (on_response handle t
            (record { response = osdp_kpd; payload_len = length keys; payload = keys ++ rest })
            r
            s
          ≡ some (
            record (handle (pin_info digits r.pin_buf) before s).0 {
              pin_buf_pos = 0;
              code_timeout = t;
            },
            (handle (pin_info digits r.pin_buf) before s).1,
          ))
  unfolding on_response
  on_response-pin rest =
      let (before, e) = typed_pin handle t s digits r all fits ready pos in
      (
        before,
        rw (first-append (pin_keys digits) rest, e)
            (rw
              (idle-empty handle t
                (record (handle (pin_info digits r.pin_buf) before s).0 {
                  pin_buf_pos = 0;
                  code_timeout = t;
                })
                (handle (pin_info digits r.pin_buf) before s).1 refl)
              refl),
      )

  -- A reader that answers the poll with a packet that `fill_packet` built, with the code of a keypad
  -- and the keys of a PIN of at most 28 digits, while nothing is typed: the callback is called once, with
  -- the PIN and its length.
  pub get_reader_data-pin :
      (x : Exchange) (p q : Packet) (address number count : ℕ)
      → let keys = pin_keys digits in
        let payload = number ∷ length keys ∷ keys in
        length x.packet.bytes ≡ packet_len
        → length x.res.payload ≡ packet_len
        → length p.bytes ≡ packet_len
        → fill_packet p address osdp_kpd payload (length payload) ≡ some q
        → x.received ≡ some (count, q.bytes)
        → (before : Reader) × (get_reader_data handle x t r s
            ≡ some (
              poll_packet x.packet r.address,
              record (handle (pin_info digits r.pin_buf) before s).0 {
                pin_buf_pos = 0;
                code_timeout = t;
              },
              (handle (pin_info digits r.pin_buf) before s).1,
            ))
  get_reader_data-pin x p q address number count size room size' built came =
      let keys = pin_keys digits in
      let payload = number ∷ length keys ∷ keys in
      let few : length keys ≤ 29 = omega (arith, length-append digits (0x0d ∷ [])) in
      let shape = fill_packet-frame p address osdp_kpd payload size' (omega arith) in
      let is_q = some-injective _ _ (sym built ∙ shape) in
      let read =
        rw built at
          (fill_packet-process_packet-keys p x.res address number keys size' room (omega arith)) in
      let start : get_elem? q.bytes 0 ≡ some 0x53 = rw is_q refl in
      let (before, done) = on_response-pin (drop (length keys) x.res.payload) in
      (
        before,
        polled handle x t r _ s _ count q.bytes _ _ _ size came start
            (process_packet-bytes q x.res count ∙ read) done,
      )
