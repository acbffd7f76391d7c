-- ===== src/Idesco.antt =====
-- readers/reader-idesco.c: the Idesco reader, which is polled over OSDP. The serial port is outside:
-- what the port delivers comes in as values, and what is sent goes out as packets.
pub mod Keypad
pub mod Signals
pub mod Typed
pub mod Pin
pub mod Poll
pub mod Ends
use osdp_roger_acs.Base.{
  ℕ, suc, ◌+◌, ◌-◌, List, [], ◌∷◌, Option, none, some, Bool, true, false, ◌==◌,
}
use osdp_roger_acs.Base.{ltb, truth, if◌then◌else◌, ◌>>=◌, store, first, drop}
use osdp_roger_acs.Reader.{Signal, DataType, DataMode, UserInfo}
use osdp_roger_acs.Osdp.Packet.{Packet, fill_packet, ledset, beepset, osdp_poll}
use osdp_roger_acs.Osdp.Process.{Response, process_packet, recv_packet}
use osdp_roger_acs.Osdp.Process.{osdp_ack, osdp_raw, osdp_kpd}

abbrev pub max_pin_len : ℕ
max_pin_len = 28

abbrev pub card_id_offset : ℕ
card_id_offset = 4

-- `struct Reader`, less `user_data`, which only the callback reads.
pub record Reader : Type 0 where
  pub serial : ℕ
  pub use_rs485_te : Bool
  pub address : ℕ
  pub pin_buf : List ℕ
  pub pin_buf_pos : ℕ
  pub code_timeout : ℕ

-- `init_reader`: `port` is what `portsetup` opens, `trash` and `timeout` what the memory that is not
-- set holds.
unfoldable pub init_reader : Option ℕ → Bool → ℕ → List ℕ → ℕ → Option Reader
init_reader port use_rs485_te address trash timeout = do
  serial ← port
  buf ← store trash 0 0
  some (record {
    serial = serial;
    use_rs485_te = use_rs485_te;
    address = address;
    pin_buf = buf;
    pin_buf_pos = 0;
    code_timeout = timeout;
  })

unfoldable pub clear_reader_data : Reader → Reader
clear_reader_data r = record r { code_timeout = 0; pin_buf_pos = 0 }

-- What surrounds one poll: the local variables `packet`, `answer` and `res`, which are not set
-- before, what `read` returns, and the port that is opened again after a bad packet, if its path
-- fits the buffer.
pub record Exchange : Type 0 where
  pub packet : Packet
  pub answer : Packet
  pub res : Response
  pub received : Option (ℕ × List ℕ)
  pub reopened : Option ℕ

-- `process_user_info` as the reader calls it: it may change the reader, by `clear_reader_data`, and
-- the state of its caller.
abbrev pub Callback : Type 0 → Type 0
Callback S = UserInfo → Reader → S → Reader × S

module _ {S : Type 0} (process_user_info : Callback S) where
  -- The reader hands the buffer on, and begins again.
  unfoldable pub deliver : DataMode → Reader → S → Reader × S
  deliver mode r s =
      let info : UserInfo = record {
        bytes = r.pin_buf;
        len = r.pin_buf_pos;
        type = DataType.is_pin;
        mode = mode;
      } in
      let (after, s') = process_user_info info r s in (record after { pin_buf_pos = 0 }, s')

  -- The key that is neither `*` nor `#`.
  unfoldable pub add_key : ℕ → Reader → S → Option (Reader × S)
  add_key key r s =
      let (r', s') =
        if r.pin_buf_pos == max_pin_len then deliver DataMode.out_of_buf r s else (r, s) in
      store r'.pin_buf r'.pin_buf_pos key >>= λ buf.
      some (record r' { pin_buf = buf; pin_buf_pos = r'.pin_buf_pos + 1 }, s')

  unfoldable pub complete_pin : Reader → S → Option (Reader × S)
  complete_pin r s = store r.pin_buf r.pin_buf_pos 0 >>= λ buf.
      some (deliver DataMode.complete (record r { pin_buf = buf }) s)

  -- One round of the loop over the keys.
  unfoldable pub press : ℕ → ℕ → Reader → S → Option (Reader × S)
  press input_timeout key r s =
      (if key == 0x7f
        then some (record r { pin_buf_pos = 0 }, s)
        else (if key == 0x0d then complete_pin r s else add_key key r s))
      >>= λ (r', s'). some (record r' { code_timeout = input_timeout }, s')

  unfoldable pub press_all : ℕ → List ℕ → Reader → S → Option (Reader × S)
  press_all input_timeout [] r s = some (r, s)
  press_all input_timeout (key ∷ keys) r s =
      press input_timeout key r s >>= λ (r', s'). press_all input_timeout keys r' s'

  -- `case osdp_ACK`, which `case osdp_KPD` falls through to.
  unfoldable pub idle : ℕ → Reader → S → Reader × S
  idle input_timeout r s =
      if ltb 0 r.pin_buf_pos
      then (if ltb 0 r.code_timeout
          then (record r { code_timeout = r.code_timeout - 1 }, s)
          else (if truth input_timeout then deliver DataMode.timeout r s else (r, s)))
      else (r, s)

  unfoldable pub card_read : Response → Reader → S → Reader × S
  card_read res r s =
      let info : UserInfo = record {
        bytes = drop card_id_offset res.payload;
        len = res.payload_len - card_id_offset;
        type = DataType.is_card;
        mode = DataMode.complete;
      } in
      let (after, s') =
        if ltb card_id_offset res.payload_len then process_user_info info r s else (r, s) in
      (record after { pin_buf_pos = 0 }, s')

  -- The `switch` on the code of the response.
  unfoldable pub on_response : ℕ → Response → Reader → S → Option (Reader × S)
  on_response input_timeout res r s =
      if res.response == osdp_raw
      then some (card_read res r s)
      else (if res.response == osdp_kpd
          then (first res.payload res.payload_len >>= λ keys.
              press_all input_timeout keys r s >>= λ (r', s'). some (idle input_timeout r' s'))
          else (if res.response == osdp_ack then some (idle input_timeout r s) else some (r, s)))

  -- `get_reader_data(reader, input_timeout, user_data)`: the packet that is sent comes first. The
  -- value of `process_packet` is not looked at.
  unfoldable pub get_reader_data : Exchange → ℕ → Reader → S → Option (Packet × Reader × S)
  get_reader_data x input_timeout r s = do
    poll ← fill_packet x.packet r.address osdp_poll [] 0
    let (received, answer) = recv_packet x.answer x.received
    if received
        then (process_packet answer x.res >>= λ (_, _, res).
            on_response input_timeout res r s >>= λ (r', s'). some (poll, r', s'))
        else elim x.reopened [
          | none ↦ some (poll, r, s)
          | some port ↦ some (poll, record r { serial = port }, s)
        ]

abbrev black : ℕ
black = 0

abbrev red : ℕ
red = 1

abbrev green : ℕ
green = 2

abbrev amber : ℕ
amber = 3

-- The packets that `reader_signal` fills and sends, in order.
unfoldable pub signal_packets : ℕ → Signal → List (Packet → Option Packet)
signal_packets a Signal.ok = (λ p. ledset p a 1 green false 48) ∷ (λ p. beepset p a 1 1 1) ∷ []
signal_packets a Signal.door_open =
    (λ p. ledset p a 1 green false 0) ∷ (λ p. beepset p a 1 1 1) ∷ []
signal_packets a Signal.door_lock = (λ p. ledset p a 1 black false 0) ∷ []
signal_packets a Signal.err = (λ p. ledset p a 1 red true 24) ∷ (λ p. beepset p a 3 1 3) ∷ []
signal_packets a Signal.err_auth = (λ p. ledset p a 1 red true 24) ∷ (λ p. beepset p a 3 1 3) ∷ []
signal_packets a Signal.err_usage = (λ p. ledset p a 1 red true 24) ∷ (λ p. beepset p a 3 1 3) ∷ []
signal_packets a Signal.err_comm = (λ p. ledset p a 1 red true 24) ∷ (λ p. beepset p a 3 1 3) ∷ []
signal_packets a Signal.pin_entry =
    (λ p. ledset p a 1 amber true 12) ∷ (λ p. beepset p a 1 1 2) ∷ []
signal_packets a Signal.pin_quiet = (λ p. ledset p a 1 amber true 12) ∷ []
signal_packets a Signal.blocked =
    (λ p. ledset p a 2 amber true 0) ∷ (λ p. ledset p a 1 amber true 0) ∷ []
signal_packets a Signal.unblocked =
    (λ p. ledset p a 2 black false 0) ∷ (λ p. ledset p a 1 black true 0) ∷ []

-- Each packet is sent, and an answer is read into the same variable; `read` gives the answers.
unfoldable pub send_all :
    (ℕ → Option (ℕ × List ℕ)) → List (Packet → Option Packet) → Packet → Option (List Packet)
send_all read [] p = some []
send_all read (fill ∷ fills) p = do
  filled ← fill p
  sent ← send_all (λ n. read (suc n)) fills (recv_packet filled (read 0)).1
  some (filled ∷ sent)

-- `reader_signal(signal, reader)`: the packets that are sent.
unfoldable pub reader_signal :
    (ℕ → Option (ℕ × List ℕ)) → Packet → Signal → Reader → Option (List Packet)
reader_signal read p signal r = send_all read (signal_packets r.address signal) p
