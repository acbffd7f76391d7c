-- ===== src/Access/Wire.antt =====
-- A card or a PIN from the serial line to the outputs: readers/osdp/osdp.c, readers/reader-idesco.c,
-- door_controller/door_controller.c and door_controller/user_db.c as the program links them.
use osdp_roger_acs.Base.{
  ℕ, ◌+◌, ◌≤◌, ◌<◌, ◌≡◌, ◌⊎◌, refl, arith, List, ◌∷◌, some, length, memcpy, set,
}
use osdp_roger_acs.Osdp.Packet.{Packet, packet_len, fill_packet}
use osdp_roger_acs.Osdp.Process.{osdp_raw, osdp_kpd}
use osdp_roger_acs.Idesco.{Reader, Callback, Exchange, get_reader_data, card_id_offset}
use osdp_roger_acs.Idesco.Poll.{poll_packet, card_info, get_reader_data-card}
use osdp_roger_acs.Idesco.Keypad.{IsReady, AreDigits}
use osdp_roger_acs.Idesco.Pin.{pin_info, pin_keys, get_reader_data-pin}
use osdp_roger_acs.Door.{DoorReader, World, Side, door_reader, max_card_len, max_pin_len}
use osdp_roger_acs.Door.Auth.{
  UserDb, Verdict, process_user_info, mode_card, mode_pin, mode_card_or_pin,
}
use osdp_roger_acs.UserDb.{Libraries}
use osdp_roger_acs.UserDb.Policy.{Admits}
use osdp_roger_acs.Access.{get_access_mask, Answers}
use osdp_roger_acs.Access.Shown.{At, Drives, card-Drives, pin-Drives}

-- `process_user_info` as the callback of the reader `handle` of door `i`, whose state is the doors. It
-- leaves the reader alone: its signals are packets of their own.
abbrev pub controller : UserDb → ℕ → ℕ → Callback World
controller db handle i info r w = (r, process_user_info db handle info i w)

-- A card number of at most 16 bytes, behind the four bytes that the reader skips, in a packet that
-- `fill_packet` built with the code of a card, and read at a poll of a reader of the door in the mode
-- MODE_CARD or MODE_CARD_OR_PIN while no card is stored: the poll ends, and has unlocked exactly the
-- outputs of the subdoors for which a row of the user database admits the card, and that are the
-- door's and neither held by the airlock nor disabled, and no other output. The user database answers
-- without an undefined access, and the controller is told what it answers.
pub card_packet-Drives :
    (lib : Libraries) (db : UserDb) (side : Side) (handle i : ℕ) (w : World) (v : Verdict)
    (x : Exchange) (t : ℕ) (r : Reader) (p q : Packet) (address count : ℕ) (payload : List ℕ)
    → let shown = door_reader side (w.doors i) in
      let info = card_info payload x.res in
      let card = memcpy shown.card info.bytes info.len in
      let with_card : DoorReader = record shown { card = card; card_len = info.len } in
      Answers lib db
      → At side handle (w.doors i)
      → (shown.access_mode ≡ mode_card) ⊎ (shown.access_mode ≡ mode_card_or_pin)
      → shown.card_len ≡ 0
      → length x.packet.bytes ≡ packet_len
      → length x.res.payload ≡ packet_len
      → length p.bytes ≡ packet_len
      → card_id_offset < length payload
      → length payload ≤ card_id_offset + max_card_len
      → fill_packet p address osdp_raw payload (length payload) ≡ some q
      → x.received ≡ some (count, q.bytes)
      → get_access_mask lib with_card mode_card (w.doors i).door_name ≡ some v
      → (w' : World) × (get_reader_data (controller db handle i) x t r w
          ≡ some (poll_packet x.packet r.address, record r { pin_buf_pos = 0 }, w'))
        × Drives w w' i
            (Admits lib shown.pin shown.pin_len card info.len mode_card (w.doors i).door_name)
card_packet-Drives lib db side handle i w v x t r p q address count payload answers at m empty size
      room size' long fits built came e =
    let info = card_info payload x.res in
    (
      process_user_info db handle info i w,
      get_reader_data-card (controller db handle i) x t r w p q address count payload size room
          size' long (omega arith) built came,
      card-Drives lib db answers side handle i info w at v m empty refl refl (omega arith)
          (omega arith) e,
    )

-- The keys of a PIN of 1 to 16 digits and `#`, in a packet that `fill_packet` built with the code of a
-- keypad, and read at a poll of a reader of the door on which nothing is typed, in the mode MODE_PIN, or
-- in MODE_CARD_OR_PIN while no card is stored, and while no PIN is stored: the poll ends, and has
-- unlocked exactly the outputs of the subdoors for which a row of the user database admits the PIN, and
-- that are the door's and neither held by the airlock nor disabled, and no other output. The user
-- database answers without an undefined access, and the controller is told what it answers.
pub pin_packet-Drives :
    (lib : Libraries) (db : UserDb) (side : Side) (handle i : ℕ) (w : World) (v : Verdict)
    (x : Exchange) (t : ℕ) (r : Reader) (p q : Packet) (address number count : ℕ) (digits : List ℕ)
    → let shown = door_reader side (w.doors i) in
      let info = pin_info digits r.pin_buf in
      let pin = set (memcpy shown.pin info.bytes info.len) info.len 0 in
      let with_pin : DoorReader = record shown { pin = pin; pin_len = info.len } in
      let payload = number ∷ length (pin_keys digits) ∷ pin_keys digits in
      Answers lib db
      → At side handle (w.doors i)
      → (shown.access_mode ≡ mode_pin)
        ⊎ ((shown.access_mode ≡ mode_card_or_pin) × (shown.card_len ≡ 0))
      → shown.pin_len ≡ 0
      → IsReady r
      → r.pin_buf_pos ≡ 0
      → AreDigits digits
      → 0 < length digits
      → length digits ≤ max_pin_len
      → length x.packet.bytes ≡ packet_len
      → length x.res.payload ≡ packet_len
      → length p.bytes ≡ packet_len
      → fill_packet p address osdp_kpd payload (length payload) ≡ some q
      → x.received ≡ some (count, q.bytes)
      → get_access_mask lib with_pin mode_pin (w.doors i).door_name ≡ some v
      → (r' : Reader) × (w' : World) × (get_reader_data (controller db handle i) x t r w
          ≡ some (poll_packet x.packet r.address, r', w'))
        × (r'.pin_buf_pos ≡ 0)
        × Drives w w' i
            (Admits lib pin info.len shown.card shown.card_len mode_pin (w.doors i).door_name)
pin_packet-Drives lib db side handle i w v x t r p q address number count digits answers at m empty
      ready pos all some_digit few size room size' built came e =
    let info = pin_info digits r.pin_buf in
    let (before, polled) =
      get_reader_data-pin (controller db handle i) t r w digits all (omega arith) ready pos x p q
        address number count size room size' built came in
    (
      record before { pin_buf_pos = 0; code_timeout = t },
      process_user_info db handle info i w,
      polled,
      refl,
      pin-Drives lib db answers side handle i info w at v m empty refl refl some_digit few e,
    )
