-- ===== src/Osdp/Packet.antt =====
-- Building packets: `fill_packet`, `crclen_packet`, `comset`, `ledset` and `beepset` of
-- readers/osdp/osdp.c. A `char` is unsigned, as on the ARM boards.
pub mod Frame
use osdp_roger_acs.Base.{
  ℕ, ◌+◌, ◌-◌, List, [], ◌∷◌, Option, none, some, Bool, not, truth, if◌then◌else◌,
}
use osdp_roger_acs.Base.{bit_and, u8, u16, ◌<<<◌, ◌>>>◌, length, ◌>>=◌, store, first, copy_at}
use osdp_roger_acs.Osdp.Crc.{f_crc_blk}

abbrev pub packet_len : ℕ
packet_len = 64

abbrev pub osdp_poll : ℕ
osdp_poll = 0x60

abbrev pub osdp_led : ℕ
osdp_led = 0x69

abbrev pub osdp_buz : ℕ
osdp_buz = 0x6a

abbrev pub osdp_comset : ℕ
osdp_comset = 0x6e

-- `struct osdp_packet`; `bytes` is the array `data`.
pub record Packet : Type 0 where
  pub len : ℕ
  pub bytes : List ℕ

unfoldable pub crclen_packet : Packet → Option Packet
crclen_packet p = do
  let len = p.len + 2
  d₁ ← store p.bytes 2 (bit_and len 0xff)
  d₂ ← store d₁ 3 (u8 (len >>> 8))
  covered ← first d₂ (u16 (len - 2))
  let crc = f_crc_blk covered
  d₃ ← store d₂ (len - 2) (bit_and crc 0xff)
  d₄ ← store d₃ (len - 1) (crc >>> 8)
  some (record { len = len; bytes = d₄ })

-- `fill_packet(packet, address, command, data, datalen)`.
unfoldable pub fill_packet : Packet → ℕ → ℕ → List ℕ → ℕ → Option Packet
fill_packet p address command payload payload_len = do
  d₀ ← store p.bytes 0 0x53
  d₁ ← store d₀ 1 (u8 address)
  d₂ ← store d₁ 2 0
  d₃ ← store d₂ 3 0
  d₄ ← store d₃ 4 0x04
  d₅ ← store d₄ 5 (u8 command)
  d₆ ← copy_at d₅ 6 payload payload_len
  crclen_packet (record { len = 6 + payload_len; bytes = d₆ })

-- `trash` is what the last three bytes of `payload`, which are not set, hold.
unfoldable pub comset : Packet → ℕ → ℕ → ℕ → List ℕ → Option Packet
comset p old_address new_address baudrate trash =
    fill_packet p old_address osdp_comset (u8 new_address ∷ u8 baudrate ∷ trash) 5

unfoldable pub led_settings : ℕ → ℕ → Bool → ℕ → List ℕ
led_settings led color blink blink_time =
    let off = if blink then 0 else color in
    if truth blink_time
    then 0
      ∷ led
      ∷ 2
      ∷ 1
      ∷ 1
      ∷ color
      ∷ off
      ∷ u8 blink_time
      ∷ u8 (blink_time >>> 8)
      ∷ 0
      ∷ 0
      ∷ 0
      ∷ 0
      ∷ 0
      ∷ []
    else 0 ∷ led ∷ 1 ∷ 0 ∷ 0 ∷ 0 ∷ 0 ∷ 0 ∷ 0 ∷ 1 ∷ 1 ∷ 1 ∷ color ∷ off ∷ []

unfoldable pub ledset : Packet → ℕ → ℕ → ℕ → Bool → ℕ → Option Packet
unfolding led_settings
ledset p address led color blink blink_time =
    fill_packet p address osdp_led (led_settings led color blink blink_time) 14

unfoldable pub beepset : Packet → ℕ → ℕ → ℕ → ℕ → Option Packet
beepset p address on_time off_time count =
    fill_packet p address osdp_buz (0 ∷ 2 ∷ on_time ∷ off_time ∷ count ∷ []) 5
