-- ===== src/Osdp/Crc.antt =====
-- `fCrcBlk` of readers/osdp/osdp.c.
pub mod Register
pub mod Shift
use osdp_roger_acs.Base.{ℕ, List, [], ◌∷◌, bit_and, bit_xor, u16, ◌<<<◌, ◌>>>◌, get_or, ◌≡◌, refl}
use osdp_roger_acs.Osdp.Table.{crc16_table}

-- One round of the loop: `nCrc = (nCrc << 8) ^ CRC16Table[((nCrc >> 8) ^ pData[ii]) & 0xFF]`.
unfoldable pub crc_round : ℕ → ℕ → ℕ
crc_round crc byte =
    u16 (bit_xor (crc <<< 8) (get_or crc16_table (bit_and (bit_xor (crc >>> 8) byte) 0xff) 0))

-- The loop, with the bytes left.
unfoldable pub crc_from : ℕ → List ℕ → ℕ
crc_from crc [] = crc
crc_from crc (b ∷ bs) = crc_from (crc_round crc b) bs

-- `fCrcBlk(pData, nLength)`, where the list is the first `nLength` bytes.
unfoldable pub f_crc_blk : List ℕ → ℕ
unfolding crc_from
f_crc_blk bytes = crc_from 0x1D0F bytes

-- The checksum of a POLL command to the broadcast address.
crc_of_poll : f_crc_blk (0x53 ∷ 0x7f ∷ 0x08 ∷ 0x00 ∷ 0x04 ∷ 0x60 ∷ []) ≡ 53908
unfolding f_crc_blk crc_round crc16_table
crc_of_poll = refl
