-- ===== src/CString/Words.antt =====
-- Words of a line, as `strtok_r` gives them.
use osdp_roger_acs.Base.{◌≡◌, refl}
use osdp_roger_acs.CString.{codes, dec, hex_byte, strtoll}
use osdp_roger_acs.CString.{skip_spaces, digit_value, scan_digits, scan_prefixed, clamp64}

strtoll_hex : strtoll (codes " 0x1F ") ≡ 31
unfolding strtoll skip_spaces scan_prefixed scan_digits digit_value clamp64
strtoll_hex = refl

strtoll_minus : strtoll (codes "-2") ≡ 18446744073709551614
unfolding strtoll skip_spaces scan_prefixed scan_digits digit_value clamp64
strtoll_minus = refl

dec_300 : dec 300 ≡ codes "300"
unfolding dec
dec_300 = refl

hex_byte_a5 : hex_byte 165 ≡ codes "A5"
unfolding hex_byte
hex_byte_a5 = refl
