-- ===== src/Examples/Readers.antt =====
-- Requests of readers/epso/epso.c and a card for readers/reader-roger.c.
use osdp_roger_acs.Base.{ℕ, ◌≡◌, refl, arith, List, [], ◌∷◌, ◌++◌, some, length, drop, replicate}
use osdp_roger_acs.CString.{dec}
use osdp_roger_acs.Reader.{DataType, DataMode}
use osdp_roger_acs.Epso.{epso_write, epso_read, reads, bytes_read}
use osdp_roger_acs.Epso.Answer.{answer}
use osdp_roger_acs.Epso.Frame.{epso_write-epso_read}
use osdp_roger_acs.Roger.{led_cmd, led_green, get_reader_data}
use osdp_roger_acs.Roger.Card.{card_answer, get_reader_data-card}

epso_write-epso_read_example :
    let sent = epso_write 5 led_cmd led_green in
    epso_read (reads (some sent) []) []
    ≡ some (
      bytes_read (length (dec led_green)),
      dec led_green ++ drop (length (dec led_green)) (sent ++ drop (length sent) []),
    )
epso_write-epso_read_example =
    epso_write-epso_read 5 led_cmd led_green [] (omega arith) (omega arith)

abbrev card_bytes : List ℕ
card_bytes = 0xca ∷ 0xfe ∷ 0x01 ∷ 0 ∷ 0 ∷ 0 ∷ 0 ∷ 0 ∷ []

abbrev card_frame : List ℕ
card_frame = answer 1 (0x53 ∷ 0x30 ∷ 0x35 ∷ 0x41 ∷ 0x35 ∷ 2 ∷ []) (card_answer card_bytes 0x3a [])

get_reader_data-card_example :
    get_reader_data (reads (some card_frame) []) (replicate 128 0)
    ≡ some (
        record { bytes = card_bytes; len = 4; type = DataType.is_card; mode = DataMode.complete }
        ∷ [])
get_reader_data-card_example =
    get_reader_data-card 1 (0x53 ∷ 0x30 ∷ 0x35 ∷ 0x41 ∷ 0x35 ∷ 2 ∷ []) card_bytes 0x3a []
      (replicate 128 0) (omega arith) refl refl
      (
        omega arith,
        (
          omega arith,
          (
            omega arith,
            (omega arith, (omega arith, (omega arith, (omega arith, (omega arith, tt))))),
          ),
        ),
      )
