-- ===== src/UserDb/Policy.antt =====
-- Which rows of the user database let whom in, said without the code of door_controller/user_db.c.
use osdp_roger_acs.Base.{
  ℕ, zero, suc, ◌+◌, ◌-◌, ◌/◌, ◌%◌, ◌≤◌, ◌<◌, ◌≡◌, ◌≢◌, ◌⊎◌, List, [], ◌∷◌, ◌++◌, Option, some,
}
use osdp_roger_acs.Base.{ltb, if◌then◌else◌, length, take}
use osdp_roger_acs.Door.{Text}
use osdp_roger_acs.Door.Auth.{mode_card, mode_pin, mode_card_and_pin, mode_card_and_pin_always}
use osdp_roger_acs.UserDb.{Row, Query, Libraries}

-- Two digits for each byte, after 9 with the letters from `letter` on.
abbrev digit_from : ℕ → ℕ → ℕ
digit_from letter d = if ltb d 10 then b'0' + d else letter + (d - 10)

abbrev pub two_digits : ℕ → List ℕ → Text
two_digits letter [] = []
two_digits letter (b ∷ bytes) =
    digit_from letter (b / 16) ∷ digit_from letter (b % 16) ∷ two_digits letter bytes

-- The MD5 sum of the digits of a PIN, in lower case.
abbrev pub pin_sum : Libraries → List ℕ → ℕ → Text
pin_sum lib pin pin_len = two_digits b'a' (take 16 (lib.md5 (take pin_len pin)))

-- The bytes of a card, in upper case. Without a card it is what the memory held.
abbrev pub card_name : Libraries → List ℕ → ℕ → Text
card_name lib card zero = lib.trash
card_name lib card (suc n) = two_digits b'A' (take (suc n) card)

-- The modes that ask for a card.
abbrev pub AsksCard : ℕ → Type 0
AsksCard mode = (mode ≡ mode_card) ⊎ (mode ≡ mode_card_and_pin) ⊎ (mode ≡ mode_card_and_pin_always)

-- The rows that are looked at: those of the door and of the sum of the PIN, or those of the door and of
-- the card. A card has at most 16 bytes, and the text of the query less than 500.
pub data AsksFor (lib : Libraries) (pin : List ℕ) (pin_len : ℕ) (card : List ℕ) (card_len mode : ℕ)
    (name : Text) : Query → Type 0 where
  for_pin :
      mode ≡ mode_pin
      → 268 + length name + length (pin_sum lib pin pin_len) < 500
      → AsksFor lib pin pin_len card card_len mode name
          (Query.by_pin name (pin_sum lib pin pin_len))
  for_card :
      AsksCard mode
      → card_len ≤ 16
      → 269 + length name + length (card_name lib card card_len) < 500
      → AsksFor lib pin pin_len card card_len mode name
          (Query.by_card name (card_name lib card card_len))

-- A row has the right PIN: in the mode that always asks for one, the sum of the PIN. In the mode
-- that asks for a card first, a row that may do without a PIN is let in, or one with an empty PIN.
pub record HasPin (lib : Libraries) (pin : List ℕ) (pin_len mode : ℕ) (row : Row) : Type 0 where
  pub always : mode ≡ mode_card_and_pin_always → row.user_pin ≡ some (pin_sum lib pin pin_len)
  pub card_first :
      mode ≡ mode_card_and_pin
      → (text : Text) × (row.user_pin ≡ some text) × ((text ≡ []) ⊎ (row.allow_no_pin ≡ 1))

-- No character of the text is a percent sign.
abbrev pub NoPercent : Text → Type 0
NoPercent [] = Unit
NoPercent (c ∷ cs) = (c ≢ b'%') × NoPercent cs

-- The subdoor of a row: 0 for a door whose name has no percent sign; else the number that the row's
-- name of the door has where the name has its first percent sign.
pub data AtSubdoor (lib : Libraries) (name : Text) (door : Option Text) (k : ℕ) : Type 0 where
  whole : NoPercent name → k ≡ 0 → AtSubdoor lib name door k
  numbered :
      (before after front number : Text)
      → NoPercent before
      → name ≡ before ++ b'%' ∷ after
      → door ≡ some (front ++ number)
      → length front ≡ length before
      → lib.atoi number ≡ some k
      → k < 32
      → AtSubdoor lib name door k

-- A row that has not expired and has the right PIN.
pub record LetsIn (lib : Libraries) (pin : List ℕ) (pin_len mode : ℕ) (row : Row) : Type 0 where
  pub current : row.curr_time ≤ row.expire
  pub has_pin : HasPin lib pin pin_len mode row

-- One of the rows has it.
abbrev pub SomeRow : (Row → Type 0) → List Row → Type 0
SomeRow P [] = ⊥
SomeRow P (row ∷ rows) = P row ⊎ SomeRow P rows

-- A row admits the credentials to subdoor `k` of the door.
pub record Admits (lib : Libraries) (pin : List ℕ) (pin_len : ℕ) (card : List ℕ) (card_len mode : ℕ)
    (name : Text) (k : ℕ) : Type 0 where
  pub query : Query
  pub asks : AsksFor lib pin pin_len card card_len mode name query
  pub row :
      SomeRow (λ r. LetsIn lib pin pin_len mode r × AtSubdoor lib name r.door k) (lib.query query)
