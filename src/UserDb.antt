-- ===== src/UserDb.antt =====
-- door_controller/user_db.c: the queries of the user database. Outside are SQLite, which gives the
-- rows of a query, MD5 (libs/md5.c), `atoi`, and what uninitialised memory holds. A string that is
-- read from a row is taken as the event sender reads it.
pub mod Rows
pub mod Keys
pub mod Mask
pub mod Policy
pub mod Exact
use osdp_roger_acs.Base.{
  ℕ, suc, ◌+◌, ◌-◌, ◌*◌, ◌/◌, ◌%◌, ◌^◌, List, [], ◌∷◌, ◌++◌, Option, none, some,
}
use osdp_roger_acs.Base.{Bool, true, false, not, ◌&&◌, ◌||◌, ◌==◌, leb, ltb, truth, if◌then◌else◌}
use osdp_roger_acs.Base.{bit_or, ◌>>=◌, length, take, drop}
use osdp_roger_acs.Door.{Text, text_eq, max_card_len, Event}
use osdp_roger_acs.Door.Auth.{
  Verdict, mode_card, mode_pin, mode_card_and_pin, mode_card_and_pin_always,
}

abbrev buf_size : ℕ
buf_size = 500

-- What the `WHERE` part of a query asks: the rows of users of doors like a name by PIN or by card, and
-- those of keys by two cards.
pub data Query : Type 0 where
  by_pin : Text → Text → Query
  by_card : Text → Text → Query
  by_key : Text → Text → Query

-- One row, with the time that `time(0)` gives when it is read. The database holds no time before
-- 1970. `none` is a column that is NULL.
pub record Row : Type 0 where
  pub user_name : Option Text
  pub user_pin : Option Text
  pub expire : ℕ
  pub allow_no_pin : ℕ
  pub door : Option Text
  pub curr_time : ℕ

-- `%x` and `%X` of a digit; `ten` is the letter for 10.
abbrev hex_digit : ℕ → ℕ → ℕ
hex_digit ten d = if ltb d 10 then 0x30 + d else ten + (d - 10)

hex : ℕ → List ℕ → Text
hex ten [] = []
hex ten (b ∷ bs) = hex_digit ten (b / 16) ∷ hex_digit ten (b % 16) ∷ hex ten bs

-- The upper-case digits of a card; `trash` is what the buffer reads as if no digit is written.
unfoldable pub card_text : Text → List ℕ → ℕ → Text
unfolding hex
card_text trash card len = if truth len then hex 0x41 (take len card) else trash

-- The lower-case digits of the MD5 sum of a PIN.
unfoldable pub pin_text : (List ℕ → List ℕ) → List ℕ → ℕ → Text
unfolding hex
pin_text md5 pin len = hex 0x61 (take 16 (md5 (take len pin)))

-- `strstr(name, "%")`, as an index.
find_percent : Text → Option ℕ
find_percent [] = none
find_percent (c ∷ cs) = if c == 0x25 then some 0 else (find_percent cs >>= λ i. some (suc i))

-- `door + (percent - doorname)`, read by `atoi`; `none` is a read past the end, and a negative or
-- too large number to shift by.
unfoldable pub subdoor : (Text → Option ℕ) → Text → Option Text → Option ℕ
unfolding find_percent
subdoor atoi name door = elim (find_percent name) [
  | none ↦ some 0
  | some i ↦ door >>= λ text.
      if leb i (length text)
      then (atoi (drop i text) >>= λ n. if ltb n 32 then some n else none)
      else none
]

pub data ErrType : Type 0 where
  err err_expire err_pin : ErrType

-- The variables of the loop over the rows.
pub record Search : Type 0 where
  pub found_name : Option Text
  pub err_type : ErrType
  pub door_mask : ℕ

unfoldable pub wrong_pin : Text → Row → Option Bool
wrong_pin pin_md5 row = row.user_pin >>= λ pin. some (not (text_eq pin pin_md5))

-- Whether the row is refused for its PIN; `none` compares a PIN that is NULL.
unfoldable pub pin_refused : ℕ → Text → Row → Option Bool
unfolding wrong_pin
pin_refused mode pin_md5 row =
    if mode == mode_card_and_pin_always
    then wrong_pin pin_md5 row
    else (if mode == mode_card_and_pin
        then (wrong_pin pin_md5 row >>= λ wrong. some (wrong && not (row.allow_no_pin == 1)))
        else some false)

-- One round of the loop.
unfoldable pub on_row : (Text → Option ℕ) → ℕ → Text → Text → Row → Search → Option Search
on_row atoi mode pin_md5 name row s =
    let named : Search = record s { found_name = row.user_name; err_type = ErrType.err } in
    if ltb row.expire row.curr_time
    then some (record named { err_type = ErrType.err_expire })
    else (pin_refused mode pin_md5 row >>= λ refused.
        if refused
        then some (record named { err_type = ErrType.err_pin })
        else (subdoor atoi name row.door >>= λ n.
            some (record named { door_mask = bit_or s.door_mask (2 ^ n) })))

unfoldable pub on_rows : (Text → Option ℕ) → ℕ → Text → Text → List Row → Search → Option Search
on_rows atoi mode pin_md5 name [] s = some s
on_rows atoi mode pin_md5 name (row ∷ rows) s =
    on_row atoi mode pin_md5 name row s >>= λ s'. on_rows atoi mode pin_md5 name rows s'

abbrev silent : Verdict
silent = record { mask = 0; sent = [] }

abbrev err_event : ErrType → Text → Option Text → Text → Event
err_event ErrType.err = Event.auth_err
err_event ErrType.err_expire = Event.auth_err_expire
err_event ErrType.err_pin = Event.auth_err_pin

unfoldable pub verdict_of : Text → Text → Search → Verdict
verdict_of name card s =
    if truth s.door_mask
    then record { mask = s.door_mask; sent = Event.auth_ok name s.door_mask s.found_name card ∷ [] }
    else record { mask = 0; sent = err_event s.err_type name s.found_name card ∷ [] }

abbrev pub start : Search
start = record { found_name = none; err_type = ErrType.err; door_mask = 0 }

-- What the functions use that is outside.
pub record Libraries : Type 0 where
  pub query : Query → List Row
  pub md5 : List ℕ → List ℕ
  pub atoi : Text → Option ℕ
  pub trash : Text

unfoldable pub uses_pin : ℕ → Bool
uses_pin mode = mode == mode_pin || mode == mode_card_and_pin_always

unfoldable pub uses_card : ℕ → Bool
uses_card mode = mode == mode_card || mode == mode_card_and_pin || mode == mode_card_and_pin_always

-- The query of a mode, if the mode is valid and the text of the query fits: 251 characters up to the
-- condition, less the door's name, 15 or 16 for the condition, and 2 to close.
unfoldable pub query_of : ℕ → Text → Text → Text → Option Query
query_of mode name pin_md5 card =
    let head = 251 + length name in
    if leb buf_size head
    then none
    else (if mode == mode_pin
        then (if leb buf_size (head + 15 + length pin_md5 + 2)
            then none
            else some (Query.by_pin name pin_md5))
        else (if uses_card mode
            then (if leb buf_size (head + 16 + length card + 2)
                then none
                else some (Query.by_card name card))
            else none))

-- `getAccessMask2(pin, pinLen, card, cardLen, mode, doorname, db)`.
unfoldable pub get_access_mask2 : Libraries → List ℕ → ℕ → List ℕ → ℕ → ℕ → Text → Option Verdict
get_access_mask2 lib pin pin_len card card_len mode name =
    let pin_md5 = if uses_pin mode then pin_text lib.md5 pin pin_len else [] in
    let card_str = if uses_card mode then card_text lib.trash card card_len else [] in
    let asked : Option Verdict = elim (query_of mode name pin_md5 card_str) [
      | none ↦ some silent
      | some q ↦ on_rows lib.atoi mode pin_md5 name (lib.query q) start >>= λ s.
          some (verdict_of name card_str s)
    ] in
    if uses_card mode && ltb max_card_len card_len then some silent else asked

-- `checkKeyAccess2(card1, card1Len, card2, card2Len, db)`: only the first row is looked at.
unfoldable pub check_key_access2 : Libraries → List ℕ → ℕ → List ℕ → ℕ → Option Verdict
check_key_access2 lib card card_len card2 card2_len =
    let one = card_text lib.trash card card_len in
    let two = card_text lib.trash card2 card2_len in
    let refused : Option Text → Verdict =
      λ name. record { mask = 0; sent = Event.auth_err two name one ∷ [] } in
    let asked : Option Verdict = elim (lib.query (Query.by_key one two)) [
      | [] ↦ some (refused none)
      | row ∷ rows ↦
          if ltb row.curr_time row.expire
          then (row.door >>= λ door.
              some (record { mask = 1; sent = Event.auth_ok door 1 row.user_name one ∷ [] }))
          else some (refused row.user_name)
    ] in
    if ltb max_card_len card_len || ltb max_card_len card2_len
    then some silent
    else (if leb buf_size (245 + length one + length two) then some silent else asked)
