-- ===== src/Idesco/Typed.antt =====
-- A PIN that is typed on the keypad of readers/reader-idesco.c.
use osdp_roger_acs.Base.{ℕ, suc, ◌+◌, ◌≤◌, ◌≡◌, refl, sym, arith, List, [], ◌∷◌, ◌++◌}
use osdp_roger_acs.Base.{some, store-append, length, length-append, append_cons, drop}
use osdp_roger_acs.Reader.{UserInfo, DataMode, DataType}
use osdp_roger_acs.Idesco.{Reader, Callback, max_pin_len, deliver, complete_pin, press, press_all}
use osdp_roger_acs.Idesco.Keypad.{IsReady, AreDigits, press_digit}

-- The callback is called once, with these bytes and this length, and the reader begins again.
abbrev pub Delivers : {S : Type 0} → Callback S → ℕ → List ℕ → List ℕ → ℕ → Reader → S → Type 0
Delivers {S} handle t keys bytes len r s =
    let info : UserInfo = record {
      bytes = bytes;
      len = len;
      type = DataType.is_pin;
      mode = DataMode.complete;
    } in
    (before : Reader) × (press_all handle t keys r s
      ≡ some (
        record (handle info before s).0 { pin_buf_pos = 0; code_timeout = t },
        (handle info before s).1,
      ))

module _ {S : Type 0} (handle : Callback S) (t : ℕ) (s : S) where
  press_hash :
      (r : Reader) (typed rest : List ℕ) (y : ℕ)
      → r.pin_buf ≡ typed ++ y ∷ rest
      → r.pin_buf_pos ≡ length typed
      → Delivers handle t (0x0d ∷ []) (typed ++ 0 ∷ rest) (length typed) r s
  unfolding press_all press complete_pin deliver
  press_hash r typed rest y e pos = (
    record r { pin_buf = typed ++ 0 ∷ rest; pin_buf_pos = length typed },
    rw (pos, e, store-append typed rest y 0) refl,
  )

  type_from :
      (digits typed rest : List ℕ) (r : Reader)
      → AreDigits digits
      → r.pin_buf ≡ typed ++ rest
      → r.pin_buf_pos ≡ length typed
      → suc (length digits) ≤ length rest
      → length typed + length digits ≤ max_pin_len
      → Delivers handle t
          (digits ++ 0x0d ∷ [])
          (typed ++ (digits ++ 0 ∷ drop (suc (length digits)) rest))
          (length typed + length digits)
          r
          s
  unfolding press_all
  type_from digits typed [] r all e pos room fits = absurd (omega arith)
  type_from [] typed (y ∷ rest) r all e pos room fits =
      let none_more : length typed + 0 ≡ length typed = omega arith in
      rw none_more (press_hash r typed rest y e pos)
  type_from (key ∷ digits) typed (y ∷ rest) r all e pos room fits =
      let typed' = typed ++ key ∷ [] in
      let one_more : length typed' ≡ length typed + 1 =
        omega (arith, length-append typed (key ∷ [])) in
      let more : length typed + suc (length digits) ≡ length typed' + length digits = omega arith in
      let next : Reader = record r {
        pin_buf = typed ++ key ∷ rest;
        pin_buf_pos = length typed + 1;
        code_timeout = t;
      } in
      let (before, done) =
        type_from digits typed' rest next all.1 (append_cons typed rest key) (sym one_more)
          (omega arith) (omega arith) in
      (
        before,
        rw
            (
              press_digit handle t s key r typed rest y all.0 e pos (omega arith),
              more,
              append_cons typed (digits ++ 0 ∷ drop (suc (length digits)) rest) key,
            )
            done,
      )

  -- A PIN of at most 28 keys that is typed from the start of a ready reader and ended with `#`
  -- calls the callback once, with the keys of the PIN, a zero byte after them, and their number.
  pub typed_pin :
      (digits : List ℕ) (r : Reader)
      → AreDigits digits
      → length digits ≤ max_pin_len
      → IsReady r
      → r.pin_buf_pos ≡ 0
      → Delivers handle t
          (digits ++ 0x0d ∷ [])
          (digits ++ 0 ∷ drop (suc (length digits)) r.pin_buf)
          (length digits)
          r
          s
  typed_pin digits r all fits ready pos =
      let from_zero : 0 + length digits ≡ length digits = omega arith in
      let done =
        type_from digits [] r.pin_buf r all refl pos (omega (arith, ready.size)) (omega arith) in
      rw from_zero at done

  -- What was typed before a `*` is forgotten: a PIN of at most 28 keys after it is delivered as if
  -- typed from the start, whatever the position in the buffer of a ready reader.
  pub star_clears :
      (digits : List ℕ) (r : Reader)
      → AreDigits digits
      → length digits ≤ max_pin_len
      → IsReady r
      → Delivers handle t
          (0x7f ∷ (digits ++ 0x0d ∷ []))
          (digits ++ 0 ∷ drop (suc (length digits)) r.pin_buf)
          (length digits)
          r
          s
  unfolding press_all press
  star_clears digits r all fits ready =
      typed_pin digits (record r { pin_buf_pos = 0; code_timeout = t }) all fits
        (record { size = ready.size; room = omega arith }) refl
