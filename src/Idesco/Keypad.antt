-- ===== src/Idesco/Keypad.antt =====
-- The keypad of readers/reader-idesco.c: the buffer and its bounds, and what a typed PIN delivers.
use osdp_roger_acs.Base.{ℕ, suc, ◌+◌, ◌≤◌, ◌<◌, ◌≡◌, ◌≢◌, refl, ◌∙◌, arith, List, [], ◌∷◌, ◌++◌}
use osdp_roger_acs.Base.{true, false, Option, some, Bool-cases, inl, inr, ◌==◌}
use osdp_roger_acs.Base.{◌>>=◌, store, store-append, set, length, length-set, ltb}
use osdp_roger_acs.Reader.{UserInfo, DataMode}
use osdp_roger_acs.Idesco.{
  Reader, Callback, max_pin_len, deliver, add_key, complete_pin, press, press_all,
}

-- The buffer has its size, and the position leaves room for the byte that ends the PIN.
pub record IsReady (r : Reader) : Type 0 where
  pub size : length r.pin_buf ≡ suc max_pin_len
  pub room : r.pin_buf_pos ≤ max_pin_len

-- A callback that leaves a ready reader ready, as one does that leaves it alone or clears it.
abbrev pub KeepsReady : {S : Type 0} → Callback S → Type 0
KeepsReady {S} handle =
    (info : UserInfo) (r : Reader) (s : S) → IsReady r → IsReady (handle info r s).0

-- A computation that ends, with a ready reader.
abbrev pub EndsReady : {S : Type 0} → Option (Reader × S) → Type 0
EndsReady {S} m = (r : Reader) × (s : S) × (m ≡ some (r, s)) × IsReady r

module _ {S : Type 0} (handle : Callback S) (keeps : KeepsReady handle) where
  pub deliver-IsReady :
      (mode : DataMode) (r : Reader) (s : S) → IsReady r → IsReady (deliver handle mode r s).0
  unfolding deliver
  deliver-IsReady mode r s h =
      let after = keeps _ r s h in record { size = after.size; room = omega arith }

  complete_pin-EndsReady : (r : Reader) (s : S) → IsReady r → EndsReady (complete_pin handle r s)
  unfolding complete_pin
  complete_pin-EndsReady r s h =
      let inside : ltb r.pin_buf_pos (length r.pin_buf) ≡ true = ground (arith, h.size, h.room) in
      let buf = set r.pin_buf r.pin_buf_pos 0 in
      let ended : Reader = record r { pin_buf = buf } in
      let ready : IsReady ended = record {
        size = length-set r.pin_buf r.pin_buf_pos 0 ∙ h.size;
        room = h.room;
      } in
      let after = deliver handle DataMode.complete ended s in
      (after.0, after.1, rw inside refl, deliver-IsReady DataMode.complete ended s ready)

  -- What `add_key` does once there is room.
  type_key-EndsReady :
      (key : ℕ) (r : Reader) (s : S)
      → IsReady r
      → r.pin_buf_pos < max_pin_len
      → EndsReady (
          store r.pin_buf r.pin_buf_pos key >>= λ buf.
          some (record r { pin_buf = buf; pin_buf_pos = r.pin_buf_pos + 1 }, s))
  type_key-EndsReady key r s h lt =
      let inside : ltb r.pin_buf_pos (length r.pin_buf) ≡ true = ground (arith, h.size) in
      (
        record r { pin_buf = set r.pin_buf r.pin_buf_pos key; pin_buf_pos = r.pin_buf_pos + 1 },
        s,
        rw inside refl,
        record { size = length-set r.pin_buf r.pin_buf_pos key ∙ h.size; room = omega arith },
      )

  deliver-pos : (mode : DataMode) (r : Reader) (s : S) → (deliver handle mode r s).0.pin_buf_pos ≡ 0
  unfolding deliver
  deliver-pos mode r s = refl

  add_key-EndsReady :
      (key : ℕ) (r : Reader) (s : S) → IsReady r → EndsReady (add_key handle key r s)
  unfolding add_key
  add_key-EndsReady key r s h = elim (Bool-cases (r.pin_buf_pos == max_pin_len)) [
    | inl e ↦
        let after = deliver handle DataMode.out_of_buf r s in
        rw e (
          type_key-EndsReady key after.0 after.1 (deliver-IsReady DataMode.out_of_buf r s h)
            (omega (arith, deliver-pos DataMode.out_of_buf r s)))
    | inr e ↦ rw e (type_key-EndsReady key r s h (ground (arith, h.room, e)))
  ]

  timed :
      (t : ℕ) (m : Option (Reader × S))
      → EndsReady m
      → EndsReady (m >>= λ (r', s'). some (record r' { code_timeout = t }, s'))
  timed t m (r, s, e, h) =
      (record r { code_timeout = t }, s, rw e refl, record { size = h.size; room = h.room })

  press-EndsReady :
      (t key : ℕ) (r : Reader) (s : S) → IsReady r → EndsReady (press handle t key r s)
  unfolding press
  press-EndsReady t key r s h = elim (Bool-cases (key == 0x7f)) [
    | inl e ↦ rw e (
        timed t (some (record r { pin_buf_pos = 0 }, s))
          (record r { pin_buf_pos = 0 }, s, refl, record { size = h.size; room = omega arith }))
    | inr e ↦ elim (Bool-cases (key == 0x0d)) [
      | inl f ↦ rw (e, f) (timed t _ (complete_pin-EndsReady r s h))
      | inr f ↦ rw (e, f) (timed t _ (add_key-EndsReady key r s h))
    ]
  ]

  -- Keys never write outside the PIN buffer: from a ready reader any keys are processed to the end,
  -- whatever the callback, if it keeps readers ready, and the reader is ready after them.
  pub press_all-EndsReady :
      (t : ℕ) (keys : List ℕ) (r : Reader) (s : S)
      → IsReady r
      → EndsReady (press_all handle t keys r s)
  unfolding press_all
  press_all-EndsReady t [] r s h = (r, s, refl, h)
  press_all-EndsReady t (key ∷ keys) r s h =
      let (r', s', e, h') = press-EndsReady t key r s h in
      rw e (press_all-EndsReady t keys r' s' h')

-- A key that is neither `*` nor `#`.
abbrev pub IsDigit : ℕ → Type 0
IsDigit key = (key ≢ 0x7f) × (key ≢ 0x0d)

abbrev pub AreDigits : List ℕ → Type 0
AreDigits [] = Unit
AreDigits (key ∷ keys) = IsDigit key × AreDigits keys

module _ {S : Type 0} (handle : Callback S) (t : ℕ) (s : S) where
  pub press_digit :
      (key : ℕ) (r : Reader) (typed rest : List ℕ) (y : ℕ)
      → IsDigit key
      → r.pin_buf ≡ typed ++ y ∷ rest
      → r.pin_buf_pos ≡ length typed
      → length typed < max_pin_len
      → press handle t key r s
        ≡ some (
          record r {
            pin_buf = typed ++ key ∷ rest;
            pin_buf_pos = length typed + 1;
            code_timeout = t;
          },
          s,
        )
  unfolding press add_key
  press_digit key r typed rest y digit e pos lt =
      let not_star : (key == 0x7f) ≡ false = ground (arith, digit.0) in
      let not_hash : (key == 0x0d) ≡ false = ground (arith, digit.1) in
      let not_full : (length typed == max_pin_len) ≡ false = ground arith in
      rw (not_star, not_hash, pos, not_full, e, store-append typed rest y key) refl
