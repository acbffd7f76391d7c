-- ===== src/UserDb/Rows.antt =====
-- The loop over the rows in `getAccessMask2` (door_controller/user_db.c): what grants access.
use osdp_roger_acs.Base.{ℕ, ◌≤◌, ◌≡◌, ◌≢◌, refl, sym, ap, ◌∙◌, arith, List, [], ◌∷◌}
use osdp_roger_acs.Base.{
  Option, none, some, false, ◌&&◌, ltb, truth, inl, inr, ◌⊎◌, Bool-cases, Option-cases,
}
use osdp_roger_acs.Base.{if◌then◌else◌, on_some}
use osdp_roger_acs.Door.{Text, max_card_len}
use osdp_roger_acs.Door.Auth.{Verdict}
use osdp_roger_acs.UserDb.{
  Row, Search, start, pin_refused, on_row, on_rows, verdict_of, Libraries, Query, query_of,
  uses_pin, uses_card, pin_text, card_text, get_access_mask2,
}

abbrev mask_of : Option Search → ℕ
mask_of none = 0
mask_of (some s) = s.door_mask

abbrev verdict_mask : Option Verdict → ℕ
verdict_mask none = 0
verdict_mask (some v) = v.mask

-- The row lets its user in: it has not expired, and the PIN is right where the mode asks for it.
pub record NotRefused (mode : ℕ) (pin_md5 : Text) (row : Row) : Type 0 where
  pub current : row.curr_time ≤ row.expire
  pub pin_right : pin_refused mode pin_md5 row ≡ some false

-- Some row does.
abbrev pub SomeNotRefused : ℕ → Text → List Row → Type 0
SomeNotRefused mode pin_md5 [] = ⊥
SomeNotRefused mode pin_md5 (row ∷ rows) =
    NotRefused mode pin_md5 row ⊎ SomeNotRefused mode pin_md5 rows

module _ (atoi : Text → Option ℕ) (mode : ℕ) (pin_md5 name : Text) where
  on_row-NotRefused :
      (row : Row) (s s' : Search)
      → on_row atoi mode pin_md5 name row s ≡ some s'
      → (s'.door_mask ≡ s.door_mask) ⊎ NotRefused mode pin_md5 row
  unfolding on_row
  on_row-NotRefused row s s' h = elim (Bool-cases (ltb row.expire row.curr_time)) [
    | inl e ↦ inl (sym (ap mask_of (rw e at h)))
    | inr e ↦ on_some (pin_refused mode pin_md5 row) (rw e at h) λ refused f g.
        elim (Bool-cases refused) [
          | inl r ↦ inl (sym (ap mask_of (rw r at g)))
          | inr r ↦ inr (record { current = ground (arith, e); pin_right = rw (← r) f })
        ]
  ]

  on_rows-NotRefused :
      (rows : List Row) (s s' : Search)
      → s.door_mask ≡ 0
      → on_rows atoi mode pin_md5 name rows s ≡ some s'
      → s'.door_mask ≢ 0
      → SomeNotRefused mode pin_md5 rows
  unfolding on_rows
  on_rows-NotRefused [] s s' e h granted = granted (sym (ap mask_of h) ∙ e)
  on_rows-NotRefused (row ∷ rows) s s' e h granted =
      on_some (on_row atoi mode pin_md5 name row s) h λ after f g.
        elim (on_row-NotRefused row s after f) [
          | inl same ↦ inr (on_rows-NotRefused rows after s' (same ∙ e) g granted)
          | inr good ↦ inl good
        ]

verdict-mask :
    (name card : Text) (s : Search) (v : Verdict)
    → some (verdict_of name card s) ≡ some v
    → v.mask ≢ 0
    → s.door_mask ≢ 0
unfolding verdict_of
verdict-mask name card s v g granted e =
    let off : truth s.door_mask ≡ false = ground (arith, e) in
    granted (sym (ap verdict_mask (rw off at g)))

-- The PIN text and the card text that `getAccessMask2` compares and asks for.
abbrev pub pin_md5_of : Libraries → List ℕ → ℕ → ℕ → Text
pin_md5_of lib pin pin_len mode = if uses_pin mode then pin_text lib.md5 pin pin_len else []

abbrev pub card_of : Libraries → List ℕ → ℕ → ℕ → Text
card_of lib card card_len mode = if uses_card mode then card_text lib.trash card card_len else []

-- Who is let in is let in by a row: if `getAccessMask2` grants a door, the query of the mode was
-- asked, for these credentials and this door, and one of its rows had not expired and has the right
-- PIN where the mode asks for it.
pub get_access_mask2-NotRefused :
    (lib : Libraries) (pin : List ℕ) (pin_len : ℕ) (card : List ℕ) (card_len mode : ℕ) (name : Text)
    (v : Verdict)
    → get_access_mask2 lib pin pin_len card card_len mode name ≡ some v
    → v.mask ≢ 0
    → (q : Query) × ((uses_card mode && ltb max_card_len card_len) ≡ false)
      × (query_of mode name (pin_md5_of lib pin pin_len mode) (card_of lib card card_len mode)
          ≡ some q)
      × SomeNotRefused mode (pin_md5_of lib pin pin_len mode) (lib.query q)
unfolding get_access_mask2
get_access_mask2-NotRefused lib pin pin_len card card_len mode name v h granted =
    elim (Bool-cases (uses_card mode && ltb max_card_len card_len)) [
      | inl e ↦ absurd (granted (sym (ap verdict_mask (rw e at h))))
      | inr e ↦
          let asked = rw e at h in
          let md5 = pin_md5_of lib pin pin_len mode in
          let card_str = card_of lib card card_len mode in
          elim (Option-cases (query_of mode name md5 card_str)) [
            | inl none_asked ↦ absurd (granted (sym (ap verdict_mask (rw none_asked at asked))))
            | inr (q, found) ↦
                on_some (on_rows lib.atoi mode md5 name (lib.query q) start) (rw found at asked)
                  λ s f g. (
                    q,
                    e,
                    found,
                    on_rows-NotRefused lib.atoi mode md5 name (lib.query q) start s refl f
                        (verdict-mask name card_str s v g granted),
                  )
          ]
    ]
