-- ===== src/UserDb/Keys.antt =====
-- `checkKeyAccess2` of door_controller/user_db.c: what grants access to two cards.
use osdp_roger_acs.Base.{
  ℕ, ◌≡◌, ◌≢◌, ◌<◌, ◌⊎◌, inl, inr, refl, sym, ap, arith, List, [], ◌∷◌, Option, none, some,
}
use osdp_roger_acs.Base.{Bool-cases, ◌||◌, ◌+◌, ltb, leb, length}
use osdp_roger_acs.Door.{max_card_len}
use osdp_roger_acs.Door.Auth.{Verdict}
use osdp_roger_acs.UserDb.{Libraries, Query, Row, buf_size, check_key_access2, card_text}

abbrev verdict_mask : Option Verdict → ℕ
verdict_mask none = 0
verdict_mask (some v) = v.mask

rows_cases :
    (rows : List Row) → (rows ≡ []) ⊎ ((row : Row) × (rest : List Row) × (rows ≡ row ∷ rest))
rows_cases [] = inl refl
rows_cases (row ∷ rest) = inr (row, rest, refl)

-- If two cards are granted access, the first row for them had not expired.
pub check_key_access2-first :
    (lib : Libraries) (card : List ℕ) (card_len : ℕ) (card2 : List ℕ) (card2_len : ℕ) (v : Verdict)
    → check_key_access2 lib card card_len card2 card2_len ≡ some v
    → v.mask ≢ 0
    → (row : Row) × (rest : List Row) × (lib.query
          (Query.by_key (card_text lib.trash card card_len) (card_text lib.trash card2 card2_len))
        ≡ row ∷ rest)
      × (row.curr_time < row.expire)
unfolding check_key_access2
check_key_access2-first lib card card_len card2 card2_len v h granted =
    let one = card_text lib.trash card card_len in
    let two = card_text lib.trash card2 card2_len in
    elim (Bool-cases (ltb max_card_len card_len || ltb max_card_len card2_len)) [
      | inl e ↦ absurd (granted (sym (ap verdict_mask (rw e at h))))
      | inr e ↦ elim (Bool-cases (leb buf_size (245 + length one + length two))) [
        | inl f ↦ absurd (granted (sym (ap verdict_mask (rw f at (rw e at h)))))
        | inr f ↦ elim (rows_cases (lib.query (Query.by_key one two))) [
          | inl g ↦ absurd (granted (sym (ap verdict_mask (rw g at (rw f at (rw e at h))))))
          | inr (row, rest, g) ↦ elim (Bool-cases (ltb row.curr_time row.expire)) [
            | inl t ↦ (row, rest, g, ground arith)
            | inr t ↦
                absurd (granted (sym (ap verdict_mask (rw t at (rw g at (rw f at (rw e at h)))))))
          ]
        ]
      ]
    ]
