-- ===== src/UserDb/Mask.antt =====
-- The mask that `getAccessMask2` (door_controller/user_db.c) gives: which subdoors it opens.
use osdp_roger_acs.Base.{
  ℕ, ◌^◌, ◌≡◌, ◌≢◌, ◌↔◌, ◌⊎◌, inl, inr, sym, ap, ◌∙◌, refl, arith, List, [], ◌∷◌,
}
use osdp_roger_acs.Base.{Option, none, some, false, ◌&&◌, ltb, truth}
use osdp_roger_acs.Base.{
  Bool-cases, Option-cases, on_some, bit, bit_or, bit-zero, bit-bit_or, bit-le-one,
}
use osdp_roger_acs.Base.{bit-one_bit, bit-one_bit_self}
use mathlib.Core.Option.{some-injective}
use native.Mathlib.Decide.{ℕ_discrete}
use osdp_roger_acs.Door.{Text, max_card_len}
use osdp_roger_acs.Door.Auth.{Verdict}
use osdp_roger_acs.UserDb.{
  Row, Search, start, pin_refused, subdoor, on_row, on_rows, verdict_of, Libraries, Query, query_of,
  uses_card, get_access_mask2,
}
use osdp_roger_acs.UserDb.Rows.{NotRefused, pin_md5_of, card_of}
use osdp_roger_acs.UserDb.Policy.{Admits, LetsIn, AtSubdoor, SomeRow}
use osdp_roger_acs.UserDb.Exact.{
  pin_refused-HasPin, subdoor-AtSubdoor, AtSubdoor-subdoor, query_of-AsksFor, AsksFor-query_of,
}

-- The row lets its user in, to subdoor `k`.
record Opens (atoi : Text → Option ℕ) (mode : ℕ) (pin_md5 name : Text) (k : ℕ) (row : Row)
    : Type 0 where
  pub lets_in : NotRefused mode pin_md5 row
  pub at_door : subdoor atoi name row.door ≡ some k

-- Some row does.
abbrev SomeOpens : (Text → Option ℕ) → ℕ → Text → Text → ℕ → List Row → Type 0
SomeOpens atoi mode pin_md5 name k [] = ⊥
SomeOpens atoi mode pin_md5 name k (row ∷ rows) =
    Opens atoi mode pin_md5 name k row ⊎ SomeOpens atoi mode pin_md5 name k rows

set_bit_self : (m n : ℕ) → bit n (bit_or m (2 ^ n)) ≡ 1
set_bit_self m n =
    let power : bit n (2 ^ n) ≡ 1 = ap (bit n) (omega arith) ∙ bit-one_bit_self n 1 (omega arith) in
    omega (arith, bit-bit_or n m (2 ^ n), power, bit-le-one n m)

set_bit_other : (m n k : ℕ) → k ≢ n → bit k (bit_or m (2 ^ n)) ≡ bit k m
set_bit_other m n k h =
    let power : bit k (2 ^ n) ≡ 0 = ap (bit k) (omega arith) ∙ bit-one_bit n k 1 (omega arith) h in
    omega (arith, bit-bit_or k m (2 ^ n), power)

abbrev mask_of : ℕ → Option Search → ℕ
mask_of m none = m
mask_of m (some s) = s.door_mask

module _ (atoi : Text → Option ℕ) (mode : ℕ) (pin_md5 name : Text) where
  abbrev OpensHere : ℕ → Row → Type 0
  OpensHere k row = Opens atoi mode pin_md5 name k row

  -- A row opens no subdoor and leaves the mask, or opens one and adds it.
  abbrev Adds : Row → Search → Search → Type 0
  Adds row s s' =
      ((s'.door_mask ≡ s.door_mask) × ((k : ℕ) → ¬ OpensHere k row))
      ⊎ ((n : ℕ) × OpensHere n row × (s'.door_mask ≡ bit_or s.door_mask (2 ^ n)))

  on_row-Adds :
      (row : Row) (s s' : Search) → on_row atoi mode pin_md5 name row s ≡ some s' → Adds row s s'
  unfolding on_row
  on_row-Adds row s s' h = elim (Bool-cases (ltb row.expire row.curr_time)) [
    | inl e ↦ inl (sym (ap (mask_of 0) (rw e at h)), λ k o. absurd (ground (arith, o.lets_in, e)))
    | inr e ↦ on_some (pin_refused mode pin_md5 row) (rw e at h) λ refused f g.
        elim (Bool-cases refused) [
          | inl r ↦ inl (
            sym (ap (mask_of 0) (rw r at g)),
            λ k o. absurd (ground (arith, o.lets_in.pin_right, f, r)),
          )
          | inr r ↦ on_some (subdoor atoi name row.door) (rw r at g) λ n at last.
              let right : pin_refused mode pin_md5 row ≡ some false = rw (← r) f in
              inr (
                n,
                record {
                  lets_in = record { current = ground (arith, e); pin_right = right };
                  at_door = at;
                },
                sym (ap (mask_of 0) last),
              )
        ]
  ]

  Adds-bit :
      (k : ℕ) (row : Row) (s s' : Search)
      → Adds row s s'
      → (bit k s'.door_mask ≡ 1) ↔ ((bit k s.door_mask ≡ 1) ⊎ OpensHere k row)
  Adds-bit k row s s' (inl (same, shut)) =
      (λ b. inl (rw same at b), λ how. elim how [ inl b ↦ rw same b | inr o ↦ absurd (shut k o) ])
  Adds-bit k row s s' (inr (n, o, e)) = elim (ℕ_discrete k n) [
    | yes same ↦ (λ b. inr (rw same o), λ how. rw (e, same) (set_bit_self s.door_mask n))
    | no other ↦
        let kept : bit k s'.door_mask ≡ bit k s.door_mask =
          ap (bit k) e ∙ set_bit_other s.door_mask n k other in
        (
          λ b. inl (sym kept ∙ b),
          λ how. elim how [
            | inl b ↦ kept ∙ b
            | inr o' ↦ absurd (other (some-injective _ _ (sym o'.at_door ∙ o.at_door)))
          ],
        )
  ]

  on_rows-bit :
      (k : ℕ) (rows : List Row) (s s' : Search)
      → on_rows atoi mode pin_md5 name rows s ≡ some s'
      → (bit k s'.door_mask ≡ 1)
        ↔ ((bit k s.door_mask ≡ 1) ⊎ SomeOpens atoi mode pin_md5 name k rows)
  unfolding on_rows
  on_rows-bit k [] s s' h =
      let same : s.door_mask ≡ s'.door_mask = ap (mask_of 0) h in
      (λ b. inl (rw (← same) at b), λ how. elim how [ inl b ↦ rw (← same) b | inr o ↦ absurd o ])
  on_rows-bit k (row ∷ rows) s s' h = on_some (on_row atoi mode pin_md5 name row s) h λ after f g.
      let first = Adds-bit k row s after (on_row-Adds row s after f) in
      let rest = on_rows-bit k rows after s' g in
      (
        λ b. elim (rest.0 b) [
          | inl c ↦ elim (first.0 c) [ inl d ↦ inl d | inr o ↦ inr (inl o) ]
          | inr o ↦ inr (inr o)
        ],
        λ how. elim how [
          | inl b ↦ rest.1 (inl (first.1 (inl b)))
          | inr (inl o) ↦ rest.1 (inl (first.1 (inr o)))
          | inr (inr o) ↦ rest.1 (inr o)
        ],
      )

bit-verdict_of :
    (k : ℕ) (name card : Text) (s : Search)
    → bit k (verdict_of name card s).mask ≡ bit k s.door_mask
unfolding verdict_of
bit-verdict_of k name card s = elim (Bool-cases (truth s.door_mask)) [
  | inl e ↦ rw e refl
  | inr e ↦ let z : s.door_mask ≡ 0 = ground (arith, e) in rw (e, z) refl
]

abbrev verdict_mask : Option Verdict → ℕ
verdict_mask none = 0
verdict_mask (some v) = v.mask

-- The query for the credentials is asked, the card fits, and a row of its answer opens subdoor `k`.
record Matches (lib : Libraries) (pin : List ℕ) (pin_len : ℕ) (card : List ℕ) (card_len mode : ℕ)
    (name : Text) (k : ℕ) : Type 0 where
  pub fits : (uses_card mode && ltb max_card_len card_len) ≡ false
  pub query : Query
  pub asked :
      query_of mode name (pin_md5_of lib pin pin_len mode) (card_of lib card card_len mode)
      ≡ some query
  pub some_row : SomeOpens lib.atoi mode (pin_md5_of lib pin pin_len mode) name k (lib.query query)

no_bit : (k m : ℕ) → m ≡ 0 → bit k m ≡ 1 → ⊥
no_bit k m z b = absurd (omega (arith, sym (ap (bit k) z) ∙ b, bit-zero k))

-- The mask by the code's own tests.
get_access_mask2-Matches :
    (lib : Libraries) (pin : List ℕ) (pin_len : ℕ) (card : List ℕ) (card_len mode : ℕ) (name : Text)
    (v : Verdict) (k : ℕ)
    → get_access_mask2 lib pin pin_len card card_len mode name ≡ some v
    → (bit k v.mask ≡ 1) ↔ Matches lib pin pin_len card card_len mode name k
unfolding get_access_mask2
get_access_mask2-Matches lib pin pin_len card card_len mode name v k h =
    elim (Bool-cases (uses_card mode && ltb max_card_len card_len)) [
      | inl e ↦ (
        λ b. absurd (no_bit k v.mask (sym (ap verdict_mask (rw e at h))) b),
        λ o. absurd (ground (arith, o.fits, e)),
      )
      | inr e ↦
          let asked = rw e at h in
          let md5 = pin_md5_of lib pin pin_len mode in
          let card_str = card_of lib card card_len mode in
          elim (Option-cases (query_of mode name md5 card_str)) [
            | inl f ↦ (
              λ b. absurd (no_bit k v.mask (sym (ap verdict_mask (rw f at asked))) b),
              λ o. absurd (ground (arith, sym f ∙ o.asked)),
            )
            | inr (q, f) ↦
                on_some (on_rows lib.atoi mode md5 name (lib.query q) start) (rw f at asked)
                  λ s g last.
                    let rows = on_rows-bit lib.atoi mode md5 name k (lib.query q) start s g in
                    let same : bit k v.mask ≡ bit k s.door_mask =
                      ap (λ (o : Option Verdict). bit k (verdict_mask o)) (sym last)
                      ∙ bit-verdict_of k name card_str s in
                    (
                      λ b. elim (rows.0 (sym same ∙ b)) [
                        | inl z ↦ absurd (no_bit k 0 refl z)
                        | inr o ↦ record { fits = e; query = q; asked = f; some_row = o }
                      ],
                      λ o.
                          let this : o.query ≡ q = some-injective _ _ (sym o.asked ∙ f) in
                          same ∙ rows.1 (inr (rw this at o.some_row)),
                    )
          ]
    ]

module _ (lib : Libraries) (pin : List ℕ) (pin_len mode : ℕ) (name : Text) (k : ℕ) where
  abbrev AtRow : Row → Type 0
  AtRow row = LetsIn lib pin pin_len mode row × AtSubdoor lib name row.door k

  Opens-AtRow :
      (row : Row) → Opens lib.atoi mode (pin_md5_of lib pin pin_len mode) name k row ↔ AtRow row
  Opens-AtRow row =
      let right = pin_refused-HasPin lib pin pin_len mode row in
      (
        λ o. (
          record { current = o.lets_in.current; has_pin = right.0 o.lets_in.pin_right },
          subdoor-AtSubdoor lib name row.door k o.at_door,
        ),
        λ (l, at). record {
          lets_in = record { current = l.current; pin_right = right.1 l.has_pin };
          at_door = AtSubdoor-subdoor lib name row.door k at;
        },
      )

  SomeOpens-SomeRow :
      (rows : List Row)
      → SomeOpens lib.atoi mode (pin_md5_of lib pin pin_len mode) name k rows ↔ SomeRow AtRow rows
  SomeOpens-SomeRow [] = (λ o. o, λ o. o)
  SomeOpens-SomeRow (row ∷ rows) =
      let here = Opens-AtRow row in
      let rest = SomeOpens-SomeRow rows in
      (
        λ o. elim o [ inl o ↦ inl (here.0 o) | inr o ↦ inr (rest.0 o) ],
        λ o. elim o [ inl o ↦ inl (here.1 o) | inr o ↦ inr (rest.1 o) ],
      )

-- The mask is exact: where `getAccessMask2` returns, bit `k` of what it grants is set exactly if a row
-- admits the credentials to subdoor `k`: a row of the door and the MD5 sum of the PIN, or of the door
-- and the digits of a card of at most 16 bytes, that has not expired, has the sum of the PIN where the
-- mode always asks for one, or may do without one or has an empty one where the mode asks for the card
-- first, and has the number `k` where the door's name has its first percent sign, or `k` is 0 where that
-- has none. The text of the query has less than 500 characters.
pub get_access_mask2-bit :
    (lib : Libraries) (pin : List ℕ) (pin_len : ℕ) (card : List ℕ) (card_len mode : ℕ) (name : Text)
    (v : Verdict) (k : ℕ)
    → get_access_mask2 lib pin pin_len card card_len mode name ≡ some v
    → (bit k v.mask ≡ 1) ↔ Admits lib pin pin_len card card_len mode name k
get_access_mask2-bit lib pin pin_len card card_len mode name v k h =
    let is = get_access_mask2-Matches lib pin pin_len card card_len mode name v k h in
    let rows = SomeOpens-SomeRow lib pin pin_len mode name k in
    (
      λ b.
          let m = is.0 b in
          record {
            query = m.query;
            asks = query_of-AsksFor lib pin pin_len card card_len mode name m.query m.fits m.asked;
            row = (rows (lib.query m.query)).0 m.some_row;
          },
      λ o.
          let (fits, asked) =
            AsksFor-query_of lib pin pin_len card card_len mode name o.query o.asks in
          is.1 (record {
            fits = fits;
            query = o.query;
            asked = asked;
            some_row = (rows (lib.query o.query)).1 o.row;
          }),
    )
