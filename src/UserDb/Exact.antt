-- ===== src/UserDb/Exact.antt =====
-- The parts of door_controller/user_db.c against the description of them in UserDb.Policy.
use osdp_roger_acs.Base.{
  ℕ, zero, suc, ◌+◌, ◌≤◌, ◌<◌, ◌≡◌, ◌⊎◌, ◌↔◌, inl, inr, refl, sym, ap, ◌∙◌, arith, List, [], ◌∷◌,
  ◌++◌, Option, none, some, true, false, Bool-cases, Option-cases, on_some,
}
use osdp_roger_acs.Base.{
  ◌==◌, ==_iff, ◌&&◌, not, ltb, leb, length, take, drop, drop-append, length-append,
}
use mathlib.Core.Option.{some-injective}
use osdp_roger_acs.Door.{Text, text_eq, max_card_len}
use osdp_roger_acs.Door.Names.{text_eq-eq, text_eq_refl}
use osdp_roger_acs.Door.Auth.{mode_pin, mode_card_and_pin, mode_card_and_pin_always}
use osdp_roger_acs.UserDb.{
  Row, Query, Libraries, hex, card_text, pin_text, find_percent, subdoor, wrong_pin, pin_refused,
  uses_pin, uses_card, query_of,
}
use osdp_roger_acs.UserDb.Policy.{
  two_digits, pin_sum, card_name, AsksCard, AsksFor, for_pin, for_card, HasPin, NoPercent,
  AtSubdoor, whole, numbered,
}
use native.Mathlib.Decide.{ℕ_discrete}
use osdp_roger_acs.UserDb.Rows.{pin_md5_of, card_of}
use osdp_roger_acs.Base.{take-drop, length-take}

hex-two_digits : (ten : ℕ) (bs : List ℕ) → hex ten bs ≡ two_digits ten bs
unfolding hex
hex-two_digits ten [] = refl
hex-two_digits ten (b ∷ bs) = rw (hex-two_digits ten bs) refl

pub pin_text-eq :
    (lib : Libraries) (pin : List ℕ) (n : ℕ) → pin_text lib.md5 pin n ≡ pin_sum lib pin n
unfolding pin_text
pin_text-eq lib pin n = hex-two_digits 0x61 (take 16 (lib.md5 (take n pin)))

pub card_text-eq :
    (lib : Libraries) (card : List ℕ) (n : ℕ) → card_text lib.trash card n ≡ card_name lib card n
unfolding card_text
card_text-eq lib card zero = refl
card_text-eq lib card (suc n) =
    let some_byte : ltb 0 (suc n) ≡ true = ground arith in
    rw some_byte (hex-two_digits 0x41 (take (suc n) card))

-- The query of a mode.
abbrev Asked : ℕ → Text → Text → Text → Query → Type 0
Asked mode name pin card q =
    ((mode ≡ mode_pin) × (268 + length name + length pin < 500) × (q ≡ Query.by_pin name pin))
    ⊎ (AsksCard mode × (269 + length name + length card < 500) × (q ≡ Query.by_card name card))

query_of-Asked :
    (mode : ℕ) (name pin card : Text) (q : Query)
    → query_of mode name pin card ≡ some q
    → Asked mode name pin card q
unfolding query_of uses_card
query_of-Asked mode name pin card q h = ground (arith, h)

Asked-query_of :
    (mode : ℕ) (name pin card : Text) (q : Query)
    → Asked mode name pin card q
    → query_of mode name pin card ≡ some q
unfolding query_of uses_card
Asked-query_of mode name pin card q a = ground (arith, a)

-- Where a percent sign is found.
find_percent-none : (name : Text) → (find_percent name ≡ none) ↔ NoPercent name
unfolding find_percent
find_percent-none [] = (λ h. tt, λ h. refl)
find_percent-none (c ∷ cs) =
    let rest = find_percent-none cs in (λ h. ground (arith, h, rest), λ h. ground (arith, h, rest))

find_percent-some :
    (name : Text) (i : ℕ)
    → find_percent name ≡ some i
    → (before : Text) × (after : Text) × NoPercent before
      × (name ≡ before ++ b'%' ∷ after)
      × (length before ≡ i)
unfolding find_percent
find_percent-some [] i h = absurd (ground arith)
find_percent-some (c ∷ cs) i h = elim (Bool-cases (c == 0x25)) [
  | inl e ↦ ([], cs, tt, ap (λ x. x ∷ cs) ((==_iff c 0x25).0 e), some-injective _ _ (rw e at h))
  | inr e ↦ on_some (find_percent cs) (rw e at h) λ j f g.
      let (before, after, clean, same, size) = find_percent-some cs j f in
      (
        c ∷ before,
        after,
        (λ z. absurd (ground (arith, e, z)), clean),
        ap (◌∷◌ c) same,
        ap suc size ∙ some-injective _ _ g,
      )
]

find_percent-first :
    (before after : Text)
    → NoPercent before
    → find_percent (before ++ b'%' ∷ after) ≡ some (length before)
unfolding find_percent
find_percent-first [] after h = refl
find_percent-first (c ∷ cs) after h = ground (arith, h, find_percent-first cs after)

-- `%`-numbers of rows.
pub subdoor-AtSubdoor :
    (lib : Libraries) (name : Text) (door : Option Text) (k : ℕ)
    → subdoor lib.atoi name door ≡ some k
    → AtSubdoor lib name door k
unfolding subdoor
subdoor-AtSubdoor lib name door k h = elim (Option-cases (find_percent name)) [
  | inl e ↦ whole ((find_percent-none name).0 e) (sym (some-injective _ _ (rw (e, subdoor) at h)))
  | inr (i, e) ↦
      let (before, after, clean, same, size) = find_percent-some name i e in
      on_some door (rw (e, subdoor) at h) λ text f g. elim (Bool-cases (leb i (length text))) [
        | inr out ↦ absurd (ground (arith, rw out at g))
        | inl inside ↦ on_some (lib.atoi (drop i text)) (rw inside at g) λ n at l.
            elim (Bool-cases (ltb n 32)) [
              | inr large ↦ absurd (ground (arith, rw large at l))
              | inl small ↦
                  let is : n ≡ k = some-injective _ _ (rw small at l) in
                  numbered before after (take i text) (drop i text) clean same
                    (f ∙ ap some (sym (take-drop i text)))
                    (let long : i ≤ length text = ground (arith, inside) in
                      omega (arith, length-take {0} i text, long, size))
                    (rw is at at) (ground (arith, is))
            ]
      ]
]

pub AtSubdoor-subdoor :
    (lib : Libraries) (name : Text) (door : Option Text) (k : ℕ)
    → AtSubdoor lib name door k
    → subdoor lib.atoi name door ≡ some k
unfolding subdoor
AtSubdoor-subdoor lib name door k (whole clean z) =
    rw ((find_percent-none name).1 clean, subdoor) (ap some (sym z))
AtSubdoor-subdoor lib name door k
      (numbered before after front number clean same at size found small) =
    let inside : leb (length front) (length (front ++ number)) ≡ true =
      ground (arith, length-append {0} front number) in
    let fits : ltb k 32 ≡ true = ground arith in
    rw (same, at)
      (rw (find_percent-first before after clean, subdoor)
        (rw (← size) (rw (inside, drop-append front number) (rw (found, fits) refl))))

-- The PIN of a row.
wrong_pin-false :
    (sum : Text) (row : Row) → (wrong_pin sum row ≡ some false) ↔ (row.user_pin ≡ some sum)
unfolding wrong_pin
wrong_pin-false sum row = (
  λ h. on_some row.user_pin h λ text f g. elim (Bool-cases (text_eq text sum)) [
    | inl e ↦ f ∙ ap some (text_eq-eq text sum e)
    | inr e ↦ absurd (ground (arith, rw e at g))
  ],
  λ h. rw h (rw (text_eq_refl sum) refl),
)

empty_or_allowed :
    (text : Text) (allowed : ℕ)
    → (some (not (text_eq text []) && not (allowed == 1)) ≡ some false)
      ↔ ((text ≡ []) ⊎ (allowed ≡ 1))
empty_or_allowed [] allowed = (λ h. inl refl, λ how. refl)
empty_or_allowed (c ∷ s) allowed = (
  λ h. inr (ground (arith, h)),
  λ how. elim how [ inl e ↦ absurd (ground (arith, e)) | inr e ↦ ground (arith, e) ],
)

-- Without a sum to compare with, an empty PIN is right, and any where the row may do without.
without-false :
    (row : Row)
    → (pin_refused mode_card_and_pin [] row ≡ some false)
      ↔ ((text : Text) × (row.user_pin ≡ some text) × ((text ≡ []) ⊎ (row.allow_no_pin ≡ 1)))
unfolding pin_refused wrong_pin
without-false row = (
  λ h. elim (Option-cases row.user_pin) [
    | inl e ↦ absurd (ground (arith, rw (e, pin_refused, wrong_pin) at h))
    | inr (text, e) ↦
        (text, e, (empty_or_allowed text row.allow_no_pin).0 (rw (e, pin_refused, wrong_pin) at h))
  ],
  λ (text, f, how). rw f ((empty_or_allowed text row.allow_no_pin).1 how),
)

-- A row that is not refused, in each mode.
pub pin_refused-HasPin :
    (lib : Libraries) (pin : List ℕ) (pin_len mode : ℕ) (row : Row)
    → (pin_refused mode (pin_md5_of lib pin pin_len mode) row ≡ some false)
      ↔ HasPin lib pin pin_len mode row
unfolding pin_refused uses_pin
pin_refused-HasPin lib pin pin_len mode row = elim (ℕ_discrete mode mode_card_and_pin_always) [
  | yes e ↦
      let right = wrong_pin-false (pin_sum lib pin pin_len) row in
      rw (e, pin_text-eq lib pin pin_len)
        (
          λ h. record { always = λ m. right.0 h; card_first = λ m. absurd (ground arith) },
          λ h. right.1 (h.always refl),
        )
  | no not_always ↦ elim (ℕ_discrete mode mode_card_and_pin) [
    | yes e ↦
        let right = without-false row in
        rw e (
          λ h. record { always = λ m. absurd (ground arith); card_first = λ m. right.0 h },
          λ h. right.1 (h.card_first refl),
        )
    | no other ↦ (
      λ h. record { always = λ m. absurd (not_always m); card_first = λ m. absurd (other m) },
      λ h. ground (arith, not_always, other),
    )
  ]
]

-- The query that is asked, of the texts that are asked for.
pub query_of-AsksFor :
    (lib : Libraries) (pin : List ℕ) (pin_len : ℕ) (card : List ℕ) (card_len mode : ℕ) (name : Text)
    (q : Query)
    → (uses_card mode && ltb max_card_len card_len) ≡ false
    → query_of mode name (pin_md5_of lib pin pin_len mode) (card_of lib card card_len mode) ≡ some q
    → AsksFor lib pin pin_len card card_len mode name q
unfolding uses_pin uses_card
query_of-AsksFor lib pin pin_len card card_len mode name q fits h =
    elim (query_of-Asked mode name _ _ q h) [
      | inl (m, short, e) ↦
          let same : pin_md5_of lib pin pin_len mode ≡ pin_sum lib pin pin_len =
            rw m (pin_text-eq lib pin pin_len) in
          rw (e, same) (for_pin m (rw same at short))
      | inr (m, short, e) ↦
          let uses : uses_card mode ≡ true = ground (arith, m) in
          let same : card_of lib card card_len mode ≡ card_name lib card card_len =
            rw uses (card_text-eq lib card card_len) in
          rw (e, same) (for_card m (ground (arith, fits, uses)) (rw same at short))
    ]

pub AsksFor-query_of :
    (lib : Libraries) (pin : List ℕ) (pin_len : ℕ) (card : List ℕ) (card_len mode : ℕ) (name : Text)
    (q : Query)
    → AsksFor lib pin pin_len card card_len mode name q
    → ((uses_card mode && ltb max_card_len card_len) ≡ false)
      × (query_of mode name (pin_md5_of lib pin pin_len mode) (card_of lib card card_len mode)
          ≡ some q)
unfolding uses_pin uses_card
AsksFor-query_of lib pin pin_len card card_len mode name _ (for_pin m short) =
    let same : pin_md5_of lib pin pin_len mode ≡ pin_sum lib pin pin_len =
      rw m (pin_text-eq lib pin pin_len) in
    (
      ground (arith, m),
      rw same (Asked-query_of mode name (pin_sum lib pin pin_len) _ _ (inl (m, short, refl))),
    )
AsksFor-query_of lib pin pin_len card card_len mode name _ (for_card m fits short) =
    let uses : uses_card mode ≡ true = ground (arith, m) in
    let same : card_of lib card card_len mode ≡ card_name lib card card_len =
      rw uses (card_text-eq lib card card_len) in
    (
      ground (arith, fits),
      rw same (Asked-query_of mode name _ (card_name lib card card_len) _ (inr (m, short, refl))),
    )
