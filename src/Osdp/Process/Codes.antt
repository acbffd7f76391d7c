-- ===== src/Osdp/Process/Codes.antt =====
-- What the switch on the code in `process_packet` of readers/osdp/osdp.c accepts.
use osdp_roger_acs.Base.{
  ℕ, zero, suc, ◌+◌, ◌≤◌, ◌<◌, ◌≡◌, refl, sym, ap, arith, List, [], ◌∷◌, ◌++◌,
}
use osdp_roger_acs.Base.{
  Bool, true, Option, none, some, Bool-cases, inl, inr, ◌==◌, ==_iff, leb, length-append,
  length-take,
}
use osdp_roger_acs.Base.{◌>>=◌, get_elem?, drop, take, length, length-drop, first, copy_at}
use osdp_roger_acs.Osdp.Process.{Response, take_payload, by_code, sub32}
use osdp_roger_acs.Osdp.Process.{osdp_ack, osdp_nack, osdp_raw, osdp_kpd, osdp_com}

-- The codes of the answers.
pub data IsAnswer : ℕ → Type 0 where
  ack : IsAnswer osdp_ack
  nack : IsAnswer osdp_nack
  raw : IsAnswer osdp_raw
  kpd : IsAnswer osdp_kpd
  port_set : IsAnswer osdp_com

bind_some :
    {A B : Type 0} (m : Option A) (f : A → Option B) (b : B)
    → m >>= f ≡ some b
    → (a : A) × (m ≡ some a) × (f a ≡ some b)
bind_some none f b h = absurd (ground arith)
bind_some (some a) f b h = (a, refl, h)

pub get_elem?-lt : (xs : List ℕ) (i v : ℕ) → get_elem? xs i ≡ some v → i < length xs
get_elem?-lt [] i v h = absurd (ground arith)
get_elem?-lt (x ∷ xs) zero v h = omega arith
get_elem?-lt (x ∷ xs) (suc i) v h = omega (arith, get_elem?-lt xs i v h)

abbrev response_of : Response → Option (Bool × Response) → Response
response_of r none = r
response_of r (some (ok, after)) = after

abbrev pub number_of : Option ℕ → ℕ
number_of none = 0
number_of (some n) = n

abbrev list_of : Option (List ℕ) → List ℕ
list_of none = []
list_of (some xs) = xs

abbrev length_of : Option (List ℕ) → ℕ
length_of none = 0
length_of (some xs) = length xs

copy_at-length :
    (dst src after : List ℕ) (off n : ℕ)
    → copy_at dst off src n ≡ some after
    → (off + n ≤ length dst) × (length after ≡ length dst)
copy_at-length dst src after off n h = elim (Bool-cases (leb n (length src))) [
  | inr e ↦ absurd (ground (arith, h, e))
  | inl e ↦ elim (Bool-cases (leb (off + n) (length dst))) [
    | inr f ↦ absurd (ground (arith, h, e, f))
    | inl f ↦
        let copied = ap length_of (rw (e, f) at h) in
        (
          ground arith,
          ground (
            arith,
            copied,
            length-append (take off dst) (take n src ++ drop (off + n) dst),
            length-append (take n src) (drop (off + n) dst),
            length-take off dst,
            length-take n src,
            length-drop (off + n) dst,
          ),
        )
  ]
]

-- What `by_code` accepts: the code is set before, and is kept.
unfoldable pub GoodPayload : ℕ → Response → Type 0
GoodPayload code after = (after.response ≡ code) × (after.payload_len ≤ length after.payload)

module _ (bytes : List ℕ) (r after : Response) where
  take_payload-good :
      (off n : ℕ) → take_payload bytes r off n ≡ some (true, after) → GoodPayload r.response after
  unfolding take_payload GoodPayload
  take_payload-good off n h =
      let (copied, e, f) = bind_some (copy_at r.payload 0 (drop off bytes) n) _ _ h in
      let same = ap (response_of r) f in
      let room = copy_at-length r.payload (drop off bytes) copied 0 n e in
      rw (← same) (refl, omega (arith, room))

  pub unchanged : r.payload_len ≡ 0 → r ≡ after → GoodPayload r.response after
  unfolding GoodPayload
  unchanged h same = rw (← same) (refl, omega arith)

  pub by_code-good :
      (len code : ℕ)
      → r.payload_len ≡ 0
      → by_code bytes len r code ≡ some (true, after)
      → IsAnswer code × GoodPayload r.response after
  unfolding by_code
  by_code-good len code h e = elim (Bool-cases (code == osdp_ack)) [
    | inl k ↦ (
      rw ((==_iff code osdp_ack).0 k) IsAnswer.ack,
      unchanged h (ap (response_of r) (rw (k, by_code) at e)),
    )
    | inr k ↦ elim (Bool-cases (code == osdp_nack)) [
      | inl l ↦ (
        rw ((==_iff code osdp_nack).0 l) IsAnswer.nack,
        unchanged h (ap (response_of r) (rw (k, l, by_code) at e)),
      )
      | inr l ↦ elim (Bool-cases (code == osdp_raw)) [
        | inl m ↦ (
          rw ((==_iff code osdp_raw).0 m) IsAnswer.raw,
          take_payload-good 6 (sub32 len 8) (rw (k, l, m, by_code) at e),
        )
        | inr m ↦ elim (Bool-cases (code == osdp_kpd)) [
          | inl n ↦
              let (pin_len, _, taken) =
                bind_some (get_elem? bytes 7) _ _ (rw (k, l, m, n, by_code) at e) in
              (rw ((==_iff code osdp_kpd).0 n) IsAnswer.kpd, take_payload-good 8 pin_len taken)
          | inr n ↦ elim (Bool-cases (code == osdp_com)) [
            | inl o ↦ (
              rw ((==_iff code osdp_com).0 o) IsAnswer.port_set,
              take_payload-good 6 (sub32 len 8) (rw (k, l, m, n, o, by_code) at e),
            )
            | inr o ↦ absurd (ground (arith, e, k, l, m, n, o))
          ]
        ]
      ]
    ]
  ]

pub first-eq : (xs ys : List ℕ) (n : ℕ) → first xs n ≡ some ys → (n ≤ length xs) × (ys ≡ take n xs)
first-eq xs ys n h = elim (Bool-cases (leb n (length xs))) [
  | inl e ↦ (ground arith, sym (ap list_of (rw e at h)))
  | inr e ↦ absurd (ground (arith, h, e))
]
