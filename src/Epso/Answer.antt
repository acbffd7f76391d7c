-- ===== src/Epso/Answer.antt =====
-- `epso_write_read` of readers/epso/epso.c on a framed answer.
use osdp_roger_acs.Base.{ℕ, ◌-◌, ◌≡◌, ◌≢◌, refl, sym, ap, ◌∙◌, arith, List, [], ◌∷◌, ◌++◌}
use osdp_roger_acs.Base.{
  length, length-append, take, drop, take-append, drop-append, ==_iff, ◌==◌, ltb, true, false,
}
use osdp_roger_acs.Epso.{epso_checksum, split_last, payload_of, check_answer, bytes_read, etx}

-- An answer: seven bytes up to the start of its text, the text, the end of the text, the checksum.
abbrev pub framed : ℕ → List ℕ → List ℕ → List ℕ
framed b head text = b ∷ (head ++ (text ++ etx ∷ []))

abbrev pub answer : ℕ → List ℕ → List ℕ → List ℕ
answer b head text = framed b head text ++ epso_checksum (framed b head text) ∷ []

split_last-append :
    (b : ℕ) (bytes : List ℕ) (c : ℕ) → split_last b (bytes ++ c ∷ []) ≡ (b ∷ bytes, c)
unfolding split_last
split_last-append b [] c = refl
split_last-append b (d ∷ bytes) c = rw (split_last-append d bytes c) refl

pub append_assoc : (s t u : List ℕ) → (s ++ t) ++ u ≡ s ++ (t ++ u)
append_assoc [] t u = refl
append_assoc (c ∷ s) t u = ap (◌∷◌ c) (append_assoc s t u)

pub drop_first : (n : ℕ) (s t : List ℕ) → length s ≡ n → drop n (s ++ t) ≡ t
drop_first n s t e = ap (λ (k : ℕ). drop k (s ++ t)) (sym e) ∙ drop-append s t

take_first : (n : ℕ) (s t : List ℕ) → length s ≡ n → take n (s ++ t) ≡ s
take_first n s t e = ap (λ (k : ℕ). take k (s ++ t)) (sym e) ∙ take-append s t

payload_of-answer :
    (b c : ℕ) (head text : List ℕ)
    → length head ≡ 6
    → payload_of (b ∷ ((head ++ (text ++ etx ∷ [])) ++ c ∷ [])) ≡ text
payload_of-answer b c head text six =
    let tail = etx ∷ c ∷ [] in
    let flat : (head ++ (text ++ etx ∷ [])) ++ c ∷ [] ≡ head ++ (text ++ tail) =
      append_assoc head (text ++ etx ∷ []) (c ∷ [])
      ∙ ap (◌++◌ head) (append_assoc text (etx ∷ []) (c ∷ [])) in
    let long : length text ≡ length (b ∷ (head ++ (text ++ tail))) - 2 - 7 =
      omega (arith, length-append {0} head (text ++ tail), length-append {0} text tail, six) in
    rw (flat, drop_first 6 head (text ++ tail) six) (take_first _ text tail long)

-- An answer with a text is accepted: its text comes to the front of the buffer, and its length is
-- returned.
pub check_answer-answer :
    (b : ℕ) (head text raw : List ℕ)
    → length head ≡ 6
    → text ≢ []
    → check_answer (answer b head text) raw
      ≡ (bytes_read (length text), text ++ drop (length text) raw)
unfolding check_answer
check_answer-answer b head [] raw six nonempty = absurd (nonempty refl)
check_answer-answer b head (t ∷ text) raw six nonempty =
    let body = head ++ ((t ∷ text) ++ etx ∷ []) in
    let sum = epso_checksum (b ∷ body) in
    let long : ltb (length (answer b head (t ∷ text))) 3 ≡ false = ground (
      arith,
      length-append {0} body (sum ∷ []),
      length-append {0} head ((t ∷ text) ++ etx ∷ []),
      six,
    ) in
    let same : (sum == sum) ≡ true = (==_iff sum sum).1 refl in
    rw (split_last-append b body sum, payload_of-answer b sum head (t ∷ text) six)
      (rw (long, same) refl)
