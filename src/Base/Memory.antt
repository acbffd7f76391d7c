-- ===== src/Base/Memory.antt =====
-- Reads, writes and copies of C arrays. `none` is an access past the end, which C leaves undefined.
use Prim.Native.Nat.{ℕ, ◌+◌}
use mathlib.Core.Path.{◌≡◌, refl, ap}
use mathlib.Core.List.{List, [], ◌∷◌, ◌++◌}
use mathlib.Core.Option.{Option, none, some}
use native.Mathlib.Omega.{arith}
use osdp_roger_acs.Base.Tests.{ltb, leb, if◌then◌else◌}
use osdp_roger_acs.Base.Lists.{length, get_elem?, set, take, drop, length-append, take-append}

infixl 5 ◌>>=◌
abbrev pub ◌>>=◌ {ℓ κ} : {A : Type ℓ} {B : Type κ} → Option A → (A → Option B) → Option B
none >>= f = none
some a >>= f = f a

infixl 5 ◌>>◌
abbrev pub ◌>>◌ {ℓ} : {B : Type ℓ} → Option (Unit {0}) → Option B → Option B
m >> k = m >>= λ _. k

module _ {ℓ} {A : Type ℓ} where
  -- `dst[i] = v`.
  abbrev pub store : List A → ℕ → A → Option (List A)
  store dst i v = if ltb i (length dst) then some (set dst i v) else none

  -- The first `n` entries of an array.
  abbrev pub first : List A → ℕ → Option (List A)
  first src n = if leb n (length src) then some (take n src) else none

  -- `memcpy(dst + off, src, n)`.
  abbrev pub copy_at : List A → ℕ → List A → ℕ → Option (List A)
  copy_at dst off src n =
      if leb n (length src)
      then (if leb (off + n) (length dst)
          then some (take off dst ++ (take n src ++ drop (off + n) dst))
          else none)
      else none

  pub set-append : (xs ys : List A) (y v : A) → set (xs ++ y ∷ ys) (length xs) v ≡ xs ++ v ∷ ys
  set-append [] ys y v = refl
  set-append (x ∷ xs) ys y v = ap (◌∷◌ x) (set-append xs ys y v)

  pub get_elem?-append : (xs ys : List A) (y : A) → get_elem? (xs ++ y ∷ ys) (length xs) ≡ some y
  get_elem?-append [] ys y = refl
  get_elem?-append (x ∷ xs) ys y = get_elem?-append xs ys y

  pub first-append : (xs ys : List A) → first (xs ++ ys) (length xs) ≡ some xs
  first-append xs ys = ground (arith, length-append xs ys, take-append xs ys)

  pub store-append :
      (xs ys : List A) (y v : A) → store (xs ++ y ∷ ys) (length xs) v ≡ some (xs ++ v ∷ ys)
  store-append xs ys y v = ground (arith, length-append xs (y ∷ ys), set-append xs ys y v)

-- A chain that ends in a value went through one at each step.
pub on_some {ℓ κ μ} :
    {A : Type ℓ} {B : Type κ} {C : Type μ} (m : Option A) {f : A → Option B} {b : B}
    → m >>= f ≡ some b
    → ((a : A) → m ≡ some a → f a ≡ some b → C)
    → C
on_some none h k = absurd (ground arith)
on_some (some a) h k = k a refl h
