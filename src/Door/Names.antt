-- ===== src/Door/Names.antt =====
-- `getDoorByName` of door_controller/door_controller.c: the doors by their names.
use osdp_roger_acs.Base.{ℕ, zero, suc, ◌≡◌, refl, inl, inr, some, arith}
use osdp_roger_acs.Base.{Bool-cases, true, [], ◌∷◌, ==_iff}
use osdp_roger_acs.Door.{Text, text_eq, Door, World, find_door, get_door_by_name}

pub text_eq-eq : (s t : Text) → text_eq s t ≡ true → s ≡ t
text_eq-eq [] [] h = refl
text_eq-eq [] (b ∷ t) h = absurd (ground arith)
text_eq-eq (a ∷ s) [] h = absurd (ground arith)
text_eq-eq (a ∷ s) (b ∷ t) h = ground (arith, text_eq-eq s t, ==_iff a b)

pub text_eq_refl : (s : Text) → text_eq s s ≡ true
text_eq_refl [] = refl
text_eq_refl (a ∷ s) = ground (arith, text_eq_refl s, ==_iff a a)

find_door-name :
    (doors : ℕ → Door) (n k i : ℕ) (name : Text)
    → find_door doors n k name ≡ some i
    → (doors i).door_name ≡ name
unfolding find_door
find_door-name doors zero k i name h = absurd (ground arith)
find_door-name doors (suc n) k i name h = elim (Bool-cases (text_eq (doors k).door_name name)) [
  | inl e ↦ ground (arith, text_eq-eq (doors k).door_name name e)
  | inr e ↦ find_door-name doors n (suc k) i name (rw e at h)
]

pub get_door_by_name-name :
    (w : World) (i : ℕ) (name : Text)
    → get_door_by_name w name ≡ some i
    → (w.doors i).door_name ≡ name
unfolding get_door_by_name
get_door_by_name-name w i name h = find_door-name w.doors w.doors_count 0 i name h

find_door-same :
    (ds es : ℕ → Door) (n k : ℕ) (name : Text)
    → ((j : ℕ) → (es j).door_name ≡ (ds j).door_name)
    → find_door es n k name ≡ find_door ds n k name
unfolding find_door
find_door-same ds es zero k name h = refl
find_door-same ds es (suc n) k name h = rw (h k, find_door-same ds es n (suc k) name h)

-- The doors are found by their names alone.
pub get_door_by_name-same :
    (w w' : World) (name : Text)
    → w'.doors_count ≡ w.doors_count
    → ((j : ℕ) → (w'.doors j).door_name ≡ (w.doors j).door_name)
    → get_door_by_name w' name ≡ get_door_by_name w name
unfolding get_door_by_name
get_door_by_name-same w w' name e h = rw e (find_door-same w.doors w'.doors w.doors_count 0 name h)
