-- ===== src/Base/Order.antt =====
-- `Vec::sort` on texts: byte by byte, as Rust orders `str`.
use mathlib.Core.Path.{◌≡◌, refl}
use mathlib.Core.Bool.{Bool, true, false, ◌&&◌, ◌||◌}
use mathlib.Core.Logic.{inl, inr}
use mathlib.Core.List.{List, [], ◌∷◌}
use native.Mathlib.Omega.{arith}
use push_cache.Base.Tests.{ltb, ◌==◌, if◌then◌else◌, Bool-cases}
use push_cache.Base.Utf8.{Text}

unfoldable pub text_le : Text → Text → Bool
text_le [] t = true
text_le (a ∷ s) [] = false
text_le (a ∷ s) (b ∷ t) = ltb a b || (a == b && text_le s t)

unfoldable pub insert_sorted : Text → List Text → List Text
insert_sorted k [] = k ∷ []
insert_sorted k (x ∷ xs) =
    let rest = insert_sorted k xs in if text_le k x then k ∷ x ∷ xs else x ∷ rest

unfoldable pub sort : List Text → List Text
unfolding insert_sorted
sort [] = []
sort (x ∷ xs) = insert_sorted x (sort xs)

pub text_le-total : (s t : Text) → text_le s t ≡ false → text_le t s ≡ true
unfolding text_le
text_le-total [] t h = cc
text_le-total (a ∷ s) [] h = refl
text_le-total (a ∷ s) (b ∷ t) h = ground (arith, text_le-total s t)

pub text_le_trans : (s t u : Text) → text_le s t ≡ true → text_le t u ≡ true → text_le s u ≡ true
unfolding text_le
text_le_trans [] t u h k = refl
text_le_trans (a ∷ s) [] u h k = cc
text_le_trans (a ∷ s) (b ∷ t) [] h k = cc
text_le_trans (a ∷ s) (b ∷ t) (c ∷ u) h k = ground (arith, text_le_trans s t u)

-- No text of the list is smaller than `k`.
abbrev pub IsBelow : Text → List Text → Type 0
IsBelow k [] = Unit
IsBelow k (x ∷ xs) = (text_le k x ≡ true) × IsBelow k xs

abbrev pub IsSorted : List Text → Type 0
IsSorted [] = Unit
IsSorted (x ∷ xs) = IsBelow x xs × IsSorted xs

IsBelow-le : (k x : Text) (xs : List Text) → text_le k x ≡ true → IsBelow x xs → IsBelow k xs
IsBelow-le k x [] h b = tt
IsBelow-le k x (y ∷ ys) h b = (text_le_trans k x y h b.0, IsBelow-le k x ys h b.1)

IsBelow-insert_sorted :
    (j k : Text) (xs : List Text)
    → text_le j k ≡ true
    → IsBelow j xs
    → IsBelow j (insert_sorted k xs)
unfolding insert_sorted
IsBelow-insert_sorted j k [] h b = (h, tt)
IsBelow-insert_sorted j k (x ∷ xs) h b = elim (Bool-cases (text_le k x)) [
  | inl le ↦ rw le (h, (b.0, b.1))
  | inr gt ↦ rw gt (b.0, IsBelow-insert_sorted j k xs h b.1)
]

insert_sorted-IsSorted : (k : Text) (xs : List Text) → IsSorted xs → IsSorted (insert_sorted k xs)
unfolding insert_sorted
insert_sorted-IsSorted k [] s = (tt, tt)
insert_sorted-IsSorted k (x ∷ xs) s = elim (Bool-cases (text_le k x)) [
  | inl le ↦ rw le ((le, IsBelow-le k x xs le s.0), (s.0, s.1))
  | inr gt ↦
      rw gt
        (IsBelow-insert_sorted x k xs (text_le-total k x gt) s.0, insert_sorted-IsSorted k xs s.1)
]

pub sort-IsSorted : (xs : List Text) → IsSorted (sort xs)
unfolding sort
sort-IsSorted [] = tt
sort-IsSorted (x ∷ xs) = insert_sorted-IsSorted x (sort xs) (sort-IsSorted xs)
