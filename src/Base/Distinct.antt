-- ===== src/Base/Distinct.antt =====
-- Lists of keys without repetition: membership by test, and how membership fixes the length.
use mathlib.Core.Bool.{not}
use push_cache.Base.{
  suc, ◌≤◌, ◌≡◌, sym, ◌∙◌, ◌↔◌, Bool, true, false, ◌&&◌, ◌||◌, List, [], ◌∷◌, arith, length,
  if◌then◌else◌,
}

-- A Boolean test that decides equality.
pub record IsEquality {ℓ} {K : Type ℓ} (eq : K → K → Bool) : Type ℓ where
  pub iff : (a b : K) → (eq a b ≡ true) ↔ (a ≡ b)

module _ {ℓ} {K : Type ℓ} (eq : K → K → Bool) where
  abbrev pub member : K → List K → Bool
  member k [] = false
  member k (x ∷ xs) = eq k x || member k xs

  abbrev pub distinct : List K → Bool
  distinct [] = true
  distinct (x ∷ xs) = not (member x xs) && distinct xs

  -- The list without the first occurrence of `k`.
  erase : K → List K → List K
  erase k [] = []
  erase k (x ∷ xs) = let rest = erase k xs in if eq k x then xs else x ∷ rest

module _ {ℓ} {K : Type ℓ} {eq : K → K → Bool} (e : IsEquality eq) where
  length-erase :
      (k : K) (xs : List K) → member eq k xs ≡ true → suc (length (erase eq k xs)) ≡ length xs
  unfolding erase
  length-erase k [] h = ground arith
  length-erase k (x ∷ xs) h = ground (arith, length-erase k xs)

  member-erase :
      (k j : K) (xs : List K)
      → eq k j ≡ false
      → member eq j xs ≡ true
      → member eq j (erase eq k xs) ≡ true
  unfolding erase
  member-erase k j [] n h = ground arith
  member-erase k j (x ∷ xs) n h =
      ground (arith, member-erase k j xs, e.iff k j, e.iff k x, e.iff j x)

  -- Distinct keys that all occur in another list are no more than its length.
  pub length_le_of_subset :
      (xs ys : List K)
      → distinct eq xs ≡ true
      → ((j : K) → member eq j xs ≡ true → member eq j ys ≡ true)
      → length xs ≤ length ys
  length_le_of_subset [] ys d s = omega arith
  length_le_of_subset (x ∷ xs) ys d s =
      let here : member eq x ys ≡ true = s x (ground (arith, e.iff x x)) in
      let apart : (j : K) → member eq j xs ≡ true → eq x j ≡ false =
        λ j m. ground (arith, e.iff x j) in
      let smaller : length xs ≤ length (erase eq x ys) =
        length_le_of_subset xs (erase eq x ys) (ground arith)
          λ j m. member-erase x j ys (apart j m) (s j (ground (arith, m))) in
      omega (arith, length-erase x ys here)

  -- Lists of distinct keys with the same members have the same length.
  pub length_of_same_members :
      (xs ys : List K)
      → distinct eq xs ≡ true
      → distinct eq ys ≡ true
      → ((j : K) → member eq j xs ≡ member eq j ys)
      → length xs ≡ length ys
  length_of_same_members xs ys dx dy s = omega (
    arith,
    length_le_of_subset xs ys dx (λ j m. sym (s j) ∙ m),
    length_le_of_subset ys xs dy (λ j m. s j ∙ m),
  )
