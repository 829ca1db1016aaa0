-- ===== src/Cache/Selected.antt =====
-- cache.rs, `PostgresCache` and `MongoCache`: the rows or documents that a request to a server selects.
use push_cache.Base.{
  ◌≡◌, refl, sym, ap, ◌∙◌, inl, inr, true, Bool, Option, none, some, List, [], ◌∷◌, Text, Bytes,
  text_eq, text_eq_iff, is_some, arith, Bool-cases, Option-cases,
}
use push_cache.Base.Distinct.{member}

-- The rows of a table, or the documents of a collection, that a request is about.
pub data Condition : Type 0 where
  every_row : Condition
  key_is : Text → Condition

abbrev pub holds : Condition → Text → Bool
holds every_row j = true
holds (key_is k) j = text_eq k j

-- The value in the row of a key, if there is one.
abbrev pub Rows : Type 0
Rows = Text → Option Bytes

-- These rows are in the table and meet the condition.
abbrev pub AreIn : Condition → Rows → List (Text × Bytes) → Type 0
AreIn condition rows [] = Unit
AreIn condition rows ((k, v) ∷ rest) =
    (rows k ≡ some v) × (holds condition k ≡ true) × AreIn condition rows rest

abbrev pub keys_of : List (Text × Bytes) → List Text
keys_of [] = []
keys_of ((k, v) ∷ rest) = k ∷ keys_of rest

-- These are all the rows that meet the condition, in some order.
abbrev pub IsSelected : Condition → Rows → List (Text × Bytes) → Type 0
IsSelected condition rows selected =
    AreIn condition rows selected
    × ((k : Text) (v : Bytes)
        → rows k ≡ some v
        → holds condition k ≡ true
        → member text_eq k (keys_of selected) ≡ true)

module _ (rows : Rows) where
  -- With no row selected, the key has none.
  pub nothing-selected :
      (k : Text)
      → ((j : Text) (v : Bytes)
          → rows j ≡ some v
          → holds (key_is k) j ≡ true
          → member text_eq j [] ≡ true)
      → rows k ≡ none
  nothing-selected k all = elim (Option-cases (rows k)) [
    | inl e ↦ e
    | inr (v, e) ↦ absurd (ground (arith, all k v e, text_eq_iff k k))
  ]

  -- The selected row of a key is the one of the table.
  pub first-selected :
      (k j : Text) (v : Bytes) → rows j ≡ some v → text_eq k j ≡ true → rows k ≡ some v
  first-selected k j v e same = ap rows ((text_eq_iff k j).0 same) ∙ e

  member-AreIn :
      (k : Text) (selected : List (Text × Bytes))
      → AreIn every_row rows selected
      → member text_eq k (keys_of selected) ≡ true
      → is_some (rows k) ≡ true
  member-AreIn k [] a m = cc
  member-AreIn k ((j, v) ∷ rest) (e, t, a) m = elim (Bool-cases (text_eq k j)) [
    | inl same ↦ ap is_some (first-selected k j v e same)
    | inr other ↦ member-AreIn k rest a (ground arith)
  ]

  pub member-selected :
      (k : Text) (selected : List (Text × Bytes))
      → IsSelected every_row rows selected
      → member text_eq k (keys_of selected) ≡ is_some (rows k)
  member-selected k selected (sound, complete) = elim (Option-cases (rows k)) [
    | inr (v, e) ↦ complete k v e refl ∙ sym (ap is_some e)
    | inl e ↦ elim (Bool-cases (member text_eq k (keys_of selected))) [
      | inr out ↦ out ∙ sym (ap is_some e)
      | inl there ↦ there ∙ sym (member-AreIn k selected sound there)
    ]
  ]
