-- ===== src/State/Stores.antt =====
-- lib.rs, `MyState::stores`: the stores of a `MyState` taken together. `IsNamed` is a store that meets the
-- contract by itself and whose writes leave the views of the others alone; with `IsApart` so do its reads.
use push_cache.Base.{
  ◌≡◌, refl, ◌⊎◌, inl, inr, true, false, ◌&&◌, Option, none, some, List, [], ◌∷◌, Text, Bytes,
  text_eq, text_eq_iff, if◌then◌else◌, arith, Bool-cases,
}
use mathlib.Core.Path.{subst₂}
use mathlib.Core.Option.{some-injective}
use push_cache.Base.Distinct.{member}
use push_cache.Cache.{Cache}
use push_cache.Cache.Contract.{View, IsStore, Same, Written, Outcome-ok}
use push_cache.Error.{ok}
use push_cache.State.{lookup}

pub text_eq-sym : (s t : Text) → text_eq s t ≡ false → text_eq t s ≡ false
text_eq-sym s t h = ground (arith, text_eq_iff s t, text_eq_iff t s)

module _ {V : Type 0} (P : Text → V → Type 0) where
  -- `P` of every entry.
  abbrev pub All : List (Text × V) → Type 0
  All [] = Unit
  All ((name, v) ∷ rest) = P name v × All rest

  pub lookup-All :
      (name : Text) (m : List (Text × V)) {v : V} → All m → lookup name m ≡ some v → P name v
  unfolding lookup
  lookup-All name [] a h = cc
  lookup-All name ((n, u) ∷ rest) {v} a h = elim (Bool-cases (text_eq n name)) [
    | inl e ↦
        let same : u ≡ v = some-injective u v (rw e at h) in
        subst₂ P ((text_eq_iff n name).0 e) same a.0
    | inr e ↦ lookup-All name rest a.1 (rw e at h)
  ]

pub All-map :
    {V : Type 0} (P Q : Text → V → Type 0) (m : List (Text × V))
    → ((name : Text) (v : V) → P name v → Q name v)
    → All P m
    → All Q m
All-map P Q [] f a = tt
All-map P Q ((name, v) ∷ rest) f (a, others) = (f name v a, All-map P Q rest f others)

module _ {W : Type 0} (views : Text → View W) (Inv : W → Type 0) where
  pub record IsNamed (name : Text) (c : Cache W) : Type 0 where
    pub store : IsStore c (views name) Inv
    pub insert_frame :
        (k : Text) (v : Bytes) (w : W) (other : Text)
        → Inv w
        → text_eq name other ≡ false
        → Same (views other) w (c.insert k v w).1
    pub remove_frame :
        (k : Text) (w : W) (other : Text)
        → Inv w
        → text_eq name other ≡ false
        → Same (views other) w (c.remove k w).1

  module _ (name : Text) (c : Cache W) (n : IsNamed name c) (w : W) (i : Inv w) (k : Text) where
    -- A write that succeeded, as every store shows it.
    pub insert-views :
        (v : Bytes)
        → (c.insert k v w).0 ≡ ok tt
        → (other j : Text)
        → views other (c.insert k v w).1 j
          ≡ (if text_eq other name && text_eq k j then some v else views other w j)
    insert-views v h other j =
        let w' = (c.insert k v w).1 in
        let written : Written (views name) k (some v) w w' =
          Outcome-ok (λ _. Written (views name) k (some v) w w')
            (Same (views name) w w' ⊎ Written (views name) k (some v) w w') h
            (n.store.insert_lem k v w i) in
        elim (Bool-cases (text_eq other name)) [
          | inl e ↦ rw (e, (text_eq_iff other name).0 e) (written j)
          | inr e ↦ rw e (n.insert_frame k v w other i (text_eq-sym other name e) j)
        ]

    pub remove-views :
        {o : Option Bytes}
        → (c.remove k w).0 ≡ ok o
        → (other j : Text)
        → views other (c.remove k w).1 j
          ≡ (if text_eq other name && text_eq k j then none else views other w j)
    remove-views h other j =
        let w' = (c.remove k w).1 in
        let law =
          Outcome-ok (λ o. (o ≡ views name w k) × Written (views name) k none w w')
            (Same (views name) w w' ⊎ Written (views name) k none w w') h
            (n.store.remove_lem k w i) in
        elim (Bool-cases (text_eq other name)) [
          | inl e ↦ rw (e, (text_eq_iff other name).0 e) (law.1 j)
          | inr e ↦ rw e (n.remove_frame k w other i (text_eq-sym other name e) j)
        ]

  abbrev pub AllNamed : List (Text × Cache W) → Type 0
  AllNamed stores = All IsNamed stores

module _ {W : Type 0} (views : Text → View W) (Inv : W → Type 0) where
  -- A store that meets the contract, and whose calls leave the views of the other stores alone.
  pub record IsApart (name : Text) (c : Cache W) : Type 0 where
    pub named : IsNamed views Inv name c
    pub get_frame :
        (k : Text) (w : W) (other : Text)
        → Inv w
        → text_eq name other ≡ false
        → Same (views other) w (c.get k w).1
    pub keys_frame :
        (w : W) (other : Text)
        → Inv w
        → text_eq name other ≡ false
        → Same (views other) w (c.keys w).1

  abbrev pub AllApart : List (Text × Cache W) → Type 0
  AllApart stores = All IsApart stores

  pub AllApart-AllNamed :
      (stores : List (Text × Cache W)) → AllApart stores → AllNamed views Inv stores
  AllApart-AllNamed [] a = tt
  AllApart-AllNamed ((name, c) ∷ rest) (a, others) = (a.named, AllApart-AllNamed rest others)

abbrev pub names {ℓ} : {V : Type ℓ} → List (Text × V) → List Text
names [] = []
names ((n, v) ∷ rest) = n ∷ names rest

pub member-names {ℓ} :
    {V : Type ℓ} (name : Text) (m : List (Text × V)) {v : V}
    → lookup name m ≡ some v
    → member text_eq name (names m) ≡ true
unfolding lookup
member-names name [] h = cc
member-names name ((n, w) ∷ rest) {v} h =
    ground (arith, member-names name rest {v = v}, text_eq_iff n name, text_eq_iff name n)

pub member-names-none {ℓ} :
    {V : Type ℓ} (name : Text) (m : List (Text × V))
    → lookup name m ≡ none
    → member text_eq name (names m) ≡ false
unfolding lookup
member-names-none name [] h = refl
member-names-none name ((n, w) ∷ rest) h =
    ground (arith, member-names-none name rest, text_eq_iff n name, text_eq_iff name n)
