-- ===== src/Crates/Models.antt =====
-- Concrete values of the interfaces, for running the development on inputs: an association list and
-- plain numbers. They show that the laws can be met.
use push_cache.Base.{
  ℕ, ◌+◌, ◌%◌, ◌^◌, ◌-◌, ◌≡◌, refl, Bool, Option, none, some, true, List, [], ◌∷◌, arith,
  if◌then◌else◌, is_some, ap, Text, text_eq, text_eq_iff, ◌==◌, ==_iff,
}
use push_cache.Base.Distinct.{IsEquality, member, distinct}
use push_cache.Crates.{DashMap, Metrics, entry}

module _ {K V : Type 0} (eq : K → K → Bool) where
  abbrev find : List (K × V) → K → Option V
  find [] k = none
  find ((j, v) ∷ m) k = if eq j k then some v else find m k

  abbrev without : K → List (K × V) → List (K × V)
  without k [] = []
  without k ((j, v) ∷ m) = let rest = without k m in if eq j k then rest else (j, v) ∷ rest

  -- A key that stands further down again is listed there.
  abbrev names : List (K × V) → List K
  names [] = []
  names ((k, v) ∷ m) = let rest = names m in if is_some (find m k) then rest else k ∷ rest

module _ {K V : Type 0} {eq : K → K → Bool} (e : IsEquality eq) where
  pub find-without :
      (m : List (K × V)) (k j : K)
      → find eq (without eq k m) j ≡ (if eq k j then none else find eq m j)
  find-without [] k j = ground arith
  find-without ((i, v) ∷ m) k j =
      ground (arith, find-without m k j, e.iff i k, e.iff i j, e.iff k j)

  pub find-insert :
      (m : List (K × V)) (k : K) (v : V) (j : K)
      → find eq ((k, v) ∷ without eq k m) j ≡ (if eq k j then some v else find eq m j)
  find-insert m k v j = ground (arith, find-without m k j)

  pub member-names : (m : List (K × V)) (k : K) → member eq k (names eq m) ≡ is_some (find eq m k)
  member-names [] k = refl
  member-names ((j, v) ∷ m) k =
      ground (arith, member-names m k, member-names m j, e.iff j k, e.iff k j, cong j k)
    where
      cong : (j k : K) → j ≡ k → find eq m j ≡ find eq m k
      cong j k p = ap (find eq m) p

  pub distinct-names : (m : List (K × V)) → distinct eq (names eq m) ≡ true
  distinct-names [] = refl
  distinct-names ((j, v) ∷ m) = ground (arith, distinct-names m, member-names m j)

  abbrev pub assoc_map : DashMap K V eq
  assoc_map = record {
    Map = List (K × V);
    new = [];
    get = find eq;
    insert = λ m k v. (find eq m k, (k, v) ∷ without eq k m);
    remove = λ m k. (entry k (find eq m k), without eq k m);
    keys = names eq;
    contains_key = λ m k. is_some (find eq m k);
    eq_lem = e;
    get-new = λ k. refl;
    insert_old = λ m k v. refl;
    get-insert = find-insert;
    remove_old = λ m k. refl;
    get-remove = find-without;
    contains_lem = λ m k. refl;
    member-keys = member-names;
    distinct-keys = distinct-names;
  }

-- Counters and gauges as numbers that wrap.
abbrev pub plain_metrics : Metrics
plain_metrics = record {
  Counter = ℕ;
  count = λ c. c;
  count_up = λ c. (c + 1) % 2 ^ 64;
  count-count_up = λ c. refl;
  Gauge = ℕ;
  gauge = λ g. g;
  inc = λ g. (g + 1) % 2 ^ 64;
  dec = λ g. (g + (2 ^ 64 - 1)) % 2 ^ 64;
  set = λ n g. n % 2 ^ 64;
  gauge-inc = λ g. refl;
  gauge-dec = λ g. refl;
  gauge-set = λ n g. refl;
}

pub text_keys : IsEquality text_eq
text_keys = record { iff = text_eq_iff }

pub number_keys : IsEquality ◌==◌
number_keys = record { iff = ==_iff }

-- A map with text keys, and one with numbers for keys.
abbrev pub text_map : (V : Type 0) → DashMap Text V text_eq
text_map V = assoc_map text_keys

abbrev pub number_map : (V : Type 0) → DashMap ℕ V ◌==◌
number_map V = assoc_map number_keys
