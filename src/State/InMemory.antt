-- ===== src/State/InMemory.antt =====
-- lib.rs, `MyState::new`: the stores of a configuration whose stores are all in memory.
use push_cache.Base.{
  ℕ, suc, ◌+◌, ◌≤◌, ◌<◌, ◌≡◌, refl, false, ◌||◌, some, List, [], ◌∷◌, Text, text_eq, text_eq_iff,
  arith, length,
}
use mathlib.Core.Path.{subst}
use push_cache.Base.Distinct.{member}
use push_cache.State.{lookup}
use push_cache.State.Build.{StoreDefinition, in_memory, insert}
use push_cache.State.Routed.{lookup-insert}
use push_cache.State.Stores.{All, All-map, names, member-names}

abbrev pub AllInMemory : List StoreDefinition → Type 0
AllInMemory [] = Unit
AllInMemory (d ∷ ds) = (d.store_type ≡ in_memory) × AllInMemory ds

-- The numbers of the stores, by name, from the number that is free.
abbrev pub numbered : List StoreDefinition → ℕ → List (Text × ℕ) → List (Text × ℕ)
numbered [] next m = m
numbered (d ∷ ds) next m = numbered ds (suc next) (insert d.name next m)

-- Each name is there once.
abbrev pub Unique : List (Text × ℕ) → Type 0
Unique [] = Unit
Unique ((name, i) ∷ m) = (member text_eq name (names m) ≡ false) × Unique m

member-insert :
    (k : Text) (i : ℕ) (m : List (Text × ℕ)) (name : Text)
    → member text_eq name (names (insert k i m)) ≡ (text_eq name k || member text_eq name (names m))
unfolding insert
member-insert k i [] name = refl
member-insert k i ((n, j) ∷ m) name =
    ground
      (arith, member-insert k i m name, text_eq_iff n k, text_eq_iff name k, text_eq_iff name n)

insert-Unique : (k : Text) (i : ℕ) (m : List (Text × ℕ)) → Unique m → Unique (insert k i m)
unfolding insert
insert-Unique k i [] u = (refl, tt)
insert-Unique k i ((n, j) ∷ m) u =
    ground (arith, insert-Unique k i m u.1, member-insert k i m n, text_eq_iff n k)

-- An entry is what is found under its name.
pub Unique-lookup : (m : List (Text × ℕ)) → Unique m → All (λ name i. lookup name m ≡ some i) m
unfolding lookup
Unique-lookup [] u = tt
Unique-lookup ((n, j) ∷ m) u = (
  ground (arith, text_eq_iff n n),
  All-map (λ name i. lookup name m ≡ some i) _ m
      (λ name i e. ground (arith, e, u.0, member-names name m {v = i}, text_eq_iff n name))
      (Unique-lookup m u.1),
)

-- Numbers below the free one, different ones for different names.
pub record Distinct (m : List (Text × ℕ)) (low next : ℕ) : Type 0 where
  pub unique : Unique m
  pub low_le : (name : Text) (i : ℕ) → lookup name m ≡ some i → low ≤ i
  pub below : (name : Text) (i : ℕ) → lookup name m ≡ some i → i < next
  pub same : (a b : Text) (i : ℕ) → lookup a m ≡ some i → lookup b m ≡ some i → a ≡ b

insert-Distinct :
    (m : List (Text × ℕ)) (low next : ℕ) (k : Text)
    → low ≤ next
    → Distinct m low next
    → Distinct (insert k next m) low (suc next)
insert-Distinct m low next k h d = record {
  unique = insert-Unique k next m d.unique;
  low_le = λ name i e. ground (arith, lookup-insert k next m name, d.low_le name i, e);
  below = λ name i e. ground (arith, lookup-insert k next m name, d.below name i, e);
  same = λ a b i p q. ground (
    arith,
    lookup-insert k next m a,
    lookup-insert k next m b,
    d.same a b i,
    d.below a i,
    d.below b i,
    text_eq_iff k a,
    text_eq_iff k b,
    p,
    q,
  );
}

pub numbered-Distinct :
    (ds : List StoreDefinition) (m : List (Text × ℕ)) (low next : ℕ)
    → low ≤ next
    → Distinct m low next
    → Distinct (numbered ds next m) low (next + length ds)
numbered-Distinct [] m low next h d = subst (Distinct m low) (omega arith) d
numbered-Distinct (x ∷ ds) m low next h d =
    subst (Distinct (numbered ds (suc next) (insert x.name next m)) low) (omega arith) (
      numbered-Distinct ds (insert x.name next m) low (suc next) (omega arith)
        (insert-Distinct m low next x.name h d))
