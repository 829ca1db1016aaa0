-- ===== src/State/Apart.antt =====
-- lib.rs, `MyState::new`: stores in memory leave each other alone, and begin empty.
use push_cache.Base.{
  ℕ, ◌+◌, ◌≤◌, ◌<◌, ◌≡◌, refl, sym, ◌≢◌, false, Option, none, some, List, [], ◌∷◌, Text, Bytes,
  text_eq, text_eq_iff, arith, length,
}
use mathlib.Core.Path.{subst}
use push_cache.Error.{ok}
use push_cache.Crates.{DashMap, Metrics}
use push_cache.Cache.{Cache}
use push_cache.Cache.Contract.{View, IsStore}
use push_cache.Cache.Memory.{get, keys}
use push_cache.Cache.Memory.Laws.{other_stores}
use push_cache.Cache.Memory.Process.{Process, in_process, new_in_memory, shows, in_process-IsStore}
use push_cache.Cache.Redis.{Redis}
use push_cache.Cache.Mongo.{Mongo}
use push_cache.Cache.Oracle.{Oracle}
use push_cache.Cache.Postgres.{Sqlx}
use push_cache.State.{lookup}
use push_cache.State.Build.{StoreDefinition, insert, create_store, store_loop}
use push_cache.State.InMemory.{AllInMemory, numbered, Distinct, Unique-lookup}
use push_cache.State.Stores.{All, All-map, IsApart, AllApart}

module _ (dash : DashMap Text Bytes text_eq) (metrics : Metrics) where
  abbrev pub stores_of : List (Text × ℕ) → List (Text × Cache (Process dash metrics))
  stores_of [] = []
  stores_of ((name, i) ∷ m) = (name, in_process dash metrics i) ∷ stores_of m

  -- What each store shows, by its name.
  abbrev pub view_of : Option ℕ → View (Process dash metrics)
  view_of none w k = none
  view_of (some i) w k = shows dash metrics i w k

  abbrev pub views_of : List (Text × ℕ) → Text → View (Process dash metrics)
  views_of m name w k = view_of (lookup name m) w k

  insert-stores_of :
      (k : Text) (i : ℕ) (m : List (Text × ℕ))
      → insert k (in_process dash metrics i) (stores_of m) ≡ stores_of (insert k i m)
  unfolding insert
  insert-stores_of k i [] = refl
  insert-stores_of k i ((n, j) ∷ m) = ground (arith, insert-stores_of k i m)

  All-stores_of :
      (P : Text → Cache (Process dash metrics) → Type 0) (m : List (Text × ℕ))
      → All (λ name i. P name (in_process dash metrics i)) m
      → All P (stores_of m)
  All-stores_of P [] a = tt
  All-stores_of P ((n, j) ∷ m) (a, others) = (a, All-stores_of P m others)

  -- The view of another name is of another store, or of none.
  view_of_other :
      (i : ℕ) (o : Option ℕ) (w w' : Process dash metrics) (j : Text)
      → ((n : ℕ) → o ≡ some n → shows dash metrics n w' j ≡ shows dash metrics n w j)
      → view_of o w' j ≡ view_of o w j
  view_of_other i none w w' j h = refl
  view_of_other i (some n) w w' j h = h n refl

  module _ (m : List (Text × ℕ)) {low next : ℕ} (d : Distinct m low next) where
    other_number :
        (name other : Text) (i n : ℕ)
        → lookup name m ≡ some i
        → text_eq name other ≡ false
        → lookup other m ≡ some n
        → i ≢ n
    other_number name other i n found differ there = λ same.
        ground
          (arith, d.same name other i found, found, there, same, differ, text_eq_iff name other)

    in_process-IsApart :
        (name : Text) (i : ℕ)
        → lookup name m ≡ some i
        → IsApart (views_of m) (λ w. Unit) name (in_process dash metrics i)
    unfolding get keys
    in_process-IsApart name i found = record {
      named = record {
        store =
            subst (λ o. IsStore (in_process dash metrics i) (view_of o) (λ w. Unit {0})) (sym found)
              (in_process-IsStore dash metrics i);
        insert_frame = λ k v w other h differ j. view_of_other i (lookup other m) w _ j λ n there.
            (other_stores dash metrics i w.memory k v n j
              (other_number name other i n found differ there)).0;
        remove_frame = λ k w other h differ j. view_of_other i (lookup other m) w _ j λ n there.
            (other_stores dash metrics i w.memory k [] n j
              (other_number name other i n found differ there)).1;
      };
      get_frame = λ k w other h differ j. refl;
      keys_frame = λ w other h differ j. refl;
    }

    pub stores_of-AllApart : AllApart (views_of m) (λ w. Unit) (stores_of m)
    stores_of-AllApart = All-stores_of _ m (
        All-map (λ name i. lookup name m ≡ some i) _ m (λ name i e. in_process-IsApart name i e)
          (Unique-lookup m d.unique))

  new-empty :
      (low : ℕ) (w : Process dash metrics)
      → ((i : ℕ) (k : Text) → low ≤ i → i < w.next → shows dash metrics i w k ≡ none)
      → (i : ℕ) (k : Text) → low ≤ i
      → i < (new_in_memory dash metrics w).1.next
      → shows dash metrics i (new_in_memory dash metrics w).1 k ≡ none
  unfolding new_in_memory
  new-empty low w empty i k h l = ground (arith, empty i k, dash.get-new k)

  module _ (redis : Redis (Process dash metrics)) (mongo : Mongo (Process dash metrics))
      (oracle : Oracle (Process dash metrics)) (sqlx : Sqlx (Process dash metrics)) where
    -- What the loop over the definitions has made: the stores by their numbers, the stores from
    -- `low` on still empty.
    pub store_loop-stores_of :
        (ds : List StoreDefinition) (m : List (Text × ℕ)) (low : ℕ) (w : Process dash metrics)
        → AllInMemory ds
        → low ≤ w.next
        → ((i : ℕ) (k : Text) → low ≤ i → i < w.next → shows dash metrics i w k ≡ none)
        → let (r, w') =
            store_loop redis mongo oracle sqlx (new_in_memory dash metrics) ds (stores_of m) w in
          (r ≡ ok (stores_of (numbered ds w.next m)))
          × (w'.next ≡ w.next + length ds)
          × ((i : ℕ) (k : Text) → low ≤ i → i < w'.next → shows dash metrics i w' k ≡ none)
    unfolding store_loop create_store new_in_memory
    store_loop-stores_of [] m low w a h empty = (refl, omega arith, empty)
    store_loop-stores_of (x ∷ ds) m low w (a, others) h empty =
        let w1 = (new_in_memory dash metrics w).1 in
        let (made, next, rest) =
          store_loop-stores_of ds (insert x.name w.next m) low w1 others (omega arith)
            (new-empty low w empty) in
        rw (a, create_store, insert-stores_of x.name w.next m) (made, omega (arith, next), rest)
