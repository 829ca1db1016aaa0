-- ===== src/Consumer/Fresh.antt =====
-- lib.rs, `MyState::new`, and consumer.rs, `start_consumer`, together, with stores in memory.
use push_cache.Base.{
  ℕ, ◌+◌, ◌≤◌, ◌<◌, ◌≡◌, refl, sym, ap, ◌∙◌, inl, inr, none, some, List, [], ◌∷◌, Text, Bytes,
  text_eq, arith, length, Option-cases, Bool-cases,
}
use mathlib.Core.Path.{subst}
use mathlib.Core.Option.{some-injective}
use push_cache.Error.{MyError, Result, ok}
use push_cache.Crates.{DashMap, Metrics}
use push_cache.Crates.Wire.{Env}
use push_cache.Cache.{Cache}
use push_cache.Cache.Memory.{get}
use push_cache.Cache.Memory.Laws.{insert-ok, remove-ok}
use push_cache.Cache.Memory.Process.{Process, in_process, new_in_memory, shows}
use push_cache.Cache.Redis.{Redis}
use push_cache.Cache.Mongo.{Mongo}
use push_cache.Cache.Oracle.{Oracle}
use push_cache.Cache.Postgres.{Sqlx}
use push_cache.State.{MyState, Shared, lookup}
use push_cache.State.Build.{StoreDefinition, store_loop}
use push_cache.State.InMemory.{AllInMemory, numbered, Distinct, numbered-Distinct}
use push_cache.State.Apart.{stores_of, views_of, view_of, stores_of-AllApart, store_loop-stores_of}
use push_cache.State.Stores.{AllApart, AllApart-AllNamed, member-names}
use push_cache.Consumer.{Message, consume}
use push_cache.Consumer.Faults.{AllReliable, messages, consume-ok}
use push_cache.Consumer.Replay.{replayed, AllCached, replayed-Agree, consume-replayed}

no_numbers : {n : ℕ} → Distinct [] n n
unfolding lookup
no_numbers = record {
  unique = tt;
  low_le = λ name i e. cc;
  below = λ name i e. cc;
  same = λ a b i p q. cc;
}

module _ (dash : DashMap Text Bytes text_eq) (metrics : Metrics) where
  abbrev World : Type 0
  World = Process dash metrics

  -- The contract's invariant: there is none.
  abbrev Nothing : World → Type 0
  Nothing w = Unit {0}

  ok_injective :
      {x y : List (Text × Cache World)}
      → Path (Result MyError (List (Text × Cache World))) (ok x) (ok y)
      → x ≡ y
  ok_injective h = cc

  stores_of-AllReliable : (m : List (Text × ℕ)) → AllReliable (stores_of dash metrics m)
  stores_of-AllReliable [] = tt
  stores_of-AllReliable ((name, i) ∷ m) = (
    record {
      insert_ok = λ k v w. insert-ok dash metrics i w.memory k v;
      remove_ok = λ k w. (_, remove-ok dash metrics i w.memory k);
    },
    stores_of-AllReliable m,
  )

  -- A store that is found has a number.
  found-number :
      (m : List (Text × ℕ)) (name : Text) {store : Cache World}
      → lookup name (stores_of dash metrics m) ≡ some store
      → (i : ℕ) × (lookup name m ≡ some i) × (in_process dash metrics i ≡ store)
  unfolding lookup
  found-number [] name h = cc
  found-number ((n, i) ∷ m) name {store} h = elim (Bool-cases (text_eq n name)) [
    | inl e ↦ (i, rw e refl, some-injective (in_process dash metrics i) store (rw e at h))
    | inr e ↦ let (j, there, same) = found-number m name (rw e at h) in (j, rw e there, same)
  ]

  -- What a store answers is what is shown under its name.
  get-shows :
      (m : List (Text × ℕ)) (name k : Text) (w : World) {store : Cache World}
      → lookup name (stores_of dash metrics m) ≡ some store
      → (store.get k w).0 ≡ ok (views_of dash metrics m name w k)
  unfolding get
  get-shows m name k w {store} h =
      let (i, there, same) = found-number m name h in
      subst (λ c. (c.get k w).0 ≡ ok (views_of dash metrics m name w k)) same
        (ap (λ o. ok (view_of dash metrics o w k)) (sym there))

  -- At first nothing is shown under any name.
  views_of-empty :
      (m : List (Text × ℕ)) (low next : ℕ) (w : World) (name k : Text)
      → Distinct m low next
      → ((i : ℕ) (k : Text) → low ≤ i → i < next → shows dash metrics i w k ≡ none)
      → views_of dash metrics m name w k ≡ none
  views_of-empty m low next w name k d empty = elim (Option-cases (lookup name m)) [
    | inl e ↦ rw e refl
    | inr (i, e) ↦ rw e (empty i k (d.low_le name i e) (d.below name i e))
  ]

  module _ (redis : Redis World) (mongo : Mongo World) (oracle : Oracle World) (sqlx : Sqlx World)
      (env : Env World) (state : MyState World) where
    -- If the stores of the state are what the loop over definitions that are all in memory has
    -- made, the world is the one that the loop has left, and the schemas that the messages name are
    -- in the schema cache, then the consumer takes a stream of these messages to its end without an
    -- error, and each store, looked up by its name, answers a read of a key with what the effects
    -- of the messages, applied one after another to empty stores, leave there.
    pub consume-fresh :
        (ds : List StoreDefinition) (ms : List Message) (s : Shared env) (w : World) (name k : Text)
        (store : Cache World)
        → AllInMemory ds
        → store_loop redis mongo oracle sqlx (new_in_memory dash metrics) ds [] w
          ≡ (ok state.stores, s.world)
        → AllCached env state s.schema_cache (messages ms)
        → lookup name state.stores ≡ some store
        → let (r, t) = consume env state (messages ms) s in
          (r ≡ ok tt)
          × ((store.get k t.world).0
              ≡ ok (replayed env state s.schema_cache (messages ms) (λ n j. none) name k))
    consume-fresh ds ms s w name k store a made cached found =
        let m = numbered ds w.next [] in
        let (stores, next, empty) =
          store_loop-stores_of dash metrics redis mongo oracle sqlx ds [] w.next w a (omega arith)
            (λ i k l h. absurd (omega arith)) in
        let distinct : Distinct m w.next (w.next + length ds) =
          numbered-Distinct ds [] w.next w.next (omega arith) no_numbers in
        let same : stores_of dash metrics m ≡ state.stores =
          ok_injective (sym stores ∙ ap (λ r. r.0) made) in
        let views = views_of dash metrics m in
        let reliable = subst AllReliable same (stores_of-AllReliable m) in
        let apart =
          subst (AllApart views Nothing) same (stores_of-AllApart dash metrics m distinct) in
        let passed = consume-ok env state ms s reliable in
        let replay =
          consume-replayed env state views Nothing (messages ms) s
            (AllApart-AllNamed views Nothing state.stores apart) tt cached passed in
        let after = (consume env state (messages ms) s).1 in
        let there = member-names name state.stores found in
        (
          passed,
          get-shows m name k after.world
                (subst (λ ss. lookup name ss ≡ some store) (sym same) found)
              ∙ ap ok (
                  replay name k there
                  ∙ replayed-Agree env state s.schema_cache (messages ms) _ _
                      (λ n j e.
                        views_of-empty m w.next (w.next + length ds) s.world n j distinct
                          (λ i k l h.
                            subst (λ v. shows dash metrics i v k ≡ none) (ap (λ r. r.1) made)
                              (empty i k l (omega (arith, next)))))
                      name k there),
        )
