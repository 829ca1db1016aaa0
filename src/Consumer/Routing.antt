-- ===== src/Consumer/Routing.antt =====
-- consumer.rs, `start_consumer`: the parts of `process` and the views of the stores.
use push_cache.Base.{
  ◌≡◌, refl, sym, ap, ◌∙◌, inl, inr, true, ◌&&◌, Option, none, some, List, [], ◌∷◌, ℕ, Text, Bytes,
  text_eq, text_eq_iff, if◌then◌else◌, arith, Option-cases, is_some,
}
use mathlib.Core.Path.{subst}
use push_cache.Base.Distinct.{member}
use push_cache.Error.{MyError, Result, ok, Act, >>=-ok, ◌>>◌, continue}
use push_cache.Crates.Wire.{Env, BytesResult-cases}
use push_cache.Cache.{Cache}
use push_cache.Cache.Contract.{View}
use push_cache.State.{MyState, Shared, on_world, lookup}
use push_cache.State.Stores.{
  AllNamed, IsNamed, lookup-All, names, member-names-none, insert-views, remove-views,
}
use push_cache.Consumer.Effect.{Shows, written, routed, emptied, target_of, IsCached, effect}
use push_cache.Consumer.{
  Message, ensure_schema, full_name, key_text, store_record, route_name, update_store, remove_all,
  tombstone, process,
}

module _ {W : Type 0} (env : Env W) (state : MyState W) (views : Text → View W)
    (Inv : W → Type 0) where
  open env use {avro, schemas}

  abbrev Good : Shared env → Type 0
  Good s = Inv s.world

  -- The store that `stores.values()` holds under each name is emptied of `key`, and no other.
  remove_all_lem :
      (key : Text) (stores : List (Text × Cache W)) (s : Shared env)
      → AllNamed views Inv stores
      → Inv s.world
      → (remove_all env state key stores s).0 ≡ ok tt
      → let s' = (remove_all env state key stores s).1 in
        Inv s'.world
        × (s'.schema_cache ≡ s.schema_cache)
        × ((name k : Text)
            → views name s'.world k ≡ (
                if member text_eq name (names stores) && text_eq key k
                then none
                else views name s.world k))
  unfolding remove_all
  remove_all_lem key [] s a i h = (i, refl, λ name k. refl)
  remove_all_lem key ((n, c) ∷ rest) s a i h =
      let (u, removed, after) =
        >>=-ok (on_world env (c.remove key)) (λ _. remove_all env state key rest) s h in
      let t = (on_world env (c.remove key) s).1 in
      let answer : (c.remove key s.world).0 ≡ ok u = removed in
      let ih =
        remove_all_lem key rest t a.1 (a.0.store.remove_Inv key s.world i)
          (sym (ap (λ r. r.0) after) ∙ h) in
      rw after (
        ih.0,
        ih.1,
        λ name k.
            ih.2 name k
            ∙ ground (arith, remove-views views Inv n c a.0 s.world i key answer name k),
      )

  -- What an action that succeeds leaves of the state: the invariant, the schemas, and stores that show
  -- `after`, by name and key.
  abbrev pub Leaves : Shared env → Result MyError (Unit {0}) × Shared env → Shows → Type 0
  Leaves s (r, s') after =
      r ≡ ok tt
      → Inv s'.world
        × (s'.schema_cache ≡ s.schema_cache)
        × ((name k : Text)
            → member text_eq name (names state.stores) ≡ true
            → views name s'.world k ≡ after name k)

  abbrev pub shown : Shared env → Text → Text → Option Bytes
  shown s name k = views name s.world k

  -- A store that is not there is not among the names.
  written_missing :
      (key : Option Text) (target : Text) (v : Option Bytes) (before : Text → Text → Option Bytes)
      (name k : Text)
      → lookup target state.stores ≡ none
      → member text_eq name (names state.stores) ≡ true
      → before name k ≡ written key target v before name k
  written_missing none target v before name k e m = refl
  written_missing (some key) target v before name k e m = ground (
    arith,
    member-names-none target state.stores e,
    text_eq_iff name target,
    ap (λ n. member text_eq n (names state.stores)) {x = name} {y = target},
  )

  store_record-Leaves :
      (target : Text) (key : Option Bytes) (payload : Bytes) (s : Shared env)
      → AllNamed views Inv state.stores
      → Inv s.world
      → Leaves s
          (store_record env state (lookup target state.stores) key payload s)
          (written (key_text env state key) target (some payload) (shown s))
  unfolding store_record
  store_record-Leaves target key payload s a i = elim (Option-cases (lookup target state.stores)) [
    | inl missing ↦ rw missing λ h. (
      i,
      refl,
      λ name k m.
          written_missing (key_text env state key) target (some payload) (shown s) name k missing m,
    )
    | inr (c, found) ↦ rw found (elim (Option-cases (key_text env state key)) [
      | inl e ↦ rw (e, store_record) (λ h. (i, refl, λ name k m. refl))
      | inr (k, e) ↦
          rw (e, store_record)
            λ h. (
              (lookup-All (IsNamed views Inv) target state.stores a found).store.insert_Inv k
                  payload s.world i,
              refl,
              λ name j m.
                  insert-views views Inv target c
                    (lookup-All (IsNamed views Inv) target state.stores a found) s.world i k payload
                    h name j,
            )
    ])
  ]

  pub route_name-Leaves :
      (name : Text) (key : Option Bytes) (payload : Bytes) (s : Shared env)
      → AllNamed views Inv state.stores
      → Inv s.world
      → Leaves s
          (route_name env state name key payload s)
          (routed (lookup name state.schema_to_store) (key_text env state key) payload (shown s))
  unfolding route_name
  route_name-Leaves name key payload s a i =
      elim (Option-cases (lookup name state.schema_to_store)) [
        | inl unrouted ↦ rw (unrouted, route_name) (λ h. (i, refl, λ n k m. refl))
        | inr (target, found) ↦
            rw (found, route_name) (store_record-Leaves target key payload s a i)
      ]

  pub update_store-Leaves :
      (id : ℕ) (key : Option Bytes) (payload : Bytes) (s : Shared env)
      → AllNamed views Inv state.stores
      → Inv s.world
      → Leaves s (update_store env state id key payload s) (
          routed (target_of env state s.schema_cache id) (key_text env state key) payload (shown s))
  unfolding update_store
  update_store-Leaves id key payload s a i = elim (Option-cases (schemas.get s.schema_cache id)) [
    | inl unknown ↦ rw (unknown, update_store, target_of) (λ h. (i, refl, λ n k m. refl))
    | inr (schema, found) ↦
        rw (found, update_store, target_of)
          (route_name-Leaves (full_name env state schema) key payload s a i)
  ]

  pub tombstone-Leaves :
      (key : Option Bytes) (s : Shared env)
      → AllNamed views Inv state.stores
      → Inv s.world
      → Leaves s (tombstone env state key s) (emptied (key_text env state key) (shown s))
  unfolding tombstone
  tombstone-Leaves key s a i = elim (Option-cases (key_text env state key)) [
    | inl e ↦ rw (e, tombstone) (λ h. (i, refl, λ n k m. refl))
    | inr (k, e) ↦
        rw (e, tombstone)
          λ h.
            let s' = record s {
              tombstones_processed = env.metrics.count_up s.tombstones_processed;
            } in
            let law = remove_all_lem k state.stores s' a i h in
            (law.0, law.1, λ n j m. ground (arith, law.2 n j))
  ]

  ensure_schema-cached :
      (id : ℕ) (s : Shared env)
      → is_some (schemas.get s.schema_cache id) ≡ true
      → ensure_schema env state id s ≡ (ok tt, s)
  unfolding ensure_schema
  ensure_schema-cached id s h = rw (schemas.contains_lem s.schema_cache id, h)

  ensure_schema-then :
      (id : ℕ) (f : Act (Shared env) (Unit {0})) (s : Shared env)
      → is_some (schemas.get s.schema_cache id) ≡ true
      → (ensure_schema env state id >> f) s ≡ f s
  ensure_schema-then id f s h = ap (λ r. continue r.0 (λ _. f) r.1) (ensure_schema-cached id s h)

  pub process-Leaves :
      (m : Message) (s : Shared env)
      → AllNamed views Inv state.stores
      → Inv s.world
      → IsCached env state s.schema_cache m
      → Leaves s (process env state m s) (effect env state s.schema_cache m (shown s))
  unfolding process
  process-Leaves m s a i c = elim (Option-cases m.payload) [
    | inl e ↦ rw (e, process, effect) (tombstone-Leaves m.key s a i)
    | inr (payload, e) ↦ elim (BytesResult-cases (avro.get_bytes_result (some payload))) [
      | inl (id, rest, v) ↦
          rw (e, process, effect)
            (rw (v, process, effect)
              (subst
                (λ r. Leaves s r (
                  routed (target_of env state s.schema_cache id) (key_text env state m.key) payload
                    (shown s)))
                (sym (
                  ensure_schema-then id (update_store env state id m.key payload) s
                    (rw (v, IsCached) at (rw (e, IsCached) at c))))
                (update_store-Leaves id m.key payload s a i)))
      | inr (inl v) ↦
          rw (e, process, effect) (rw (v, process, effect) (λ h. (i, refl, λ n k m. refl)))
      | inr (inr (b, v)) ↦
          rw (e, process, effect) (rw (v, process, effect) (λ h. (i, refl, λ n k m. refl)))
    ]
  ]
