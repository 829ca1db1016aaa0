-- ===== src/Consumer/Fetching.antt =====
-- consumer.rs, `start_consumer`, and kafka_utils.rs, `fetch_schema_by_id`: a stream whose schemas are
-- fetched as they come.
use push_cache.Base.{
  ℕ, ◌≡◌, refl, sym, ap, ◌∙◌, inl, inr, true, some, List, [], ◌∷◌, Text, text_eq, is_some,
  Option-cases,
}
use mathlib.Core.Path.{subst}
use push_cache.Base.Distinct.{member}
use push_cache.Error.{Result, ok, err, >>=-ok}
use push_cache.Crates.Wire.{Env, BytesResult-cases}
use push_cache.Cache.Contract.{View}
use push_cache.State.{MyState, Shared, lookup}
use push_cache.State.Stores.{AllNamed, names}
use push_cache.Consumer.{Message, full_name, key_text, ensure_schema, process, consume}
use push_cache.Consumer.Effect.{routed, target_of, IsCached, effect, routed_cell}
use push_cache.Consumer.Routing.{shown, update_store-Leaves, tombstone-Leaves}
use push_cache.Consumer.Replay.{replayed, AllCached, Agree, replayed-Agree}
use push_cache.Consumer.Registry.{IsRegistry, IsOf, ensure_schema-Ensured}

module _ {W : Type 0} (env : Env W) (state : MyState W) (views : Text → View W) (Inv : W → Type 0)
    (registry : ℕ → env.avro.Schema) (law : IsRegistry env state views Inv registry)
    (full : env.schemas.Map) (complete : IsOf env registry full) where
  open env use {avro, schemas}

  -- A cache with the schema of a number leads where the full one does.
  target_of-full :
      (cache : schemas.Map) (id : ℕ)
      → schemas.get cache id ≡ some (registry id)
      → is_some (schemas.get full id) ≡ true
      → target_of env state cache id ≡ target_of env state full id
  target_of-full cache id e h = elim (Option-cases (schemas.get full id)) [
    | inl f ↦ cc (rw f at h)
    | inr (schema, f) ↦
        rw (target_of, e, target_of, f)
          (ap (λ x. lookup (full_name env state x) state.schema_to_store)
            (sym (complete id schema f)))
  ]

  -- What a message leaves.
  record Passed (m : Message) (s s' : Shared env) : Type 0 where
    inv : Inv s'.world
    known : IsOf env registry s'.schema_cache
    effected :
        (name k : Text)
        → member text_eq name (names state.stores) ≡ true
        → views name s'.world k ≡ effect env state full m (shown env state views Inv s) name k

  process-Passed :
      (m : Message) (s : Shared env)
      → AllNamed views Inv state.stores
      → Inv s.world
      → IsOf env registry s.schema_cache
      → IsCached env state full m
      → (process env state m s).0 ≡ ok tt
      → Passed m s (process env state m s).1
  unfolding process
  process-Passed m s a i c cached = elim (Option-cases m.payload) [
    | inl e ↦
        rw (e, process)
          λ h.
            let (inv, same, shows) = tombstone-Leaves env state views Inv m.key s a i h in
            record {
              inv = inv;
              known = subst (IsOf env registry) (sym same) c;
              effected = λ name k there. shows name k there;
            }
    | inr (payload, e) ↦ elim (BytesResult-cases (avro.get_bytes_result (some payload))) [
      | inl (id, rest, v) ↦
          let (passed, ensured) = ensure_schema-Ensured env state views Inv registry law id s i c in
          let t = (ensure_schema env state id s).1 in
          let target =
            target_of-full t.schema_cache id ensured.there
              (rw (v, IsCached) at (rw (e, IsCached) at cached)) in
          rw (e, process)
            (rw (v, process)
              (rw passed λ h.
                let (inv, same, shows) =
                  update_store-Leaves env state views Inv id m.key payload t a ensured.inv h in
                record {
                  inv = inv;
                  known = subst (IsOf env registry) (sym same) ensured.known;
                  effected = λ name k there.
                      rw (v, effect)
                        ((shows name k there
                          ∙ ap
                              (λ o.
                                routed o (key_text env state m.key) payload
                                  (shown env state views Inv t) name k)
                              target
                          ∙ routed_cell name k (target_of env state full id)
                              (key_text env state m.key) payload _ _ (ensured.kept name k)));
                }))
      | inr (inl v) ↦
          rw (e, process)
            (rw (v, process)
              λ h. record { inv = i; known = c; effected = λ name k there. rw (v, effect) refl })
      | inr (inr (b, v)) ↦
          rw (e, process)
            (rw (v, process)
              λ h. record { inv = i; known = c; effected = λ name k there. rw (v, effect) refl })
    ]
  ]

  -- If every store of the state meets the contract of a store and leaves the views of the others
  -- alone, the schema registry answers every request for a schema with the one schema of that
  -- number without touching the stores, the schema cache has schemas of the registry alone, and the
  -- consumer takes the stream to its end without an error, then every store, looked up by its name,
  -- shows what the effects of the messages, applied one after another to what the stores showed
  -- before, leave, by any map of schemas of the registry that has all those that the messages name,
  -- whichever of them were in the schema cache at the start.
  pub consume-fetched :
      (stream : List (Result Text Message)) (s : Shared env)
      → AllNamed views Inv state.stores
      → Inv s.world
      → IsOf env registry s.schema_cache
      → AllCached env state full stream
      → (consume env state stream s).0 ≡ ok tt
      → Agree env state
          (shown env state views Inv (consume env state stream s).1)
          (replayed env state full stream (shown env state views Inv s))
  unfolding consume
  consume-fetched [] s a i c cached h = λ name k there. refl
  consume-fetched (ok m ∷ stream) s a i c cached h =
      let (u, passed, after) = >>=-ok (process env state m) (λ _. consume env state stream) s h in
      let p = process-Passed m s a i c cached.0 passed in
      let t = (process env state m s).1 in
      let ih = consume-fetched stream t a p.inv p.known cached.1 (sym (ap (λ r. r.0) after) ∙ h) in
      λ name k there.
        ap (λ r. shown env state views Inv r.1 name k) after
        ∙ ih name k there
        ∙ replayed-Agree env state full stream _ _ p.effected name k there
  consume-fetched (err x ∷ stream) s a i c cached h = cc
