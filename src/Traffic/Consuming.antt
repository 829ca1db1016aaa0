-- ===== src/Traffic/Consuming.antt =====
-- consumer.rs, `start_consumer`: the processing of the stream as a task, a call for each access to a
-- store, to the schema registry, or to the fields of the state that change.
use push_cache.Base.{
  ℕ, ◌≡◌, refl, Bool, true, false, Option, none, some, List, [], ◌∷◌, Text, Bytes, inl, inr, arith,
  Option-cases,
}
use push_cache.Error.{kafka_error, Result, ok, err}
use push_cache.Crates.Wire.{Env, null, valid, invalid, BytesResult-cases}
use push_cache.Cache.{Cache}
use push_cache.State.{MyState, Shared, on_world}
use push_cache.Kafka.{fetch_schema_by_id}
use push_cache.Consumer.{
  Message, full_name, key_text, ensure_schema, route_name, update_store, remove_all, tombstone,
  process, consume,
}
use push_cache.Traffic.{Coroutine, call, once, done, fails, alone, alone-chain, ◌>>=◌, ◌>>◌}

module _ {W : Type 0} (env : Env W) (state : MyState W) where
  open env use {metrics, avro, schemas}

  abbrev pub Job : Type 1
  Job = Coroutine (Shared env) (Unit {0})

  -- A schema that is not in the cache is fetched and then put there; an error is passed over.
  abbrev pub fetch_unless : Bool → ℕ → Job
  fetch_unless true id = done tt
  fetch_unless false id =
      call (on_world env (fetch_schema_by_id env.http avro state.schema_registry_url id)) λ r.
        elim r [
          | ok schema ↦
              once λ s.
                (ok tt, record s { schema_cache = (schemas.insert s.schema_cache id schema).1 })
          | err e ↦ done tt
        ]

  -- The test, the fetch and the insertion into the cache are three calls.
  unfoldable pub ensure_task : ℕ → Job
  ensure_task id = do
    known ← once (λ (s : Shared env). (ok (schemas.contains_key s.schema_cache id), s))
    fetch_unless known id

  -- The read of the cache, and then the one access to a store or to the counter.
  unfoldable pub update_task : ℕ → Option Bytes → Bytes → Job
  update_task id key payload = do
    found ← once (λ (s : Shared env). (ok (schemas.get s.schema_cache id), s))
    elim found [
      | none ↦ done tt
      | some schema ↦ once (route_name env state (full_name env state schema) key payload)
    ]

  unfoldable pub remove_task : Text → List (Text × Cache W) → Job
  remove_task key [] = done tt
  remove_task key ((name, store) ∷ rest) = do
    once (on_world env (store.remove key))
    remove_task key rest

  unfoldable pub tombstone_task : Option Bytes → Job
  unfolding remove_task
  tombstone_task key = elim (key_text env state key) [
    | none ↦ done tt
    | some k ↦ do
      once λ (s : Shared env).
          (ok tt, record s { tombstones_processed = metrics.count_up s.tombstones_processed })
      remove_task k state.stores
  ]

  unfoldable pub process_task : Message → Job
  unfolding ensure_task update_task tombstone_task
  process_task m = elim m.payload [
    | some payload ↦ elim (avro.get_bytes_result (some payload)) [
      | valid id rest ↦ ensure_task id >> update_task id m.key payload
      | null ↦ done tt
      | invalid b ↦ done tt
    ]
    | none ↦ tombstone_task m.key
  ]

  unfoldable pub consume_task : List (Result Text Message) → Job
  consume_task [] = done tt
  consume_task (ok m ∷ stream) = process_task m >> consume_task stream
  consume_task (err e ∷ stream) = fails (kafka_error e)

  ensure_task-alone :
      (id : ℕ) (s : Shared env) → alone (ensure_task id) s ≡ ensure_schema env state id s
  unfolding alone ensure_task ensure_schema
  ensure_task-alone id s = ground arith

  update_task-alone :
      (id : ℕ) (key : Option Bytes) (payload : Bytes) (s : Shared env)
      → alone (update_task id key payload) s ≡ update_store env state id key payload s
  unfolding alone update_task update_store
  update_task-alone id key payload s = elim (Option-cases (schemas.get s.schema_cache id)) [
    | inl e ↦ rw (e, update_store, alone) refl
    | inr (schema, e) ↦ rw (e, update_store, alone) refl
  ]

  remove_task-alone :
      (key : Text) (stores : List (Text × Cache W)) (s : Shared env)
      → alone (remove_task key stores) s ≡ remove_all env state key stores s
  unfolding alone remove_task remove_all
  remove_task-alone key [] s = refl
  remove_task-alone key ((name, store) ∷ rest) s =
      alone-chain (once (on_world env (store.remove key))) (on_world env (store.remove key)) _ _
        (λ s. refl) (λ o s. remove_task-alone key rest s) s

  tombstone_task-alone :
      (key : Option Bytes) (s : Shared env)
      → alone (tombstone_task key) s ≡ tombstone env state key s
  unfolding alone tombstone_task tombstone
  tombstone_task-alone key s = elim (Option-cases (key_text env state key)) [
    | inl e ↦ rw (e, tombstone, alone) refl
    | inr (k, e) ↦ rw (e, tombstone, alone) (remove_task-alone k state.stores _)
  ]

  process_task-alone :
      (m : Message) (s : Shared env) → alone (process_task m) s ≡ process env state m s
  unfolding alone process_task process
  process_task-alone m s = elim (Option-cases m.payload) [
    | inl e ↦ rw (e, process, alone) (tombstone_task-alone m.key s)
    | inr (payload, e) ↦ elim (BytesResult-cases (avro.get_bytes_result (some payload))) [
      | inl (id, rest, v) ↦
          rw (e, process, alone)
            (rw (v, process, alone)
              (alone-chain (ensure_task id) (ensure_schema env state id) _ _
                (λ s. ensure_task-alone id s) (λ u s. update_task-alone id m.key payload s) s))
      | inr (inl v) ↦ rw (e, process, alone) (rw (v, process, alone) refl)
      | inr (inr (b, v)) ↦ rw (e, process, alone) (rw (v, process, alone) refl)
    ]
  ]

  -- The task of the consumer that no other task disturbs does what the consumer does.
  pub consume_task-alone :
      (stream : List (Result Text Message)) (s : Shared env)
      → alone (consume_task stream) s ≡ consume env state stream s
  unfolding alone consume_task consume
  consume_task-alone [] s = refl
  consume_task-alone (ok m ∷ stream) s =
      alone-chain (process_task m) (process env state m) _ _ (λ s. process_task-alone m s)
        (λ u s. consume_task-alone stream s) s
  consume_task-alone (err e ∷ stream) s = refl
