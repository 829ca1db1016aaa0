-- ===== src/Consumer/Faults.antt =====
-- consumer.rs, `start_consumer`: failures of stores and of the schema registry.
use push_cache.Base.{
  ℕ, ◌≡◌, refl, sym, ap, ◌∙◌, inl, inr, Option, some, List, [], ◌∷◌, ◌++◌, Text, Bytes, arith,
  Option-cases, text_eq, Bool-cases,
}
use push_cache.Error.{MyError, Result, ok, err, >>=-err, >>=-ok, continue}
use push_cache.Crates.Wire.{Env, BytesResult-cases}
use push_cache.Cache.{Cache}
use push_cache.State.{MyState, Shared, lookup}
use push_cache.Consumer.{
  Message, key_text, full_name, ensure_schema, store_record, route_name, update_store, remove_all,
  tombstone, process, consume,
}

-- A stream of messages, without an error of Kafka.
abbrev pub messages : List Message → List (Result Text Message)
messages [] = []
messages (m ∷ ms) = ok m ∷ messages ms

module _ {W : Type 0} where
  -- A store whose writes do not fail, as those of the in-memory store.
  pub record IsReliable (c : Cache W) : Type 0 where
    pub insert_ok : (k : Text) (v : Bytes) (w : W) → (c.insert k v w).0 ≡ ok tt
    pub remove_ok : (k : Text) (w : W) → (o : Option Bytes) × ((c.remove k w).0 ≡ ok o)

  abbrev pub AllReliable : List (Text × Cache W) → Type 0
  AllReliable [] = Unit
  AllReliable ((name, c) ∷ rest) = IsReliable c × AllReliable rest

  lookup-insert_ok :
      (name : Text) (stores : List (Text × Cache W)) {c : Cache W} (k : Text) (v : Bytes) (w : W)
      → AllReliable stores
      → lookup name stores ≡ some c
      → (c.insert k v w).0 ≡ ok tt
  unfolding lookup
  lookup-insert_ok name [] k v w a h = cc
  lookup-insert_ok name ((n, d) ∷ rest) {c} k v w a h = elim (Bool-cases (text_eq n name)) [
    | inl e ↦ cc (rw e at h, a.0.insert_ok k v w)
    | inr e ↦ lookup-insert_ok name rest k v w a.1 (rw e at h)
  ]

module _ {W : Type 0} (env : Env W) (state : MyState W) where
  ensure_schema-ok : (id : ℕ) (s : Shared env) → (ensure_schema env state id s).0 ≡ ok tt
  unfolding ensure_schema
  ensure_schema-ok id s = ground arith

  store_record-ok :
      (target : Text) (key : Option Bytes) (payload : Bytes) (s : Shared env)
      → AllReliable state.stores
      → (store_record env state (lookup target state.stores) key payload s).0 ≡ ok tt
  unfolding store_record
  store_record-ok target key payload s a = elim (Option-cases (lookup target state.stores)) [
    | inl e ↦ rw e refl
    | inr (c, e) ↦ rw e (elim (Option-cases (key_text env state key)) [
      | inl n ↦ rw (n, store_record) refl
      | inr (k, n) ↦
          rw (n, store_record) (lookup-insert_ok target state.stores k payload s.world a e)
    ])
  ]

  pub route_name-ok :
      (name : Text) (key : Option Bytes) (payload : Bytes) (s : Shared env)
      → AllReliable state.stores
      → (route_name env state name key payload s).0 ≡ ok tt
  unfolding route_name
  route_name-ok name key payload s a = elim (Option-cases (lookup name state.schema_to_store)) [
    | inl e ↦ rw (e, route_name) refl
    | inr (target, e) ↦ rw (e, route_name) (store_record-ok target key payload s a)
  ]

  update_store-ok :
      (id : ℕ) (key : Option Bytes) (payload : Bytes) (s : Shared env)
      → AllReliable state.stores
      → (update_store env state id key payload s).0 ≡ ok tt
  unfolding update_store
  update_store-ok id key payload s a = elim (Option-cases (env.schemas.get s.schema_cache id)) [
    | inl e ↦ rw (e, update_store) refl
    | inr (schema, e) ↦
        rw (e, update_store) (route_name-ok (full_name env state schema) key payload s a)
  ]

  remove_all-ok :
      (key : Text) (stores : List (Text × Cache W)) (s : Shared env)
      → AllReliable stores
      → (remove_all env state key stores s).0 ≡ ok tt
  unfolding remove_all
  remove_all-ok key [] s a = refl
  remove_all-ok key ((name, c) ∷ rest) s a =
      let (o, e) = a.0.remove_ok key s.world in rw e (remove_all-ok key rest _ a.1)

  tombstone-ok :
      (key : Option Bytes) (s : Shared env)
      → AllReliable state.stores
      → (tombstone env state key s).0 ≡ ok tt
  unfolding tombstone
  tombstone-ok key s a = elim (Option-cases (key_text env state key)) [
    | inl e ↦ rw (e, tombstone) refl
    | inr (k, e) ↦ rw (e, tombstone) (remove_all-ok k state.stores _ a)
  ]

  -- Whatever a message holds, with reliable stores its processing succeeds.
  process-ok :
      (m : Message) (s : Shared env) → AllReliable state.stores → (process env state m s).0 ≡ ok tt
  unfolding process
  process-ok m s a = elim (Option-cases m.payload) [
    | inl e ↦ rw (e, process) (tombstone-ok m.key s a)
    | inr (payload, e) ↦
        rw (e, process)
          (elim (BytesResult-cases (env.avro.get_bytes_result (some payload))) [
            | inl (id, rest, v) ↦
                rw (v, process)
                  (ap
                      (λ r.
                        (continue r (λ _. update_store env state id m.key payload)
                          (ensure_schema env state id s).1).0)
                      (ensure_schema-ok id s)
                    ∙ update_store-ok id m.key payload (ensure_schema env state id s).1 a)
            | inr (inl v) ↦ rw (v, process) refl
            | inr (inr (b, v)) ↦ rw (v, process) refl
          ])
  ]

  -- If no insertion into and no removal from a store of the state ever fails, the consumer takes
  -- every stream of messages to its end without an error, whatever keys, payloads and schemas they
  -- have and whether or not the schema registry answers.
  pub consume-ok :
      (ms : List Message) (s : Shared env)
      → AllReliable state.stores
      → (consume env state (messages ms) s).0 ≡ ok tt
  unfolding consume
  consume-ok [] s a = refl
  consume-ok (m ∷ ms) s a =
      ap (λ r. (continue r (λ _. consume env state (messages ms)) (process env state m s).1).0)
        (process-ok m s a)
      ∙ consume-ok ms (process env state m s).1 a

  -- If the messages so far were consumed without an error and the processing of the next message
  -- fails, the consumer ends with that error in the state that the failure left: nothing later in
  -- the stream is processed.
  pub consume-stops :
      (ms : List Message) (m : Message) (stream : List (Result Text Message)) (s t : Shared env)
      {e : MyError}
      → consume env state (messages ms) s ≡ (ok tt, t)
      → (process env state m t).0 ≡ err e
      → consume env state (messages ms ++ ok m ∷ stream) s ≡ (err e, (process env state m t).1)
  unfolding consume
  consume-stops [] m stream s t h f =
      let same : s ≡ t = ap (λ r. r.1) h in
      rw same (>>=-err (process env state m) (λ _. consume env state stream) t f)
  consume-stops (n ∷ ms) m stream s t h f =
      let (u, passed, after) =
        >>=-ok (process env state n) (λ _. consume env state (messages ms)) s (ap (λ r. r.0) h) in
      ap
        (λ r.
          continue r (λ _. consume env state (messages ms ++ ok m ∷ stream))
            (process env state n s).1)
        passed
      ∙ consume-stops ms m stream (process env state n s).1 t (sym after ∙ h) f
