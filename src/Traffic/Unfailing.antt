-- ===== src/Traffic/Unfailing.antt =====
-- consumer.rs and webserver/mod.rs: with stores whose writes do not fail, nothing stops the consumer.
use push_cache.Base.{
  ℕ, ◌≡◌, refl, sym, inl, inr, Option, some, List, [], ◌∷◌, Text, Bytes, Option-cases, Bool-cases,
}
use mathlib.Core.Path.{subst}
use push_cache.Error.{ok, err, Act, Result-cases}
use push_cache.Crates.Wire.{Env, BytesResult-cases}
use push_cache.Cache.{Cache}
use push_cache.State.{MyState, Shared, on_world}
use push_cache.Kafka.{fetch_schema_by_id}
use push_cache.Consumer.{Message, full_name, key_text, route_name}
use push_cache.Consumer.Faults.{AllReliable, messages, route_name-ok}
use push_cache.Traffic.{Coroutine, finished, call, once, alone, ◌>>=◌}
use push_cache.Traffic.Handlers.{Answer, Request}
use push_cache.Traffic.Consuming.{
  Job, ensure_task, update_task, remove_task, tombstone_task, process_task, consume_task,
}
use push_cache.Traffic.Steps.{Call, calls, Steps, rests, consumer, handlers, arrives}

module _ {S : Type 0} {A : Type 0} where
  -- Whatever state the calls find, the end is a success.
  abbrev Succeeds : Coroutine S A → Type 0
  Succeeds (finished (ok a)) = Unit
  Succeeds (finished (err e)) = ⊥
  Succeeds (call m next) = (s : S) → Succeeds (next (m s).0)

  once-Succeeds : (m : Act S A) → ((s : S) → (a : A) × ((m s).0 ≡ ok a)) → Succeeds (once m)
  once-Succeeds m h s = subst (λ r. Succeeds (finished r)) (sym (h s).1) tt

  alone-ok : (t : Coroutine S A) (s : S) → Succeeds t → (a : A) × ((alone t s).0 ≡ ok a)
  unfolding alone
  alone-ok (finished (ok a)) s h = (a, refl)
  alone-ok (finished (err e)) s h = absurd h
  alone-ok (call m next) s h = alone-ok (next (m s).0) (m s).1 (h s)

  Call-Succeeds : {t t' : Coroutine S A} {s s' : S} → Call t s t' s' → Succeeds t → Succeeds t'
  Call-Succeeds {s} (calls {k = next} e) h = subst (λ r. Succeeds (next r.0)) e (h s)

Succeeds-bind :
    {S A B : Type 0} (t : Coroutine S A) (f : A → Coroutine S B)
    → Succeeds t
    → ((a : A) → Succeeds (f a))
    → Succeeds (t >>= f)
Succeeds-bind (finished (ok a)) f h rest = rest a
Succeeds-bind (finished (err e)) f h rest = h
Succeeds-bind (call m next) f h rest = λ s. Succeeds-bind (next (m s).0) f (h s) rest

module _ {W : Type 0} (env : Env W) (state : MyState W) where
  open env use {avro, schemas}

  ensure_task-Succeeds : (id : ℕ) → Succeeds (ensure_task env state id)
  unfolding ensure_task
  ensure_task-Succeeds id s = elim (Bool-cases (schemas.contains_key s.schema_cache id)) [
    | inl e ↦ rw e tt
    | inr e ↦ rw e λ t.
        elim (Result-cases
          (fetch_schema_by_id env.http avro state.schema_registry_url id t.world).0) [
            | inl (schema, f) ↦ rw f (λ u. tt)
            | inr (x, f) ↦ rw f tt
          ]
  ]

  module _ (reliable : AllReliable state.stores) where
    update_task-Succeeds :
        (id : ℕ) (key : Option Bytes) (payload : Bytes)
        → Succeeds (update_task env state id key payload)
    unfolding update_task
    update_task-Succeeds id key payload s = elim (Option-cases (schemas.get s.schema_cache id)) [
      | inl e ↦ rw e tt
      | inr (schema, e) ↦ rw e (
          once-Succeeds (route_name env state (full_name env state schema) key payload) (λ t.
            (tt, route_name-ok env state (full_name env state schema) key payload t reliable)))
    ]

    remove_task-Succeeds :
        (key : Text) (stores : List (Text × Cache W))
        → AllReliable stores
        → Succeeds (remove_task env state key stores)
    unfolding remove_task
    remove_task-Succeeds key [] a = tt
    remove_task-Succeeds key ((name, c) ∷ rest) (a, others) =
        Succeeds-bind (once (on_world env (c.remove key))) _
          (once-Succeeds (on_world env (c.remove key)) (λ s. a.remove_ok key s.world))
          (λ o. remove_task-Succeeds key rest others)

    tombstone_task-Succeeds : (key : Option Bytes) → Succeeds (tombstone_task env state key)
    unfolding tombstone_task
    tombstone_task-Succeeds key = elim (Option-cases (key_text env state key)) [
      | inl e ↦ rw (e, tombstone_task) tt
      | inr (k, e) ↦ rw (e, tombstone_task) (λ s. remove_task-Succeeds k state.stores reliable)
    ]

    process_task-Succeeds : (m : Message) → Succeeds (process_task env state m)
    unfolding process_task
    process_task-Succeeds m = elim (Option-cases m.payload) [
      | inl e ↦ rw (e, process_task) (tombstone_task-Succeeds m.key)
      | inr (payload, e) ↦ elim (BytesResult-cases (avro.get_bytes_result (some payload))) [
        | inl (id, rest, v) ↦
            rw (e, process_task)
              (rw (v, process_task)
                (Succeeds-bind (ensure_task env state id) _ (ensure_task-Succeeds id)
                  (λ u. update_task-Succeeds id m.key payload)))
        | inr (inl v) ↦ rw (e, process_task) (rw (v, process_task) tt)
        | inr (inr (b, v)) ↦ rw (e, process_task) (rw (v, process_task) tt)
      ]
    ]

    consume_task-Succeeds : (ms : List Message) → Succeeds (consume_task env state (messages ms))
    unfolding consume_task
    consume_task-Succeeds [] = tt
    consume_task-Succeeds (m ∷ ms) =
        Succeeds-bind (process_task env state m) _ (process_task-Succeeds m)
          (λ u. consume_task-Succeeds ms)

  Steps-Succeeds :
      {job job' : Job env state} {tasks tasks' : List (Answer env)} {s s' : Shared env}
      {requests : List (Request avro.Json)}
      → Steps env state job tasks s requests job' tasks' s'
      → Succeeds job
      → Succeeds job'
  Steps-Succeeds rests h = h
  Steps-Succeeds (consumer c steps) h = Steps-Succeeds steps (Call-Succeeds c h)
  Steps-Succeeds (handlers c steps) h = Steps-Succeeds steps h
  Steps-Succeeds (arrives request store found steps) h = Steps-Succeeds steps h

  -- If no insertion into and no removal from a store of the state ever fails and the stream of
  -- messages has no error of Kafka, then, whatever requests have arrived and in whatever order the
  -- calls of the consumer and of the handlers have followed each other, the consumer has not ended
  -- with an error, and left to itself from there it takes the rest of the messages to their end
  -- without one.
  pub consume-unstopped :
      (ms : List Message) (requests : List (Request avro.Json)) (s s' : Shared env)
      (job : Job env state) (tasks : List (Answer env))
      → AllReliable state.stores
      → Steps env state (consume_task env state (messages ms)) [] s requests job tasks s'
      → (alone job s').0 ≡ ok tt
  consume-unstopped ms requests s s' job tasks reliable steps =
      (alone-ok job s' (Steps-Succeeds steps (consume_task-Succeeds reliable ms))).1
