-- ===== src/Traffic/Leading.antt =====
-- consumer.rs, `start_consumer`: where the task of the consumer leads a cell that no handler writes.
use push_cache.Base.{
  ℕ, ◌≡◌, refl, ◌∙◌, inl, inr, true, ◌&&◌, Option, none, some, List, [], ◌∷◌, Text, Bytes, text_eq,
  if◌then◌else◌, arith, Option-cases, is_some,
}
use mathlib.Core.Path.{subst}
use push_cache.Base.Distinct.{member}
use push_cache.Error.{Result, ok, err}
use push_cache.Crates.Wire.{Env, BytesResult-cases}
use push_cache.Cache.{Cache}
use push_cache.Cache.Contract.{View}
use push_cache.State.{MyState, Shared, on_world, lookup}
use push_cache.State.Stores.{IsNamed, AllNamed, names, lookup-All, remove-views}
use push_cache.Consumer.{Message, full_name, key_text, route_name, store_record}
use push_cache.Consumer.Effect.{Shows, routed, emptied, target_of, IsCached, effect, routed_cell}
use push_cache.Consumer.Routing.{route_name-Leaves}
use push_cache.Consumer.Replay.{replayed, AllCached}
use push_cache.Traffic.{Coroutine, once, ◌>>=◌}
use push_cache.Traffic.Consuming.{
  ensure_task, update_task, remove_task, tombstone_task, process_task, consume_task,
}
use push_cache.Traffic.Cell.{Good, Leads, Leads-once, Leads-bind}

module _ {W : Type 0} (env : Env W) (state : MyState W) (views : Text → View W) (Inv : W → Type 0)
    (cache : env.schemas.Map) (name k : Text) where
  open env use {avro, schemas}

  abbrev ToLead : {A : Type 0} → Coroutine (Shared env) A → Option Bytes → Option Bytes → Type 0
  ToLead t x y = Leads env views Inv cache name k t x y

  chain :
      {A B : Type 0} (t : Coroutine (Shared env) A) (f : A → Coroutine (Shared env) B)
      (x z y : Option Bytes)
      → ToLead t x z
      → ((a : A) → ToLead (f a) z y)
      → ToLead (t >>= f) x y
  chain t f x z y h rest = Leads-bind env views Inv cache name k t f x z y h rest

  -- What a tombstone of `key` leaves of the cell, when it has passed these stores.
  abbrev swept : Text → List (Text × Cache W) → Option Bytes → Option Bytes
  swept key stores x = if member text_eq name (names stores) && text_eq key k then none else x

  remove_task-Leads :
      (key : Text) (stores : List (Text × Cache W)) (x : Option Bytes)
      → AllNamed views Inv stores
      → ToLead (remove_task env state key stores) x (swept key stores x)
  unfolding remove_task
  remove_task-Leads key [] x a = refl
  remove_task-Leads key ((n, c) ∷ rest) x (a, others) =
      let z : Option Bytes = if text_eq name n && text_eq key k then none else x in
      chain (once (on_world env (c.remove key))) _ x z _
        (Leads-once env views Inv cache name k (on_world env (c.remove key)) x z
          (λ s g e. (a.store.remove_Inv key s.world g.0, g.1))
          (λ s g e o h. ground (arith, remove-views views Inv n c a s.world g.0 key h name k)))
        λ o.
          subst (ToLead (remove_task env state key rest) z) (ground arith)
            (remove_task-Leads key rest z others)

  pub route_name-Good :
      (schema_name : Text) (key : Option Bytes) (payload : Bytes) (s : Shared env)
      → AllNamed views Inv state.stores
      → Good env Inv cache s
      → Good env Inv cache (route_name env state schema_name key payload s).1
  unfolding route_name store_record
  route_name-Good schema_name key payload s a g =
      elim (Option-cases (lookup schema_name state.schema_to_store)) [
        | inl e ↦ rw (e, route_name) g
        | inr (target, e) ↦ elim (Option-cases (lookup target state.stores)) [
          | inl f ↦ rw (e, f, route_name) g
          | inr (c, f) ↦ elim (Option-cases (key_text env state key)) [
            | inl h ↦ rw (e, f, route_name) (rw (h, store_record) g)
            | inr (j, h) ↦
                rw (e, f, route_name)
                  (rw (h, store_record)
                    (
                      (lookup-All (IsNamed views Inv) target state.stores a f).store.insert_Inv j
                          payload s.world g.0,
                      g.1,
                    ))
          ]
        ]
      ]

  module _ (a : AllNamed views Inv state.stores)
      (here : member text_eq name (names state.stores) ≡ true) where
    update_task-Leads :
        (id : ℕ) (key : Option Bytes) (payload : Bytes) (before : Shows)
        → ToLead
            (update_task env state id key payload)
            (before name k)
            (routed (target_of env state cache id) (key_text env state key) payload before name k)
    unfolding update_task
    update_task-Leads id key payload before = λ s g e. (
      g,
      rw (g.1, e)
          (elim (Option-cases (schemas.get cache id)) [
            | inl f ↦ rw (f, target_of) refl
            | inr (schema, f) ↦
                rw (f, target_of)
                  (Leads-once env views Inv cache name k
                    (route_name env state (full_name env state schema) key payload) (before name k)
                    _ (λ s g e. route_name-Good (full_name env state schema) key payload s a g)
                    (λ s g e u h.
                      (route_name-Leaves env state views Inv (full_name env state schema) key
                          payload s a g.0 h).2
                        name k here
                      ∙ routed_cell name k
                          (lookup (full_name env state schema) state.schema_to_store)
                          (key_text env state key) payload _ before e))
          ]),
    )

    tombstone_task-Leads :
        (key : Option Bytes) (before : Shows)
        → ToLead
            (tombstone_task env state key)
            (before name k)
            (emptied (key_text env state key) before name k)
    unfolding tombstone_task
    tombstone_task-Leads key before = elim (Option-cases (key_text env state key)) [
      | inl e ↦ rw (e, tombstone_task) refl
      | inr (j, e) ↦
          rw (e, tombstone_task)
            (λ s g f. (
              g,
              rw f (
                  subst (ToLead (remove_task env state j state.stores) (before name k))
                    (rw here refl) (remove_task-Leads j state.stores (before name k) a)),
            ))
    ]

    ensure_task-Leads :
        (id : ℕ) (x : Option Bytes)
        → is_some (schemas.get cache id) ≡ true
        → ToLead (ensure_task env state id) x x
    unfolding ensure_task
    ensure_task-Leads id x h = λ s g e. (g, rw (g.1, schemas.contains_lem cache id, h, e) refl)

    pub process_task-Leads :
        (m : Message) (before : Shows)
        → IsCached env state cache m
        → ToLead (process_task env state m) (before name k) (effect env state cache m before name k)
    unfolding process_task
    process_task-Leads m before c = elim (Option-cases m.payload) [
      | inl e ↦ rw (e, process_task, effect) (tombstone_task-Leads m.key before)
      | inr (payload, e) ↦ elim (BytesResult-cases (avro.get_bytes_result (some payload))) [
        | inl (id, rest, v) ↦
            rw (e, process_task, effect)
              (rw (v, process_task, effect)
                (chain (ensure_task env state id) _ (before name k) (before name k) _
                  (ensure_task-Leads id (before name k)
                    (rw (v, IsCached) at (rw (e, IsCached) at c)))
                  (λ u. update_task-Leads id m.key payload before)))
        | inr (inl v) ↦ rw (e, process_task, effect) (rw (v, process_task, effect) refl)
        | inr (inr (b, v)) ↦ rw (e, process_task, effect) (rw (v, process_task, effect) refl)
      ]
    ]

    -- The task of the consumer, with the schemas in the cache, leads the cell to what the effects of
    -- the messages leave of it.
    pub consume_task-Leads :
        (stream : List (Result Text Message)) (before : Shows)
        → AllCached env state cache stream
        → ToLead
            (consume_task env state stream)
            (before name k)
            (replayed env state cache stream before name k)
    unfolding consume_task
    consume_task-Leads [] before c = refl
    consume_task-Leads (ok m ∷ stream) before c =
        chain (process_task env state m) _ (before name k) (effect env state cache m before name k)
          _ (process_task-Leads m before c.0)
          (λ u. consume_task-Leads stream (effect env state cache m before) c.1)
    consume_task-Leads (err x ∷ stream) before c = tt
