-- ===== src/Traffic/Prefixes.antt =====
-- consumer.rs, `start_consumer`: the values that a cell has while the stream is consumed.
use push_cache.Base.{
  ℕ, suc, ◌≡◌, refl, sym, inl, inr, true, Option, none, some, List, [], ◌∷◌, Text, Bytes, text_eq,
  if◌then◌else◌, arith, Option-cases, is_some, take,
}
use mathlib.Core.Path.{subst}
use push_cache.Base.Distinct.{member}
use push_cache.Error.{Result, ok, err}
use push_cache.Crates.Wire.{Env, BytesResult-cases}
use push_cache.Cache.{Cache}
use push_cache.Cache.Contract.{View, Outcome-either}
use push_cache.State.{MyState, Shared, on_world, lookup}
use push_cache.State.Stores.{AllNamed, names}
use push_cache.Consumer.{Message, full_name, key_text, route_name}
use push_cache.Consumer.Effect.{Shows, routed, emptied, target_of, IsCached, effect}
use push_cache.Consumer.Replay.{replayed, AllCached}
use push_cache.Traffic.{Coroutine, once}
use push_cache.Traffic.Consuming.{
  ensure_task, update_task, remove_task, tombstone_task, process_task, consume_task,
}
use push_cache.Traffic.Between.{Keeps, Keeps-once, Keeps-bind, Stays, Stays-bind, Keeps-Stays}
use push_cache.Traffic.Leading.{route_name-Good, process_task-Leads}
use push_cache.Traffic.Attempts.{attempt, OneOf, route_name-attempt, routed-OneOf}

module _ {W : Type 0} (env : Env W) (state : MyState W) (views : Text → View W) (Inv : W → Type 0)
    (cache : env.schemas.Map) (name k : Text) (a : AllNamed views Inv state.stores) where
  open env use {avro, schemas}

  abbrev Between : {A : Type 0} → Option Bytes → Option Bytes → Coroutine (Shared env) A → Type 0
  Between x y t = Keeps env views Inv cache name k (OneOf x y) t

  remove_task-Between :
      (key : Text) (stores : List (Text × Cache W)) (x : Option Bytes)
      → AllNamed views Inv stores
      → Between x (if text_eq key k then none else x) (remove_task env state key stores)
  unfolding remove_task
  remove_task-Between key [] x a = tt
  remove_task-Between key ((n, c) ∷ rest) x (a, others) =
      let P = OneOf x (if text_eq key k then none else x) in
      Keeps-bind env views Inv cache name k P (once (on_world env (c.remove key))) _
        (Keeps-once env views Inv cache name k P (on_world env (c.remove key)) λ s g p. (
          (a.store.remove_Inv key s.world g.0, g.1),
          ground (
            arith,
            p,
            attempt views Inv name k n key none s.world (c.remove key s.world).1
                (λ e. a.remove_frame key s.world name g.0 e)
                (Outcome-either _ _ (c.remove key s.world).0 (a.store.remove_lem key s.world g.0)
                  (λ o w. inr w.1)),
          ),
        ))
        (λ o. remove_task-Between key rest x others)

  route-Between :
      (schema : avro.Schema) (key : Option Bytes) (payload : Bytes) (before : Shows)
      → Between
          (before name k)
          (routed
            (lookup (full_name env state schema) state.schema_to_store)
            (key_text env state key)
            payload
            before
            name
            k)
          (once (route_name env state (full_name env state schema) key payload))
  route-Between schema key payload before =
      let target = lookup (full_name env state schema) state.schema_to_store in
      let key' = key_text env state key in
      Keeps-once env views Inv cache name k
        (OneOf (before name k) (routed target key' payload before name k))
        (route_name env state (full_name env state schema) key payload)
        λ s g p. (
          route_name-Good env state views Inv cache name k (full_name env state schema) key payload
              s a g,
          routed-OneOf env state views Inv cache name k a target key' payload
              (λ n j. views n s.world j) before _ p
              (route_name-attempt env state views Inv cache name k a (full_name env state schema)
                key payload s g.0),
        )

  update_task-Between :
      (id : ℕ) (key : Option Bytes) (payload : Bytes) (before : Shows)
      → Between
          (before name k)
          (routed (target_of env state cache id) (key_text env state key) payload before name k)
          (update_task env state id key payload)
  unfolding update_task
  update_task-Between id key payload before = λ s g p. (
    g,
    p,
    rw g.1 (elim (Option-cases (schemas.get cache id)) [
      | inl f ↦ rw f tt
      | inr (schema, f) ↦ rw f (
          subst
            (λ t.
              Between (before name k) (routed t (key_text env state key) payload before name k)
                (once (route_name env state (full_name env state schema) key payload)))
            (rw (target_of, f) refl) (route-Between schema key payload before))
    ]),
  )

  tombstone_task-Between :
      (key : Option Bytes) (before : Shows)
      → Between
          (before name k)
          (emptied (key_text env state key) before name k)
          (tombstone_task env state key)
  unfolding tombstone_task
  tombstone_task-Between key before = elim (Option-cases (key_text env state key)) [
    | inl e ↦ rw (e, tombstone_task) tt
    | inr (j, e) ↦
        rw (e, tombstone_task)
          (λ s g p. (g, p, remove_task-Between j state.stores (before name k) a))
  ]

  ensure_task-Between :
      (id : ℕ) (x y : Option Bytes)
      → is_some (schemas.get cache id) ≡ true
      → Between x y (ensure_task env state id)
  unfolding ensure_task
  ensure_task-Between id x y h = λ s g p. (g, p, rw (g.1, schemas.contains_lem cache id, h) tt)

  process_task-Between :
      (m : Message) (before : Shows)
      → IsCached env state cache m
      → Between (before name k) (effect env state cache m before name k) (process_task env state m)
  unfolding process_task
  process_task-Between m before c = elim (Option-cases m.payload) [
    | inl e ↦ rw (e, process_task, effect) (tombstone_task-Between m.key before)
    | inr (payload, e) ↦ elim (BytesResult-cases (avro.get_bytes_result (some payload))) [
      | inl (id, rest, v) ↦
          rw (e, process_task, effect)
            (rw (v, process_task, effect)
              (Keeps-bind env views Inv cache name k
                (OneOf (before name k) (
                  routed (target_of env state cache id) (key_text env state m.key) payload before
                    name k))
                (ensure_task env state id) _
                (ensure_task-Between id (before name k) _
                  (rw (v, IsCached) at (rw (e, IsCached) at c)))
                (λ u. update_task-Between id m.key payload before)))
      | inr (inl v) ↦ rw (e, process_task, effect) (rw (v, process_task, effect) tt)
      | inr (inr (b, v)) ↦ rw (e, process_task, effect) (rw (v, process_task, effect) tt)
    ]
  ]

  -- While the stream is consumed, the cell has what the effects of one of its prefixes leave.
  pub consume_task-Stays :
      (P : Option Bytes → Type 0) (stream : List (Result Text Message)) (before : Shows)
      → member text_eq name (names state.stores) ≡ true
      → AllCached env state cache stream
      → ((n : ℕ) → P (replayed env state cache (take n stream) before name k))
      → Stays env views Inv cache name k P (consume_task env state stream) (before name k)
  unfolding consume_task
  consume_task-Stays P [] before here c h = h 0
  consume_task-Stays P (ok m ∷ stream) before here c h =
      let after = effect env state cache m before in
      Stays-bind env views Inv cache name k P (process_task env state m) _ (before name k)
        (after name k)
        (Keeps-Stays env views Inv cache name k (OneOf (before name k) (after name k)) P
          (process_task env state m) (before name k)
          (λ v p. elim p [ inl e ↦ subst P (sym e) (h 0) | inr e ↦ subst P (sym e) (h 1) ])
          (process_task-Between m before c.0) (inl refl))
        (process_task-Leads env state views Inv cache name k a here m before c.0)
        (λ u. consume_task-Stays P stream after here c.1 (λ n. h (suc n)))
  consume_task-Stays P (err x ∷ stream) before here c h = h 0
