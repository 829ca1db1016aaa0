-- ===== src/Traffic/Attempts.antt =====
-- consumer.rs, `start_consumer`: attempts at writes, and what they may make of a cell.
use push_cache.Base.{
  ◌≡◌, refl, ◌⊎◌, inl, inr, true, false, Option, none, some, Text, Bytes, text_eq, text_eq_iff,
  arith, Option-cases, Bool-cases,
}
use mathlib.Core.Path.{subst}
use push_cache.Crates.Wire.{Env}
use push_cache.Cache.Contract.{View, Same, Written, put, Outcome-either}
use push_cache.State.{MyState, Shared, lookup}
use push_cache.State.Stores.{IsNamed, AllNamed, lookup-All}
use push_cache.Consumer.{key_text, route_name, store_record}
use push_cache.Consumer.Effect.{Shows, routed}

module _ {W : Type 0} (views : Text → View W) (Inv : W → Type 0) (name k : Text) where
  -- An attempt at a write of `key` in the store `n` leaves the cell as it is, or is the write of it.
  pub attempt :
      (n key : Text) (o : Option Bytes) (w w' : W)
      → (text_eq n name ≡ false → Same (views name) w w')
      → Same (views n) w w' ⊎ Written (views n) key o w w'
      → (views name w' k ≡ views name w k)
        ⊎ ((text_eq name n ≡ true) × (views name w' k ≡ put key o (views name w) k))
  attempt n key o w w' frame done = elim (Bool-cases (text_eq n name)) [
    | inr e ↦ inl (frame e k)
    | inl e ↦
        let same : n ≡ name = (text_eq_iff n name).0 e in
        elim (subst (λ m. Same (views m) w w' ⊎ Written (views m) key o w w') same done) [
          | inl kept ↦ inl (kept k)
          | inr written ↦ inr (ground (arith, same, text_eq_iff name n), written k)
        ]
  ]

abbrev pub OneOf : Option Bytes → Option Bytes → Option Bytes → Type 0
OneOf x y v = (v ≡ x) ⊎ (v ≡ y)

module _ {W : Type 0} (env : Env W) (state : MyState W) (views : Text → View W) (Inv : W → Type 0)
    (cache : env.schemas.Map) (name k : Text) (a : AllNamed views Inv state.stores) where
  open env use {avro, schemas}

  -- An attempt at the insertion that a name of a schema leads to.
  pub route_name-attempt :
      (schema_name : Text) (key : Option Bytes) (payload : Bytes) (s : Shared env)
      → Inv s.world
      → let s' = (route_name env state schema_name key payload s).1 in
        OneOf
          (views name s.world k)
          (routed
            (lookup schema_name state.schema_to_store)
            (key_text env state key)
            payload
            (λ n j. views n s.world j)
            name
            k)
          (views name s'.world k)
  unfolding route_name store_record
  route_name-attempt schema_name key payload s i =
      elim (Option-cases (lookup schema_name state.schema_to_store)) [
        | inl e ↦ rw (e, route_name) (inl refl)
        | inr (target, e) ↦ elim (Option-cases (lookup target state.stores)) [
          | inl f ↦ rw (e, f, route_name) (inl refl)
          | inr (c, f) ↦ elim (Option-cases (key_text env state key)) [
            | inl h ↦ rw (e, f, route_name) (rw (h, store_record) (inl refl))
            | inr (j, h) ↦
                let named = lookup-All (IsNamed views Inv) target state.stores a f in
                rw (e, f, route_name)
                  (rw (h, store_record)
                    (ground (
                      arith,
                      attempt views Inv name k target j (some payload) s.world
                          (c.insert j payload s.world).1
                          (λ e. named.insert_frame j payload s.world name i e)
                          (Outcome-either _ _ (c.insert j payload s.world).0
                            (named.store.insert_lem j payload s.world i) (λ u w. inr w)),
                    )))
          ]
        ]
      ]

  -- A write of a cell that has one of the two values.
  pub routed-OneOf :
      (target key : Option Text) (payload : Bytes) (f before : Shows) (v : Option Bytes)
      → OneOf (before name k) (routed target key payload before name k) (f name k)
      → OneOf (f name k) (routed target key payload f name k) v
      → OneOf (before name k) (routed target key payload before name k) v
  routed-OneOf none key payload f before v p q = ground (arith, p, q)
  routed-OneOf (some target) none payload f before v p q = ground (arith, p, q)
  routed-OneOf (some target) (some j) payload f before v p q = ground (arith, p, q)
