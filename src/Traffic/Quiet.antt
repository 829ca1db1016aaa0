-- ===== src/Traffic/Quiet.antt =====
-- webserver/mod.rs: requests that leave a cell alone.
use push_cache.Base.{
  ◌≡◌, refl, inl, inr, false, ◌&&◌, Option, none, some, ◌++◌, Text, Bytes, codes, text_eq,
  text_eq_iff, arith, Bool-cases, length, ltb, ◌==◌, ◌⊎◌,
}
use mathlib.Core.Path.{subst}
use push_cache.Error.{Act, avro_error, invalid_header_value, map_err}
use push_cache.Base.Decimal.{decimal}
use push_cache.Crates.Wire.{Env}
use push_cache.Cache.{Cache}
use push_cache.Cache.Contract.{View, Same, Written, put, Outcome-either}
use push_cache.State.{MyState, Shared, on_world}
use push_cache.State.Stores.{IsApart}
use push_cache.Web.{
  RouteState, ListUsersParams, or_miss, wire_parts, schema_of, first_byte, body_key,
}
use push_cache.Traffic.{Coroutine, finished, once, ◌>>=◌}
use push_cache.Traffic.Handlers.{
  Request, get, get_by_body, post, delete, list, create_task, removed_reply, delete_task, list_task,
  retrieve_task, by_body_task, handler_task, store_name,
}
use push_cache.Traffic.Cell.{Good, cell, IsQuiet, IsQuiet-bind}

-- The request does not write the cell of `name` and `k`.
abbrev pub Spares : {Json : Type 0} → Text → Text → Request Json → Type 0
Spares name k (post n key body) = (text_eq name n && text_eq key k) ≡ false
Spares name k (delete n key) = (text_eq name n && text_eq key k) ≡ false
Spares name k (get n key) = Unit
Spares name k (get_by_body n key_field body) = Unit
Spares name k (list n params) = Unit

module _ {W : Type 0} (env : Env W) (views : Text → View W) (Inv : W → Type 0)
    (cache : env.schemas.Map) (name k : Text) where
  open env use {avro}

  abbrev Quiet : {A : Type 0} → Coroutine (Shared env) A → Type 0
  Quiet t = IsQuiet env views Inv cache name k t

  once-IsQuiet :
      {A : Type 0} (m : Act (Shared env) A)
      → ((s : Shared env)
          → Good env Inv cache s
          → Good env Inv cache (m s).1 × (cell env views name k (m s).1 ≡ cell env views name k s))
      → Quiet (once m)
  once-IsQuiet m h s g = let (g', same) = h s g in (g', same, tt)

  chain :
      {A B : Type 0} (t : Coroutine (Shared env) A) (f : A → Coroutine (Shared env) B)
      → Quiet t
      → ((a : A) → Quiet (f a))
      → Quiet (t >>= f)
  chain t f h rest = IsQuiet-bind env views Inv cache name k t f h rest

  or_miss-IsQuiet : (o : Option Bytes) → Quiet (once (or_miss env o))
  unfolding or_miss
  or_miss-IsQuiet none s g = (g, refl, tt)
  or_miss-IsQuiet (some v) s g = (g, refl, tt)

  removed_reply-IsQuiet : (o : Option Bytes) → Quiet (removed_reply env o)
  removed_reply-IsQuiet none = tt
  removed_reply-IsQuiet (some v) = tt

  -- The cell, if the store `n` shows the same as before and no other store is written.
  cell_kept :
      (n : Text) (w w' : W)
      → Same (views n) w w'
      → (text_eq n name ≡ false → Same (views name) w w')
      → views name w' k ≡ views name w k
  cell_kept n w w' own frame = elim (Bool-cases (text_eq n name)) [
    | inl e ↦ subst (λ m. views m w' k ≡ views m w k) ((text_eq_iff n name).0 e) (own k)
    | inr e ↦ frame e k
  ]

  -- What a store shows in the cell after an attempt at a write of another cell.
  kept_elsewhere :
      (n key : Text) (o : Option Bytes) (w w' : W)
      → (text_eq name n && text_eq key k) ≡ false
      → (text_eq n name ≡ false → Same (views name) w w')
      → Same (views n) w w' ⊎ Written (views n) key o w w'
      → views name w' k ≡ views name w k
  kept_elsewhere n key o w w' spares frame (inl same) = cell_kept n w w' same frame
  kept_elsewhere n key o w w' spares frame (inr written) = elim (Bool-cases (text_eq n name)) [
    | inl e ↦
        let same : n ≡ name = (text_eq_iff n name).0 e in
        ground (
          arith,
          subst (λ m. views m w' k ≡ put key o (views m w) k) same (written k),
          text_eq_iff name n,
        )
    | inr e ↦ frame e k
  ]

  module _ (state : MyState W) (n : Text) (c : Cache W) (apart : IsApart views Inv n c) where
    abbrev route : RouteState env
    route = record { global = state; store = c }

    retrieve_task-IsQuiet : (key : Text) → Quiet (retrieve_task env route key)
    unfolding retrieve_task schema_of
    retrieve_task-IsQuiet key =
        chain (once (on_world env (c.get key))) _
          (λ s g. (
            (apart.named.store.get_Inv key s.world g.0, g.1),
            cell_kept n s.world (c.get key s.world).1 (apart.named.store.get_lem key s.world g.0).0
                (λ e. apart.get_frame key s.world name g.0 e),
            tt,
          ))
          λ found. chain (once (or_miss env found)) _ (or_miss-IsQuiet found) λ payload.
            chain (finished (wire_parts env (avro.get_bytes_result (some payload)))) _ tt λ parts.
              chain (once (schema_of env parts.0)) _ (λ s g. (g, refl, tt))
                λ schema.
                  chain (finished (map_err avro_error (avro.from_avro_datum schema parts.1))) _ tt
                    λ value.
                      chain (finished (map_err avro_error (avro.from_value value))) _ tt
                        λ json_value.
                          chain
                            (finished (
                              map_err invalid_header_value (
                                env.parse_header
                                  (codes "public, max-age=" ++ decimal state.cache_max_age))))
                            _ tt (λ age. tt)

    by_body_task-IsQuiet :
        (key_field : Text) (body : avro.Json) → Quiet (by_body_task env route key_field body)
    unfolding by_body_task
    by_body_task-IsQuiet key_field body =
        chain (finished (body_key env key_field body)) _ tt retrieve_task-IsQuiet

    list_task-IsQuiet : (params : ListUsersParams) → Quiet (list_task env route params)
    unfolding list_task
    list_task-IsQuiet params =
        chain (once (on_world env c.keys)) _
          (λ s g. (
            (apart.named.store.keys_Inv s.world g.0, g.1),
            cell_kept n s.world (c.keys s.world).1 (apart.named.store.keys_lem s.world g.0).0
                (λ e. apart.keys_frame s.world name g.0 e),
            tt,
          ))
          (λ ks. tt)

    delete_task-IsQuiet :
        (key : Text) → (text_eq name n && text_eq key k) ≡ false → Quiet (delete_task env route key)
    unfolding delete_task
    delete_task-IsQuiet key spares =
        chain (once (on_world env (c.remove key))) _
          (λ s g. (
            (apart.named.store.remove_Inv key s.world g.0, g.1),
            kept_elsewhere n key none s.world (c.remove key s.world).1 spares
                (λ e. apart.named.remove_frame key s.world name g.0 e)
                (Outcome-either _ _ (c.remove key s.world).0
                  (apart.named.store.remove_lem key s.world g.0) (λ o w. inr w.1)),
            tt,
          ))
          removed_reply-IsQuiet

    create_task-IsQuiet :
        (key : Text) (body : Bytes)
        → (text_eq name n && text_eq key k) ≡ false
        → Quiet (create_task env route key body)
    unfolding create_task
    create_task-IsQuiet key body spares = elim (Bool-cases (ltb (length body) 5)) [
      | inl e ↦ rw (e, create_task) tt
      | inr e ↦ elim (Bool-cases (first_byte body == 0)) [
        | inr f ↦ rw (e, f, create_task) tt
        | inl f ↦
            rw (e, f, create_task)
              (chain (once (on_world env (c.insert key body))) _
                (λ s g. (
                  (apart.named.store.insert_Inv key body s.world g.0, g.1),
                  kept_elsewhere n key (some body) s.world (c.insert key body s.world).1 spares
                      (λ e. apart.named.insert_frame key body s.world name g.0 e)
                      (Outcome-either _ _ (c.insert key body s.world).0
                        (apart.named.store.insert_lem key body s.world g.0) (λ u w. inr w)),
                  tt,
                ))
                (λ u. tt))
      ]
    ]

    -- A request that does not write the cell has a handler that leaves it alone.
    pub handler_task-IsQuiet :
        (request : Request avro.Json)
        → store_name env request ≡ n
        → Spares name k request
        → Quiet (handler_task env route request)
    unfolding handler_task
    handler_task-IsQuiet (get m key) e spares = retrieve_task-IsQuiet key
    handler_task-IsQuiet (get_by_body m key_field body) e spares =
        by_body_task-IsQuiet key_field body
    handler_task-IsQuiet (post m key body) e spares = create_task-IsQuiet key body (cc)
    handler_task-IsQuiet (delete m key) e spares = delete_task-IsQuiet key (cc)
    handler_task-IsQuiet (list m params) e spares = list_task-IsQuiet params
