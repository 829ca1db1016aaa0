-- ===== src/Web/Records.antt =====
-- webserver/mod.rs: the handlers of one record, over a store that meets the contract.
use push_cache.Base.{
  ◌≤◌, ◌≡◌, refl, ap, ◌∙◌, ◌⊎◌, inl, inr, true, false, Option, none, some, [], ◌∷◌, ◌++◌, Text,
  Bytes, codes, length, ltb, ◌==◌, text_eq_refl, arith, Bool-cases,
}
use push_cache.Base.Decimal.{decimal}
use push_cache.Error.{
  MyError, message, not_found, avro_error, invalid_header_value, Result, ok, err, map_err, ok_or,
  continue, pure, ◌>>◌,
}
use push_cache.Crates.Wire.{Env}
use push_cache.Cache.Contract.{View, IsStore, Same, Written, Outcome-ok}
use push_cache.State.{Shared, on_world}
use push_cache.Web.Response.{error_status}
use push_cache.Web.{
  RouteState, Reply, id, json, first_byte, create_record, wire_parts, retrieve_record_logic,
  get_record,
}

-- A chain of results.
abbrev pub and_then {ℓ κ} :
    {A : Type ℓ} {B : Type κ} → Result MyError A → (A → Result MyError B) → Result MyError B
and_then (ok a) f = f a
and_then (err e) f = err e

-- A body in the wire format: a magic byte, four bytes of a schema's id, and data.
abbrev pub IsFramed : Bytes → Type 0
IsFramed body = (5 ≤ length body) × (first_byte body ≡ 0)

module _ {W : Type 0} (env : Env W) (state : RouteState env) where
  open env use {metrics, avro, schemas}

  -- The reply to a record in the wire format, by the schemas in the cache.
  abbrev pub decoded : schemas.Map → Bytes → Result MyError (Reply avro.Json)
  decoded cache payload = and_then (wire_parts env (avro.get_bytes_result (some payload))) λ parts.
      and_then (ok_or (not_found (codes "Schema not found in cache")) (schemas.get cache parts.0))
        λ schema. and_then (map_err avro_error (avro.from_avro_datum schema parts.1)) λ value.
          and_then (map_err avro_error (avro.from_value value)) λ json_value.
            and_then
              (map_err invalid_header_value
                (env.parse_header (codes "public, max-age=" ++ decimal state.global.cache_max_age)))
              λ max_age. ok (record {
                status = 200;
                headers = (codes "Cache-Control", max_age) ∷ [];
                body = json json_value;
              })

  abbrev pub miss : Result MyError (Reply avro.Json)
  miss = err (not_found (codes "User not found in dynamic cache"))

  pub retrieve-ok :
      (k : Text) (s : Shared env) (payload : Bytes)
      → (state.store.get k s.world).0 ≡ ok (some payload)
      → (retrieve_record_logic env state k s).0 ≡ decoded s.schema_cache payload
  unfolding retrieve_record_logic
  retrieve-ok k s payload h = ground arith

  pub retrieve-miss :
      (k : Text) (s : Shared env)
      → (state.store.get k s.world).0 ≡ ok none
      → retrieve_record_logic env state k s ≡ (
        miss,
        record s {
          world = (state.store.get k s.world).1;
          requests_miss = metrics.count_up s.requests_miss;
        },
      )
  unfolding retrieve_record_logic
  retrieve-miss k s h = ground arith

  create-framed :
      (k : Text) (body : Bytes) (s : Shared env)
      → IsFramed body
      → create_record env state k body s
        ≡ (on_world env (state.store.insert k body)
              >> pure (record { status = 201; headers = []; body = id k }))
            s
  unfolding create_record
  create-framed k body s f =
      let long : ltb (length body) 5 ≡ false = ground arith in
      let magic : (first_byte body == 0) ≡ true = ground arith in rw long (rw magic refl)

  -- A POST of a body that is shorter than five bytes or does not begin with a zero changes nothing,
  -- neither in the store nor in the shared state, and fails with an error whose status is 500.
  pub create-refused :
      (k : Text) (body : Bytes) (s : Shared env)
      → ¬ IsFramed body
      → ((create_record env state k body s).1 ≡ s)
        × ((msg : Text) × ((create_record env state k body s).0 ≡ err (message msg))
            × (error_status (message msg) ≡ (500, msg)))
  unfolding create_record error_status
  create-refused k body s n = elim (Bool-cases (ltb (length body) 5)) [
    | inl short ↦ rw short (refl, (codes "Payload too short", refl, refl))
    | inr long ↦
        let magic : (first_byte body == 0) ≡ false = ground arith in
        rw long (rw magic (refl, (codes "Invalid Magic Byte", refl, refl)))
  ]

  module _ (view : View W) (Inv : W → Type 0) (c : IsStore state.store view Inv) where
    -- An answer of the store is its view.
    pub get-answer :
        (k : Text) (w : W) {o : Option Bytes}
        → Inv w
        → (state.store.get k w).0 ≡ ok o
        → o ≡ view w k
    get-answer k w i h = Outcome-ok (λ o. o ≡ view w k) (Unit {0}) h (c.get_lem k w i).1

    insert-answer :
        (k : Text) (v : Bytes) (w : W)
        → Inv w
        → (state.store.insert k v w).0 ≡ ok tt
        → Written view k (some v) w (state.store.insert k v w).1
    insert-answer k v w i h =
        let w' = (state.store.insert k v w).1 in
        Outcome-ok (λ _. Written view k (some v) w w')
          (Same view w w' ⊎ Written view k (some v) w w') h (c.insert_lem k v w i)

    pub remove-answer :
        (k : Text) (w : W) {o : Option Bytes}
        → Inv w
        → (state.store.remove k w).0 ≡ ok o
        → (o ≡ view w k) × Written view k none w (state.store.remove k w).1
    remove-answer k w i h =
        let w' = (state.store.remove k w).1 in
        Outcome-ok (λ o. (o ≡ view w k) × Written view k none w w')
          (Same view w w' ⊎ Written view k none w w') h (c.remove_lem k w i)

    -- For a store that meets the contract, if a body in the wire format is posted under a key, the
    -- store does the insertion without an error, and it then answers a GET of the key, then the
    -- POST replies with 201 and the key, the GET replies with that body as decoded by the cached
    -- schemas, and of the store's view only this key has changed, to the body, whatever it held
    -- before.
    pub get-create :
        (k : Text) (body : Bytes) (s : Shared env) {o : Option Bytes}
        → Inv s.world
        → IsFramed body
        → (state.store.insert k body s.world).0 ≡ ok tt
        → (state.store.get k (create_record env state k body s).1.world).0 ≡ ok o
        → let s' = (create_record env state k body s).1 in
          ((create_record env state k body s).0
            ≡ ok (record { status = 201; headers = []; body = id k }))
          × ((get_record env state k s').0 ≡ decoded s.schema_cache body)
          × Written view k (some body) s.world s'.world
    unfolding get_record
    get-create k body s {o} i framed inserted answered =
        let t : Shared env = record s { world = (state.store.insert k body s.world).1 } in
        let reply : Reply avro.Json = record { status = 201; headers = []; body = id k } in
        let whole : create_record env state k body s ≡ (ok reply, t) =
          create-framed k body s framed ∙ ap (λ r. continue r (λ _. pure reply) t) inserted in
        let written = insert-answer k body s.world i inserted in
        let got : (state.store.get k t.world).0 ≡ ok o = rw whole at answered in
        let seen : o ≡ some body =
          get-answer k t.world (c.insert_Inv k body s.world i) got
          ∙ written k
          ∙ ground (arith, text_eq_refl k) in
        rw whole (refl, retrieve-ok k t body (got ∙ ap ok seen), written)
