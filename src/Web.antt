-- ===== src/Web.antt =====
-- rust-container/src/webserver/mod.rs: the handlers of the records' API. An extractor of `axum` has
-- run already: a handler has the key of the path, the parameters of the query, or the body.
pub mod Response
pub mod Mounts
pub mod Served
pub mod Mounted
pub mod Records
pub mod Listing
pub mod Misses
pub mod ByBody
use push_cache.Base.{
  ℕ, ◌+◌, ◌-◌, ◌^◌, ◌*◌, ◌≡◌, Bool, true, false, not, Option, none, some, List, [], ◌∷◌, ◌++◌, Text,
  Bytes, codes, contains, sort, retain, take, drop, length, ltb, ◌==◌, if◌then◌else◌,
}
use push_cache.Base.Decimal.{decimal}
use push_cache.Error.{
  MyError, message, bad_request, not_found, avro_error, invalid_header_value, Result, ok, err, Act,
  pure, raise, lift, map_err, ok_or, ◌>>=◌, ◌>>◌,
}
use push_cache.Crates.Wire.{Env, BytesResult, null, valid, invalid, JsonKind, string, number, other}
use push_cache.Cache.{Cache}
use push_cache.State.{MyState, Shared, on_world}

-- `ListUsersParams`.
pub record ListUsersParams : Type 0 where
  pub limit : Option ℕ
  pub offset : Option ℕ
  pub filter : Option Text

abbrev pub usize_max : ℕ
usize_max = 2 ^ 64 - 1

-- What `list_records` makes of the keys.
unfoldable pub filtered : Option Text → List Text → List Text
filtered none keys = keys
filtered (some filter) keys = retain (contains filter) keys

abbrev pub unwrap_or {ℓ} : {A : Type ℓ} → A → Option A → A
unwrap_or d none = d
unwrap_or d (some a) = a

unfoldable pub page : ListUsersParams → List Text → List Text
unfolding filtered
page params keys =
    take (unwrap_or usize_max params.limit)
      (drop (unwrap_or 0 params.offset) (sort (filtered params.filter keys)))

-- `body[0]`, of a body that is not empty.
abbrev pub first_byte : Bytes → ℕ
first_byte [] = 0
first_byte (b ∷ bs) = b

-- What a handler answers with: the status, the headers that it sets, and the JSON body.
pub data Body (Json : Type 0) : Type 0 where
  id : Text → Body Json
  bytes : Bytes → Body Json
  texts : List Text → Body Json
  json : Json → Body Json

pub record Reply (Json : Type 0) : Type 0 where
  pub status : ℕ
  pub headers : List (Text × Text)
  pub body : Body Json

module _ {W : Type 0} (env : Env W) where
  open env use {metrics, avro, schemas}

  -- `RouteState`: the shared state and the store of the route.
  pub record RouteState : Type 0 where
    pub global : MyState W
    pub store : Cache W

  abbrev pub Handler : Type 0
  Handler = Act (Shared env) (Reply avro.Json)

  -- The schema's id, bytes 1 to 4, is only logged.
  unfoldable pub create_record : RouteState → Text → Bytes → Handler
  create_record state key body =
      if ltb (length body) 5
      then raise (message (codes "Payload too short"))
      else if not (first_byte body == 0)
      then raise (message (codes "Invalid Magic Byte"))
      else do
        on_world env (state.store.insert key body)
        pure (record { status = 201; headers = []; body = id key })

  unfoldable pub delete_record : RouteState → Text → Handler
  delete_record state account_id = do
    removed ← on_world env (state.store.remove account_id)
    elim removed [
      | some customer ↦ pure (record { status = 200; headers = []; body = bytes customer })
      | none ↦ raise (not_found (codes "User not found"))
    ]

  unfoldable pub list_records : RouteState → ListUsersParams → Handler
  list_records state params = do
    keys ← on_world env state.store.keys
    pure (record { status = 200; headers = []; body = texts (page params keys) })

  -- `ok_or_else` on a missing record counts the miss.
  unfoldable pub or_miss : Option Bytes → Act (Shared env) Bytes
  or_miss none s = (
    err (not_found (codes "User not found in dynamic cache")),
    record s { requests_miss = metrics.count_up s.requests_miss },
  )
  or_miss (some payload) s = (ok payload, s)

  unfoldable pub wire_parts : BytesResult → Result MyError (ℕ × Bytes)
  wire_parts (valid msg_id rest) = ok (msg_id, rest)
  wire_parts null = err (message (codes "Invalid Avro message format"))
  wire_parts (invalid b) = err (message (codes "Invalid Avro message format"))

  unfoldable pub schema_of : ℕ → Act (Shared env) avro.Schema
  schema_of msg_id s =
      (ok_or (not_found (codes "Schema not found in cache")) (schemas.get s.schema_cache msg_id), s)

  unfoldable pub retrieve_record_logic : RouteState → Text → Handler
  unfolding or_miss wire_parts schema_of
  retrieve_record_logic state key = do
    found ← on_world env (state.store.get key)
    payload ← or_miss found
    parts ← lift (wire_parts (avro.get_bytes_result (some payload)))
    schema ← schema_of parts.0
    avro_value ← lift (map_err avro_error (avro.from_avro_datum schema parts.1))
    json_value ← lift (map_err avro_error (avro.from_value avro_value))
    max_age ← lift (
        map_err invalid_header_value
          (env.parse_header (codes "public, max-age=" ++ decimal state.global.cache_max_age)))
    pure (record {
      status = 200;
      headers = (codes "Cache-Control", max_age) ∷ [];
      body = json json_value;
    })

  -- `get_record`.
  unfoldable pub get_record : RouteState → Text → Handler
  unfolding retrieve_record_logic
  get_record state account_id = retrieve_record_logic state account_id

  -- The key that a JSON body names: a text, or a number as it prints.
  unfoldable pub body_key : Text → avro.Json → Result MyError Text
  body_key key_field body = elim (avro.json_get body key_field) [
    | none ↦ err (bad_request (codes "Missing key '" ++ (key_field ++ codes "' in body")))
    | some value ↦ elim (avro.json_kind value) [
      | string s ↦ ok s
      | number n ↦ ok n
      | other ↦
          err (bad_request (codes "Key '" ++ (key_field ++ codes "' must be a string or number")))
    ]
  ]

  -- `get_record_by_body`, the `key_field` of `BodyRouteState` an argument.
  unfoldable pub get_record_by_body : RouteState → Text → avro.Json → Handler
  unfolding retrieve_record_logic
  get_record_by_body state key_field body = do
    key ← lift (body_key key_field body)
    retrieve_record_logic state key
