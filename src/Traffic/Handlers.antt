-- ===== src/Traffic/Handlers.antt =====
-- webserver/mod.rs: the handlers as tasks, a call for each access to the store of the route or to the
-- fields of the state that change. What does neither is done between two calls.
use push_cache.Base.{
  ◌≡◌, refl, not, Option, none, some, [], ◌∷◌, ◌++◌, Text, Bytes, codes, length, ltb, ◌==◌,
  if◌then◌else◌, inl, inr, arith,
}
use push_cache.Base.Decimal.{decimal}
use push_cache.Error.{message, not_found, avro_error, invalid_header_value, map_err, Result-cases}
use push_cache.Crates.Wire.{Env}
use push_cache.State.{on_world, Shared}
use push_cache.Web.{
  RouteState, Handler, ListUsersParams, Reply, id, bytes, texts, json, first_byte, page, or_miss,
  wire_parts, schema_of, body_key, create_record, delete_record, list_records,
  retrieve_record_logic, get_record, get_record_by_body,
}
use push_cache.Traffic.{Coroutine, finished, once, done, fails, alone, ◌>>=◌, ◌>>◌}

module _ {W : Type 0} (env : Env W) where
  open env use {metrics, avro, schemas}

  abbrev pub Answer : Type 1
  Answer = Coroutine (Shared env) (Reply avro.Json)

  unfoldable pub create_task : RouteState env → Text → Bytes → Answer
  create_task state key body =
      if ltb (length body) 5
      then fails (message (codes "Payload too short"))
      else if not (first_byte body == 0)
      then fails (message (codes "Invalid Magic Byte"))
      else do
        once (on_world env (state.store.insert key body))
        done (record { status = 201; headers = []; body = id key })

  abbrev pub removed_reply : Option Bytes → Answer
  removed_reply (some customer) =
      done (record { status = 200; headers = []; body = bytes customer })
  removed_reply none = fails (not_found (codes "User not found"))

  unfoldable pub delete_task : RouteState env → Text → Answer
  delete_task state account_id = do
    removed ← once (on_world env (state.store.remove account_id))
    removed_reply removed

  unfoldable pub list_task : RouteState env → ListUsersParams → Answer
  list_task state params = do
    keys ← once (on_world env state.store.keys)
    done (record { status = 200; headers = []; body = texts (page params keys) })

  -- What is done with a payload that was found.
  abbrev pub payload_task : RouteState env → Bytes → Answer
  payload_task state payload = do
    parts ← finished (wire_parts env (avro.get_bytes_result (some payload)))
    schema ← once (schema_of env parts.0)
    avro_value ← finished (map_err avro_error (avro.from_avro_datum schema parts.1))
    json_value ← finished (map_err avro_error (avro.from_value avro_value))
    max_age ← finished (
        map_err invalid_header_value
          (env.parse_header (codes "public, max-age=" ++ decimal state.global.cache_max_age)))
    done (record {
      status = 200;
      headers = (codes "Cache-Control", max_age) ∷ [];
      body = json json_value;
    })

  unfoldable pub retrieve_task : RouteState env → Text → Answer
  retrieve_task state key = do
    found ← once (on_world env (state.store.get key))
    payload ← once (or_miss env found)
    payload_task state payload

  unfoldable pub by_body_task : RouteState env → Text → avro.Json → Answer
  unfolding retrieve_task
  by_body_task state key_field body = do
    key ← finished (body_key env key_field body)
    retrieve_task state key

  create_task-alone :
      (state : RouteState env) (key : Text) (body : Bytes) (s : Shared env)
      → alone (create_task state key body) s ≡ create_record env state key body s
  unfolding alone create_record create_task
  create_task-alone state key body s = ground arith

  delete_task-alone :
      (state : RouteState env) (key : Text) (s : Shared env)
      → alone (delete_task state key) s ≡ delete_record env state key s
  unfolding alone delete_record delete_task
  delete_task-alone state key s = ground arith

  list_task-alone :
      (state : RouteState env) (params : ListUsersParams) (s : Shared env)
      → alone (list_task state params) s ≡ list_records env state params s
  unfolding alone list_records list_task
  list_task-alone state params s = ground arith

  retrieve_task-alone :
      (state : RouteState env) (key : Text) (s : Shared env)
      → alone (retrieve_task state key) s ≡ retrieve_record_logic env state key s
  unfolding alone retrieve_record_logic retrieve_task
  retrieve_task-alone state key s = ground arith

  by_body_task-alone :
      (state : RouteState env) (key_field : Text) (body : avro.Json) (s : Shared env)
      → alone (by_body_task state key_field body) s ≡ get_record_by_body env state key_field body s
  unfolding by_body_task get_record_by_body
  by_body_task-alone state key_field body s = elim (Result-cases (body_key env key_field body)) [
    | inl (key, e) ↦ rw e (retrieve_task-alone state key s)
    | inr (x, e) ↦ rw e (unfold alone in refl)
  ]

-- A request that has reached a handler, with the name of the route's store.
pub data Request (Json : Type 0) : Type 0 where
  get : Text → Text → Request Json
  get_by_body : Text → Text → Json → Request Json
  post : Text → Text → Bytes → Request Json
  delete : Text → Text → Request Json
  list : Text → ListUsersParams → Request Json

module _ {W : Type 0} (env : Env W) where
  open env use {avro}

  abbrev pub store_name : Request avro.Json → Text
  store_name (get name key) = name
  store_name (get_by_body name key_field body) = name
  store_name (post name key body) = name
  store_name (delete name key) = name
  store_name (list name params) = name

  -- The handler that a request reaches, as an action and as a task.
  unfoldable pub handler : RouteState env → Request avro.Json → Handler env
  handler state (get name key) = get_record env state key
  handler state (get_by_body name key_field body) = get_record_by_body env state key_field body
  handler state (post name key body) = create_record env state key body
  handler state (delete name key) = delete_record env state key
  handler state (list name params) = list_records env state params

  unfoldable pub handler_task : RouteState env → Request avro.Json → Answer env
  handler_task state (get name key) = retrieve_task env state key
  handler_task state (get_by_body name key_field body) = by_body_task env state key_field body
  handler_task state (post name key body) = create_task env state key body
  handler_task state (delete name key) = delete_task env state key
  handler_task state (list name params) = list_task env state params

  -- The task of a handler that no other task disturbs does what the handler does.
  pub handler_task-alone :
      (state : RouteState env) (request : Request avro.Json) (s : Shared env)
      → alone (handler_task state request) s ≡ handler state request s
  unfolding handler handler_task get_record
  handler_task-alone state (get name key) s = retrieve_task-alone env state key s
  handler_task-alone state (get_by_body name key_field body) s =
      by_body_task-alone env state key_field body s
  handler_task-alone state (post name key body) s = create_task-alone env state key body s
  handler_task-alone state (delete name key) s = delete_task-alone env state key s
  handler_task-alone state (list name params) s = list_task-alone env state params s
