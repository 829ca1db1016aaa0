-- ===== src/Tests/Fixtures.antt =====
-- Two in-memory stores, a registry that cannot be reached, and records whose value is their payload.
use push_cache.Base.{
  ℕ, zero, false, Option, none, some, [], ◌∷◌, Text, Bytes, codes, text_eq, if◌then◌else◌, ◌==◌,
}
use push_cache.Error.{ok}
use push_cache.Crates.Models.{plain_metrics, text_map, number_map}
use push_cache.Crates.Wire.{BytesResult, null, valid, invalid, string, Avro, Env}
use push_cache.Cache.{Cache}
use push_cache.Cache.Contract.{View}
use push_cache.Cache.Memory.{Memory, in_memory_cache}
use push_cache.Cache.Memory.Laws.{contents}
use push_cache.Consumer.{Message}
use push_cache.State.{MyState, Shared}
use push_cache.Web.{RouteState}
use push_cache.Tests.Offline.{no_http}

abbrev pub World : Type 0
World = Memory (text_map Bytes) plain_metrics

abbrev pub frame : Bytes → BytesResult
frame [] = null
frame (zero ∷ a ∷ b ∷ c ∷ d ∷ rest) = valid d rest
frame (x ∷ rest) = invalid rest

abbrev pub wire_of : Option Bytes → BytesResult
wire_of none = null
wire_of (some b) = frame b

abbrev pub plain_avro : Avro
plain_avro = record {
  Schema = Text;
  Value = Bytes;
  Json = Text;
  parse_str = λ t. ok t;
  record_name = λ s. some s;
  from_avro_datum = λ s b. ok b;
  from_value = λ v. ok v;
  get_bytes_result = wire_of;
  json_get = λ j f. some j;
  json_kind = λ j. string j;
}

abbrev pub env : Env World
env = record {
  metrics = plain_metrics;
  avro = plain_avro;
  schemas = number_map Text;
  http = no_http;
  parse_header = λ t. ok t;
}

abbrev pub users : Text
users = codes "users"

abbrev pub orders : Text
orders = codes "orders"

abbrev pub store : ℕ → Cache World
store i = in_memory_cache (text_map Bytes) plain_metrics i

abbrev pub state : MyState World
state = record {
  stores = (users, store 0) ∷ (orders, store 1) ∷ [];
  routes = [];
  schema_to_store = (codes "User", users) ∷ [];
  schema_registry_url = codes "http://registry/";
  cache_max_age = 60;
  force_reset_earliest = false;
  base_path = [];
}

abbrev pub empty_world : World
empty_world = record { maps = λ i. []; cache_size = 0 }

-- Schema 7 is the record `User`.
abbrev pub start : Shared env
start = record {
  world = empty_world;
  schema_cache = (7, codes "User") ∷ [];
  requests_miss = 0;
  tombstones_processed = 0;
  schema_unrouted_count = 0;
  consumer_lag = 0;
  startup_lag_cleared = false;
}

abbrev pub ada : Text
ada = codes "ada"

-- A payload in the wire format, with schema 7.
abbrev pub body : Bytes
body = 0 ∷ 0 ∷ 0 ∷ 0 ∷ 7 ∷ 42 ∷ []

-- One record, in the store `users`.
abbrev pub full_world : World
full_world = record { maps = λ i. if i == 0 then (ada, body) ∷ [] else []; cache_size = 1 }

abbrev pub full : Shared env
full = record start { world = full_world }

abbrev pub put_ada : Message
put_ada = record { key = some ada; payload = some body }

abbrev pub drop_ada : Message
drop_ada = record { key = some ada; payload = none }

abbrev pub views : Text → View World
views name w k =
    if text_eq name users
    then contents (text_map Bytes) plain_metrics 0 w k
    else if text_eq name orders
    then contents (text_map Bytes) plain_metrics 1 w k
    else none

abbrev pub route : RouteState env
route = record { global = state; store = store 0 }
