-- ===== src/Consumer.antt =====
-- rust-container/src/consumer.rs: what `start_consumer` does with each message of the stream.
pub mod Stats
pub mod Ready
pub mod Rebalance
pub mod Effect
pub mod Routing
pub mod Replay
pub mod Faults
pub mod Fresh
pub mod Registry
pub mod Fetching
pub mod Start
use push_cache.Base.{
  ℕ, Bool, true, false, not, Option, none, some, List, [], ◌∷◌, Text, Bytes, codes, from_utf8,
  if◌then◌else◌,
}
use push_cache.Error.{MyError, kafka_error, Result, ok, err, Act, pure, raise, ◌>>=◌, ◌>>◌}
use push_cache.Crates.Wire.{Env, BytesResult, null, valid, invalid}
use push_cache.Cache.{Cache}
use push_cache.State.{MyState, Shared, on_world, lookup}
use push_cache.Kafka.{fetch_schema_by_id}

-- What the consumer reads of a `BorrowedMessage`.
pub record Message : Type 0 where
  pub key : Option Bytes
  pub payload : Option Bytes

module _ {W : Type 0} (env : Env W) (state : MyState W) where
  open env use {metrics, avro, schemas}

  -- A schema that is not in the cache is fetched; a fetch that fails is logged and passed over.
  unfoldable pub ensure_schema : ℕ → Act (Shared env) (Unit {0})
  ensure_schema id s =
      if not (schemas.contains_key s.schema_cache id)
      then (let (r, w) = fetch_schema_by_id env.http avro state.schema_registry_url id s.world in
          elim r [
            | ok schema ↦ (
              ok tt,
              record s { world = w; schema_cache = (schemas.insert s.schema_cache id schema).1 },
            )
            | err e ↦ (ok tt, record s { world = w })
          ])
      else (ok tt, s)

  -- The name that a schema is routed by: of what is no record it is the empty text.
  abbrev pub full_name : avro.Schema → Text
  full_name schema = elim (avro.record_name schema) [ some name ↦ name | none ↦ [] ]

  -- The key of a message, if it has one that is UTF-8.
  abbrev pub key_text : Option Bytes → Option Text
  key_text none = none
  key_text (some bytes) = from_utf8 bytes

  -- The insertion into the store that was found; the whole payload is stored.
  unfoldable pub store_record :
      Option (Cache W) → Option Bytes → Bytes → Act (Shared env) (Unit {0})
  store_record none key payload = pure tt
  store_record (some store) key payload = elim (key_text key) [
    | none ↦ pure tt
    | some k ↦ on_world env (store.insert k payload)
  ]

  -- From the name of the schema to the store.
  unfoldable pub route_name : Text → Option Bytes → Bytes → Act (Shared env) (Unit {0})
  unfolding store_record
  route_name name key payload = elim (lookup name state.schema_to_store) [
    | some store_name ↦ store_record (lookup store_name state.stores) key payload
    | none ↦
        λ s. (ok tt, record s { schema_unrouted_count = metrics.count_up s.schema_unrouted_count })
  ]

  unfoldable pub update_store : ℕ → Option Bytes → Bytes → Act (Shared env) (Unit {0})
  unfolding route_name
  update_store id key payload s = elim (schemas.get s.schema_cache id) [
    | none ↦ (ok tt, s)
    | some schema ↦ route_name (full_name schema) key payload s
  ]

  -- The loop of a tombstone over `stores.values()`.
  unfoldable pub remove_all : Text → List (Text × Cache W) → Act (Shared env) (Unit {0})
  remove_all key [] = pure tt
  remove_all key ((name, store) ∷ rest) = do on_world env (store.remove key); remove_all key rest

  unfoldable pub tombstone : Option Bytes → Act (Shared env) (Unit {0})
  unfolding remove_all
  tombstone key s = elim (key_text key) [
    | none ↦ (ok tt, s)
    | some k ↦
        remove_all k state.stores
          (record s { tombstones_processed = metrics.count_up s.tombstones_processed })
  ]

  -- The closure that `try_for_each` runs on a message.
  unfoldable pub process : Message → Act (Shared env) (Unit {0})
  unfolding ensure_schema update_store tombstone
  process m = elim m.payload [
    | some payload ↦ elim (avro.get_bytes_result (some payload)) [
      | valid id rest ↦ ensure_schema id >> update_store id m.key payload
      | null ↦ pure tt
      | invalid b ↦ pure tt
    ]
    | none ↦ tombstone m.key
  ]

  -- `try_for_each` over what the stream yields: the first error ends it.
  unfoldable pub consume : List (Result Text Message) → Act (Shared env) (Unit {0})
  consume [] = pure tt
  consume (ok m ∷ stream) = process m >> consume stream
  consume (err e ∷ stream) = raise (kafka_error e)
