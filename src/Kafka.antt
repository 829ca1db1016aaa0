-- ===== src/Kafka.antt =====
-- rust-container/src/kafka_utils.rs: the brokers' address, the checks of the schema registry and of
-- the brokers, the reset of the offsets, and the fetch of a schema.
pub mod Offsets
pub mod Listed
pub mod Reset
pub mod Register
use push_cache.Base.{
  ℕ, Bool, true, false, not, ◌&&◌, ◌||◌, Option, none, some, List, [], ◌∷◌, ◌++◌, Text, String,
  codes, text_eq, ◌==◌, if◌then◌else◌, leb, ltb, map, ◌+◌, ◌-◌,
}
use push_cache.Base.Decimal.{decimal}
use push_cache.Base.Distinct.{member}
use push_cache.Error.{
  MyError, message, kafka_error, Result, ok, err, Act, pure, raise, lift, map_err, call_err, ok_or,
  message_of, ◌>>=◌, ◌>>◌,
}
use push_cache.Crates.Wire.{Avro, Http, is_success}

-- What the code reads of a `url::Url`.
pub record Url : Type 0 where
  pub host : Option Text
  pub port : Option ℕ
  pub printed : Text

unfoldable pub get_broker_string : Url → Result MyError Text
get_broker_string brokers = elim brokers.host [
  | none ↦ err (message_of "Kafka broker host not defined " brokers.printed)
  | some host ↦ elim brokers.port [
    | none ↦ err (message_of "Kafka broker port not defined " brokers.printed)
    | some port ↦ ok (host ++ codes ":" ++ decimal port)
  ]
]

-- `to_uppercase`, on the ASCII names of schema types.
abbrev pub to_uppercase : Text → Text
to_uppercase = map (λ c. if leb b'a' c && leb c b'z' then c - 32 else c)

module _ {W : Type 0} (http : Http W) where
  -- `check_schema_registry`. The argument is the URL with its path set to `/schemas/types`; the text
  -- of the list in the last message is left out.
  unfoldable pub check_schema_registry : Text → Text → Act W (Unit {0})
  check_schema_registry sr_url schema_type = do
    res ← λ w.
        call_err
          (λ e.
            message
              (codes "Failed to connect to Schema Registry at " ++ (sr_url ++ (codes ": " ++ e))))
          (http.send sr_url w)
    if not (is_success (http.status res))
        then raise (message_of "Schema Registry check failed with status: " (http.status_text res))
        else do
          schema_types ← λ w.
              call_err (message_of "Failed to parse Schema Registry response: ")
                (http.json_texts res w)
          if not (member text_eq (to_uppercase schema_type) schema_types)
              then raise (
                  message (
                    codes "Schema type "
                    ++ (schema_type ++ codes " is not supported by the Schema Registry.")))
              else pure tt

  -- `unwrap_or_default` on the body of a response that is no success.
  abbrev text_or_default : Result Text Text × W → Result MyError Text × W
  text_or_default (ok t, w) = (ok t, w)
  text_or_default (err e, w) = (ok [], w)

  module _ (avro : Avro) where
    -- The URL of a schema: there is no separator before `schemas`.
    abbrev pub schema_url : Text → ℕ → Text
    schema_url registry_url id = registry_url ++ (codes "schemas/ids/" ++ decimal id)

    unfoldable pub fetch_schema_by_id : Text → ℕ → Act W avro.Schema
    fetch_schema_by_id registry_url id = do
      response ← λ w.
          call_err
            (λ e. message (codes "Failed to fetch schema " ++ (decimal id ++ (codes ": " ++ e))))
            (http.send (schema_url registry_url id) w)
      if not (is_success (http.status response))
          then (do
            body ← λ w. text_or_default (http.text response w)
            raise (
                message (
                  codes "Schema Registry returned status "
                  ++ (http.status_text response
                      ++ (codes " for schema " ++ (decimal id ++ (codes ": " ++ body)))))))
          else do
            schema ← λ w.
                call_err (message_of "Failed to parse schema response: ")
                  (http.json_schema response w)
            lift (
                map_err
                  (λ e.
                    message (
                      codes "Failed to parse fetched schema " ++ (decimal id ++ (codes ": " ++ e))))
                  (avro.parse_str schema))

-- What the code reads of the metadata of a topic.
pub record TopicMetadata : Type 0 where
  pub name : Text
  pub error : Option Text
  pub partitions : List ℕ

-- The test of `check_kafka_metadata` on one topic.
abbrev pub usable : Text → TopicMetadata → Bool
usable topic t =
    text_eq t.name topic
    && elim t.error [ none ↦ true | some e ↦ false ]
    && elim t.partitions [ [] ↦ false | p ∷ ps ↦ true ]

abbrev pub any {ℓ} : {A : Type ℓ} → (A → Bool) → List A → Bool
any p [] = false
any p (x ∷ xs) = p x || any p xs
