-- ===== src/Crates/Wire.antt =====
-- What the sources use of the crates `apache_avro`, `schema_registry_converter`, `serde_json` and
-- `reqwest`. An error is the text that it displays as.
use push_cache.Base.{
  ◌≡◌, refl, ◌⊎◌, inl, inr, ℕ, Bool, ◌&&◌, Option, List, Text, Bytes, leb, ltb, ◌==◌,
}
use push_cache.Error.{Result}
use push_cache.Crates.{DashMap, Metrics}

-- `schema_registry_common::BytesResult`.
pub data BytesResult : Type 0 where
  null : BytesResult
  valid : ℕ → Bytes → BytesResult
  invalid : Bytes → BytesResult

pub BytesResult-cases :
    (r : BytesResult)
    → ((id : ℕ) × (b : Bytes) × (r ≡ valid id b)) ⊎ ((r ≡ null) ⊎ ((b : Bytes) × (r ≡ invalid b)))
BytesResult-cases (valid id b) = inl (id, b, refl)
BytesResult-cases null = inr (inl refl)
BytesResult-cases (invalid b) = inr (inr (b, refl))

-- A JSON value as far as the handlers look into one.
pub data JsonKind : Type 0 where
  string : Text → JsonKind
  number : Text → JsonKind
  other : JsonKind

pub record Avro : Type 1 where
  pub Schema : Type 0
  pub Value : Type 0
  pub Json : Type 0
  pub parse_str : Text → Result Text Schema
  -- The full name of a `Schema::Record`.
  pub record_name : Schema → Option Text
  pub from_avro_datum : Schema → Bytes → Result Text Value
  pub from_value : Value → Result Text Json
  pub get_bytes_result : Option Bytes → BytesResult
  -- `Value::get` with a field's name, and what the field is; a number with the text that it prints as.
  pub json_get : Json → Text → Option Json
  pub json_kind : Json → JsonKind

-- An HTTP client: the body of a response is read from the connection.
pub record Http (W : Type 0) : Type 1 where
  pub Response : Type 0
  pub send : Text → W → Result Text Response × W
  pub status : Response → ℕ
  pub status_text : Response → Text
  pub text : Response → W → Result Text Text × W
  -- `json::<SchemaResponse>()`, its field `schema`, and `json::<Vec<String>>()`.
  pub json_schema : Response → W → Result Text Text × W
  pub json_texts : Response → W → Result Text (List Text) × W

-- `StatusCode::is_success`.
abbrev pub is_success : ℕ → Bool
is_success s = leb 200 s && ltb s 300

-- The crates that the consumer and the handlers use.
pub record Env (W : Type 0) : Type 1 where
  pub metrics : Metrics
  pub avro : Avro
  pub schemas : DashMap ℕ avro.Schema ◌==◌
  pub http : Http W
  -- `HeaderValue::from_str`.
  pub parse_header : Text → Result Text Text
