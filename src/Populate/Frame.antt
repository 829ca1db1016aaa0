-- ===== src/Populate/Frame.antt =====
-- populate_kafka.rs: the frame of a record, and what the service makes of it.
use push_cache.Base.{
  ℕ, ◌+◌, ◌*◌, ◌/◌, ◌%◌, ◌^◌, ◌<◌, ◌≡◌, refl, ap, ◌∙◌, some, ◌∷◌, Text, Bytes, from_utf8, arith,
}
use push_cache.Error.{ok}
use push_cache.Crates.Wire.{Avro, Env, valid}
use push_cache.State.{MyState, lookup}
use push_cache.Consumer.{Message, full_name}
use push_cache.Consumer.Effect.{Shows, target_of, effect, written}
use push_cache.Web.{wire_parts}
use push_cache.Populate.{payload_of}

-- The number of four bytes, the first one the highest.
abbrev pub from_be_bytes : ℕ → ℕ → ℕ → ℕ → ℕ
from_be_bytes a b c d = ((a * 2 ^ 8 + b) * 2 ^ 8 + c) * 2 ^ 8 + d

pub be_bytes_lem :
    (n : ℕ)
    → n < 2 ^ 32
    → from_be_bytes (n / 2 ^ 24 % 2 ^ 8) (n / 2 ^ 16 % 2 ^ 8) (n / 2 ^ 8 % 2 ^ 8) (n % 2 ^ 8) ≡ n
be_bytes_lem n h = omega arith

-- `get_bytes_result`, as documented: a zero, four bytes of the schema's number, and the rest.
abbrev pub ReadsFrames : Avro → Type 0
ReadsFrames avro =
    (a b c d : ℕ) (rest : Bytes)
    → avro.get_bytes_result (some (0 ∷ a ∷ b ∷ c ∷ d ∷ rest)) ≡ valid (from_be_bytes a b c d) rest

-- A produced payload is read as the number and the record that it was made of.
pub payload-valid :
    (avro : Avro) (schema_id : ℕ) (encoded : Bytes)
    → ReadsFrames avro
    → schema_id < 2 ^ 32
    → avro.get_bytes_result (some (payload_of schema_id encoded)) ≡ valid schema_id encoded
payload-valid avro schema_id encoded reads small =
    reads _ _ _ _ encoded ∙ ap (λ i. valid i encoded) (be_bytes_lem schema_id small)

-- The message that arrives.
abbrev pub produced : Text → ℕ → Bytes → Message
produced key schema_id encoded = record {
  key = some key;
  payload = some (payload_of schema_id encoded);
}

module _ {W : Type 0} (env : Env W) (state : MyState W) where
  open env use {avro, schemas}

  -- If the frames are read as documented, the schema's number is below 2^32 and in the schema
  -- cache, its name is routed to a store, and the key is UTF-8, then a message with that key and a
  -- payload that was made of the number and a record means for the stores that the payload is put
  -- under the key in that store; and reading such a payload gives back the number and the record.
  pub payload-effect :
      (cache : schemas.Map) (schema_id : ℕ) (schema : avro.Schema) (encoded : Bytes)
      (key target : Text) (before : Shows)
      → ReadsFrames avro
      → schema_id < 2 ^ 32
      → schemas.get cache schema_id ≡ some schema
      → lookup (full_name env state schema) state.schema_to_store ≡ some target
      → from_utf8 key ≡ some key
      → let payload = payload_of schema_id encoded in
        (effect env state cache (produced key schema_id encoded) before
          ≡ written (some key) target (some payload) before)
        × (wire_parts env (avro.get_bytes_result (some payload)) ≡ ok (schema_id, encoded))
  unfolding wire_parts
  payload-effect cache schema_id schema encoded key target before reads small cached to_target
        utf8 =
      let framed = payload-valid avro schema_id encoded reads small in
      (rw (framed, target_of, cached, to_target, utf8) refl, rw framed refl)
