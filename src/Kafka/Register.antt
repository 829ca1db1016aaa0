-- ===== src/Kafka/Register.antt =====
-- kafka_utils.rs, `get_schema_id`: the registration of a schema, over `schema_registry_converter`.
use push_cache.Base.{ℕ, none, some, Text, ◌++◌, codes}
use push_cache.Error.{message, Result, Act, pure, raise, call_err, ◌>>=◌}
use push_cache.Crates.Wire.{Avro}

-- `post_schema`: the registry's URL, the subject and the schema in its canonical form. The number of a
-- registered schema is what it answers.
pub record Registration (W : Type 0) (avro : Avro) : Type 0 where
  pub canonical_form : avro.Schema → Text
  pub post_schema : Text → Text → Text → W → Result Text ℕ × W

module _ {W : Type 0} {avro : Avro} (registration : Registration W avro) where
  -- The topic, a dash and the name of the record.
  abbrev pub subject_of : Text → Text → Text
  subject_of topic name = topic ++ (codes "-" ++ name)

  -- The schema is that of the type, `T::get_schema()`.
  unfoldable pub get_schema_id : avro.Schema → Text → Text → Act W (ℕ × avro.Schema)
  get_schema_id my_schema registry topic = elim (avro.record_name my_schema) [
    | none ↦ raise (message (codes "Got a schema that was not Record"))
    | some name ↦ do
      id ← λ w.
          call_err
            (λ e. message (
              codes "Failed to register schema for subject "
              ++ (subject_of topic name ++ (codes ": " ++ e))))
            (registration.post_schema registry (subject_of topic name)
              (registration.canonical_form my_schema) w)
      pure (id, my_schema)
  ]
