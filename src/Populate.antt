-- ===== src/Populate.antt =====
-- rust-container/examples/populate_kafka.rs: records that are made up and sent to the topic, or written
-- to a file. The generators of `fake`, the clocks and the output of statistics are not modelled.
pub mod Frame
pub mod Totals
pub mod Fakes
pub mod Bills
use push_cache.Base.{
  ℕ, zero, suc, ◌+◌, ◌-◌, ◌/◌, ◌%◌, ◌^◌, Option, none, some, List, [], ◌∷◌, ◌++◌, Text, Bytes,
  codes, length, ltb, ◌==◌, not, if◌then◌else◌,
}
use push_cache.Error.{
  MyError, message, Result, ok, err, Act, pure, lift, map_err, call_err, ◌>>=◌, ◌>>◌,
}
use push_cache.Crates.Wire.{Avro}
use push_cache.Command.{Files}
use push_cache.State.Settings.{MyConfig}
use push_cache.Kafka.{Url, get_broker_string}
use push_cache.Kafka.Register.{Registration, get_schema_id}

-- `to_be_bytes` of a `u32`, or of an `i32` by its bit pattern.
abbrev pub to_be_bytes : ℕ → Bytes
to_be_bytes n = n / 2 ^ 24 % 2 ^ 8 ∷ n / 2 ^ 16 % 2 ^ 8 ∷ n / 2 ^ 8 % 2 ^ 8 ∷ n % 2 ^ 8 ∷ []

-- The magic byte, the schema's number and the record.
abbrev pub payload_of : ℕ → Bytes → Bytes
payload_of schema_id encoded = 0 ∷ (to_be_bytes schema_id ++ encoded)

-- What the program uses of `apache_avro`, `uuid`, `rdkafka`, `base64` and of files. An error of another
-- crate, which is boxed, is kept as its text.
pub record Tools (W : Type 0) (avro : Avro) : Type 1 where
  pub Producer : Type 0
  pub Writer : Type 0
  pub to_avro_datum : avro.Schema → avro.Value → Result Text Bytes
  pub new_v4 : W → Text × W
  pub create_producer : Text → W → Result Text Producer × W
  -- The topic, the payload and the key.
  pub send : Producer → Text → Bytes → Text → W → Result Text (Unit {0}) × W
  pub encode : Bytes → Text
  pub create_file : Text → W → Result Text Writer × W
  pub write_all : Writer → Text → W → Result Text (Unit {0}) × W
  pub flush : Writer → W → Result Text (Unit {0}) × W

-- A type of records: its schema, its generator, and `to_value`.
pub record Generator (W : Type 0) (avro : Avro) : Type 1 where
  pub Item : Type 0
  pub schema : avro.Schema
  pub generate : W → Item × W
  pub to_value : Item → Result Text avro.Value

-- The three running numbers, of type `usize`.
pub record Sizes : Type 0 where
  pub total_size : ℕ
  pub max_size : ℕ
  pub min_size : ℕ

abbrev pub no_sizes : Sizes
no_sizes = record { total_size = 0; max_size = 0; min_size = 2 ^ 64 - 1 }

-- The sum wraps around, as in a release build.
unfoldable pub add_size : ℕ → Sizes → Sizes
add_size size s = record {
  total_size = (s.total_size + size) % 2 ^ 64;
  max_size = if ltb s.max_size size then size else s.max_size;
  min_size = if ltb size s.min_size then size else s.min_size;
}

-- `trim_end_matches('/')`.
abbrev pub trim_slashes : Text → Text
trim_slashes [] = []
trim_slashes (c ∷ t) = elim (trim_slashes t) [
  | [] ↦ if c == b'/' then [] else c ∷ []
  | d ∷ u ↦ c ∷ d ∷ u
]

module _ {W : Type 0} {avro : Avro} (tools : Tools W avro) (generator : Generator W avro) where
  -- A record that is generated and encoded.
  unfoldable pub make_record : avro.Schema → Act W Bytes
  make_record schema w =
      let (item, w') = generator.generate w in
      (
        elim (generator.to_value item) [
          | err e ↦ err (message e)
          | ok value ↦ map_err message (tools.to_avro_datum schema value)
        ],
        w',
      )

  -- The result of sending is not looked at.
  unfoldable pub send_record : tools.Producer → Text → ℕ → Bytes → Act W (Unit {0})
  send_record producer topic schema_id encoded w =
      let (key, w1) = tools.new_v4 w in
      let (sent, w2) = tools.send producer topic (payload_of schema_id encoded) key w1 in
      (ok tt, w2)

  -- The loop, by the records that are still to be sent.
  unfoldable pub produce_loop : tools.Producer → Text → ℕ → avro.Schema → ℕ → Sizes → Act W Sizes
  produce_loop producer topic schema_id schema zero s = pure s
  produce_loop producer topic schema_id schema (suc n) s = do
    encoded ← make_record schema
    send_record producer topic schema_id encoded
    produce_loop producer topic schema_id schema n (add_size (length encoded) s)

  unfoldable pub produce_records : Registration W avro → Url → Text → Text → ℕ → Act W Sizes
  produce_records registration brokers schema_registry_url topic count = do
    servers ← lift (get_broker_string brokers)
    producer ← λ w. call_err message (tools.create_producer servers w)
    registered ←
        get_schema_id registration generator.schema (trim_slashes schema_registry_url) topic
    produce_loop producer topic registered.0 registered.1 count no_sizes

  -- A line has the key, a bar and the payload in Base64.
  unfoldable pub write_record : tools.Writer → ℕ → Bytes → Act W (Unit {0})
  write_record writer schema_id encoded w =
      let (key, w1) = tools.new_v4 w in
      let line =
        key ++ (codes "|" ++ (tools.encode (payload_of schema_id encoded) ++ codes "\n")) in
      call_err message (tools.write_all writer line w1)

  unfoldable pub write_loop : tools.Writer → ℕ → ℕ → Act W (Unit {0})
  write_loop writer schema_id zero = pure tt
  write_loop writer schema_id (suc n) = do
    encoded ← make_record generator.schema
    write_record writer schema_id encoded
    write_loop writer schema_id n

  unfoldable pub write_records_to_file : Text → ℕ → ℕ → Act W (Unit {0})
  write_records_to_file path schema_id count = do
    writer ← λ w. call_err message (tools.create_file path w)
    write_loop writer schema_id count
    λ w. call_err message (tools.flush writer w)

-- The arguments of the program, of which the file needs a schema's number.
pub data MessageType : Type 0 where
  customer bill usage ticket : MessageType

pub record Args : Type 0 where
  pub count : ℕ
  pub config : Text
  pub secrets : Text
  pub message_type : MessageType
  pub topic : Option Text
  pub output_file : Option Text
  pub schema_id : Option ℕ

-- How the program ends: with a status, or by a panic.
pub data Exit : Type 0 where
  exited : ℕ → Exit
  aborted : Text → Exit

module _ {W : Type 0} {avro : Avro} (tools : Tools W avro)
    (generators : MessageType → Generator W avro) (registration : Registration W avro)
    (files : Files W) where
  unfoldable pub write_file : Args → Text → W → Exit × W
  write_file args output_file w = elim args.schema_id [
    | none ↦ (exited 1, w)
    | some schema_id ↦
        let (r, w') =
          write_records_to_file tools (generators args.message_type) output_file schema_id
            args.count w in
        elim r [ ok u ↦ (exited 0, w') | err e ↦ (exited 1, w') ]
  ]

  -- An error of the production is logged, and the status is that of a success.
  unfoldable pub produce : Args → W → Exit × W
  produce args w =
      let (read, w1) = files.read_to_string args.config w in
      elim read [
        | err e ↦ (aborted (codes "Failed to read config"), w1)
        | ok config_yaml ↦
            let (extracted, w2) = files.extract config_yaml args.secrets w1 in
            elim extracted [
              | err e ↦ (aborted (codes "Failed to load config"), w2)
              | ok config ↦
                  let topic : Text = elim args.topic [ some t ↦ t | none ↦ config.kafka.topic ] in
                  let (r, w3) =
                    produce_records tools (generators args.message_type) registration
                      config.kafka.brokers config.schema_registry_url topic args.count w2 in
                  (exited 0, w3)
            ]
      ]

  unfoldable pub populate : Args → W → Exit × W
  populate args w =
      let (env, w1) = files.from_env w in
      elim env [
        | err e ↦ (aborted (codes "Failed to load env filter"), w1)
        | ok u ↦ elim args.output_file [
          | some output_file ↦ write_file args output_file w1
          | none ↦ produce args w1
        ]
      ]
