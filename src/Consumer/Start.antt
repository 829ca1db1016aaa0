-- ===== src/Consumer/Start.antt =====
-- consumer.rs, `start_consumer`: from the configuration to the stream, over the crate `rdkafka`.
use push_cache.Base.{List, [], ◌∷◌, Text, codes}
use push_cache.Error.{message, kafka_error, Result, Act, lift, map_err, call_err, ok, ◌>>=◌, ◌>>◌}
use push_cache.Crates.Wire.{Env}
use push_cache.Config.{KafkaOffsetReset, get_group_id, offset_reset_text}
use push_cache.Kafka.{get_broker_string}
use push_cache.Kafka.Offsets.{KafkaConfig}
use push_cache.State.{MyState, Shared, on_world}
use push_cache.Consumer.{Message, consume}

-- What the sources use of a `StreamConsumer`; its stream is the list of what it yields.
pub record StreamClient (W : Type 0) : Type 1 where
  pub StreamConsumer : Type 0
  pub create_with_context : List (Text × Text) → W → Result Text StreamConsumer × W
  pub subscribe : StreamConsumer → Text → W → Result Text (Unit {0}) × W
  pub stream : StreamConsumer → W → List (Result Text Message) × W

-- The settings of the `ClientConfig`.
abbrev pub settings : Text → Text → KafkaOffsetReset → List (Text × Text)
settings group_id servers offset_reset =
    (codes "group.id", group_id)
    ∷ (codes "bootstrap.servers", servers)
    ∷ (codes "enable.partition.eof", codes "false")
    ∷ (codes "session.timeout.ms", codes "6000")
    ∷ (codes "enable.auto.commit", codes "true")
    ∷ (codes "statistics.interval.ms", codes "1000")
    ∷ (codes "auto.offset.reset", offset_reset_text offset_reset)
    ∷ []

module _ {W : Type 0} (env : Env W) (state : MyState W) (client : StreamClient W) where
  unfoldable pub open_stream : KafkaConfig → KafkaOffsetReset → Act W (List (Result Text Message))
  open_stream config offset_reset = do
    group_id ← lift (map_err message (get_group_id config.group_id config.hostname))
    servers ← lift (get_broker_string config.brokers)
    consumer ← λ w.
        call_err kafka_error (client.create_with_context (settings group_id servers offset_reset) w)
    (λ w. call_err kafka_error (client.subscribe consumer config.topic w))
    λ w. let (messages, w') = client.stream consumer w in (ok messages, w')

  unfoldable pub start_consumer : KafkaConfig → KafkaOffsetReset → Act (Shared env) (Unit {0})
  unfolding open_stream
  start_consumer config offset_reset = do
    messages ← on_world env (open_stream config offset_reset)
    consume env state messages
