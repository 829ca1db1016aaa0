-- ===== src/Kafka/Offsets.antt =====
-- kafka_utils.rs, `check_kafka_metadata` and `reset_consumer_offsets`, over the crate `rdkafka`.
use push_cache.Base.{
  ℕ, not, Option, none, some, List, [], ◌∷◌, ◌++◌, Text, codes, text_eq, if◌then◌else◌, map,
}
use push_cache.Error.{
  MyError, message, kafka_error, Result, ok, err, Act, pure, raise, lift, map_err, call_err, ◌>>=◌,
}
use push_cache.Config.{GroupId, get_group_id}
use push_cache.Kafka.{Url, TopicMetadata, get_broker_string, usable, any}

-- `rdkafka::Offset`.
pub data Offset : Type 0 where
  beginning : Offset
  offset : ℕ → Offset
  unset : Offset

-- `rdkafka::TopicPartitionList`: the entries of one topic.
abbrev pub PartitionList : Type 0
PartitionList = List (ℕ × Offset)

-- What the sources use of a `BaseConsumer`. `set_partition_offset` fails for a partition that is not
-- in the list.
pub record Broker (W : Type 0) : Type 1 where
  pub Consumer : Type 0
  -- The group, unless there is none, and the servers.
  pub create : Option Text → Text → W → Result Text Consumer × W
  pub fetch_metadata : Consumer → Text → W → Result Text (List TopicMetadata) × W
  pub committed_offsets : Consumer → PartitionList → W → Result Text PartitionList × W
  pub fetch_watermarks : Consumer → Text → ℕ → W → Result Text (ℕ × ℕ) × W
  pub set_partition_offset : PartitionList → ℕ → Offset → Result Text PartitionList
  pub commit : Consumer → Text → PartitionList → W → Result Text (Unit {0}) × W

-- What the two functions read of `MyKafkaConfig`, and the variable `HOSTNAME`.
pub record KafkaConfig : Type 0 where
  pub brokers : Url
  pub group_id : GroupId
  pub topic : Text
  pub hostname : Option Text

abbrev find_topic : Text → List TopicMetadata → Option TopicMetadata
find_topic name [] = none
find_topic name (t ∷ ts) = if text_eq t.name name then some t else find_topic name ts

-- The partitions of a topic that has some, and no error.
unfoldable pub usable_partitions : Text → TopicMetadata → Result MyError (List ℕ)
usable_partitions topic t = elim t.error [
  | some e ↦ err (message (codes "Metadata error for topic " ++ (topic ++ (codes ": " ++ e))))
  | none ↦ elim t.partitions [
    | [] ↦ err (message (codes "Topic " ++ (topic ++ codes " has no partitions")))
    | p ∷ ps ↦ ok (p ∷ ps)
  ]
]

unfoldable pub partitions_of : Text → List TopicMetadata → Result MyError (List ℕ)
partitions_of topic topics = elim (find_topic topic topics) [
  | none ↦ err (message (codes "Topic " ++ (topic ++ codes " not found")))
  | some t ↦ usable_partitions topic t
]

module _ {W : Type 0} (broker : Broker W) where
  unfoldable pub check_kafka_metadata : KafkaConfig → Act W (Unit {0})
  check_kafka_metadata config = do
    servers ← lift (get_broker_string config.brokers)
    consumer ← λ w. call_err kafka_error (broker.create none servers w)
    topics ← λ w. call_err kafka_error (broker.fetch_metadata consumer config.topic w)
    if not (any (usable config.topic) topics)
        then raise (
            message
              (codes "Kafka topic " ++ (config.topic ++ codes " not found or has no partitions")))
        else pure tt

  -- The second loop over the partitions: each gets its low watermark.
  unfoldable pub reset_loop : broker.Consumer → Text → List ℕ → PartitionList → Act W PartitionList
  reset_loop consumer topic [] tpl = pure tpl
  reset_loop consumer topic (p ∷ partitions) tpl = do
    marks ← λ w. call_err kafka_error (broker.fetch_watermarks consumer topic p w)
    tpl' ← lift (map_err kafka_error (broker.set_partition_offset tpl p (offset marks.0)))
    reset_loop consumer topic partitions tpl'

  -- From the partitions on: the committed offsets are only logged.
  unfoldable pub commit_lows : broker.Consumer → Text → List ℕ → Act W (Unit {0})
  commit_lows consumer topic partitions = do
    committed ← λ w.
        call_err kafka_error
          (broker.committed_offsets consumer (map (λ (n : ℕ). (n, unset)) partitions) w)
    tpl ← reset_loop consumer topic partitions (map (λ (n : ℕ). (n, unset)) partitions)
    λ w. call_err kafka_error (broker.commit consumer topic tpl w)

  unfoldable pub reset_consumer_offsets : KafkaConfig → Act W (Unit {0})
  reset_consumer_offsets config = do
    group ← lift (map_err message (get_group_id config.group_id config.hostname))
    servers ← lift (get_broker_string config.brokers)
    consumer ← λ w. call_err kafka_error (broker.create (some group) servers w)
    topics ← λ w. call_err kafka_error (broker.fetch_metadata consumer config.topic w)
    partitions ← lift (partitions_of config.topic topics)
    commit_lows consumer config.topic partitions
