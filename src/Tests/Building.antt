-- ===== src/Tests/Building.antt =====
-- The reset of the offsets of two partitions.
use push_cache.Base.{
  ℕ, suc, ◌+◌, arith, ◌≡◌, refl, true, none, some, ◌==◌, List, [], ◌∷◌, ◌++◌, ◌∙◌, Text, codes,
  text_eq,
}
use mathlib.Core.Path.{subst}
use push_cache.Base.Distinct.{distinct}
use push_cache.Error.{Result, ok}
use push_cache.Config.{explicit, get_group_id}
use push_cache.Kafka.{TopicMetadata, get_broker_string}
use push_cache.Kafka.Offsets.{
  Broker, KafkaConfig, usable_partitions, partitions_of, reset_loop, commit_lows,
  reset_consumer_offsets,
}
use push_cache.Kafka.Reset.{Sets, ListsOnce, HasCommitted, reset-IsCommitted}

abbrev one_topic : List TopicMetadata
one_topic = record { name = codes "t"; error = none; partitions = 0 ∷ 1 ∷ [] } ∷ []

-- Brokers whose low watermark of a partition is ten more than its number.
abbrev brokers : Broker ℕ
brokers = record {
  Consumer = Unit {0};
  create = λ group servers w. (ok tt, w);
  fetch_metadata = λ c topic w. (ok one_topic, w);
  committed_offsets = λ c tpl w. (ok tpl, w);
  fetch_watermarks = λ c topic p w. (ok (p + 10, 99), suc w);
  set_partition_offset = λ tpl p o. ok ((p, o) ∷ tpl);
  commit = λ c topic tpl w. (ok tt, w);
}

brokers-Sets : Sets brokers
brokers-Sets tpl tpl' p o h q = ground arith

abbrev reset_config : KafkaConfig
reset_config = record {
  brokers = record { host = some (codes "kafka"); port = some 9092; printed = [] };
  group_id = explicit (codes "g");
  topic = codes "t";
  hostname = none;
}

topics_injective : {A : Type 0} {a b : A} → Path (Result Text A) (ok a) (ok b) → a ≡ b
topics_injective h = cc

-- Of the one topic.
once_of :
    (before after : List TopicMetadata) (t : TopicMetadata)
    → one_topic ≡ before ++ t ∷ after
    → distinct ◌==◌ t.partitions ≡ true
once_of [] after t e =
    let same : record { name = codes "t"; error = none; partitions = 0 ∷ 1 ∷ [] } ≡ t = cc in
    subst (λ (u : TopicMetadata). distinct ◌==◌ u.partitions ≡ true) same refl
once_of (b ∷ []) after t e = cc
once_of (b ∷ c ∷ before) after t e = cc

once : ListsOnce brokers (codes "t")
once c w topics t f = once_of t.before t.after t.found (topics_injective f ∙ t.split)

was_reset : (reset_consumer_offsets brokers reset_config 5).0 ≡ ok tt
unfolding reset_consumer_offsets get_group_id get_broker_string partitions_of usable_partitions
    commit_lows reset_loop text_eq
was_reset = refl

reset-IsCommitted_example : HasCommitted brokers (codes "t")
reset-IsCommitted_example = reset-IsCommitted brokers reset_config 5 brokers-Sets once was_reset
