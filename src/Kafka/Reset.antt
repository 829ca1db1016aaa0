-- ===== src/Kafka/Reset.antt =====
-- kafka_utils.rs, `reset_consumer_offsets`: the loop over the partitions, and the commit.
use push_cache.Base.{
  ℕ, ◌≡◌, ◌∙◌, inl, inr, true, false, Option, none, some, List, [], ◌∷◌, Text, ◌==◌, ==_iff,
  if◌then◌else◌, arith, Bool-cases, map,
}
use mathlib.Core.Path.{subst}
use push_cache.Base.Distinct.{member, distinct}
use push_cache.Config.{get_group_id}
use push_cache.Error.{
  message, MyError, kafka_error, Result, ok, err, Act, call_err, lift, map_err, ◌>>=◌, >>=-rest,
  Result-cases,
}
use push_cache.Kafka.{TopicMetadata, get_broker_string}
use push_cache.Kafka.Listed.{Listed, partitions_of-Listed}
use push_cache.Kafka.Offsets.{
  KafkaConfig, partitions_of, commit_lows, reset_consumer_offsets, unset, Offset, offset,
  PartitionList, Broker, reset_loop,
}

abbrev pub offset_of : ℕ → PartitionList → Option Offset
offset_of p [] = none
offset_of p ((q, o) ∷ tpl) = if q == p then some o else offset_of p tpl

map_err-ok {ℓ} :
    {A : Type ℓ} (f : Text → MyError) (r : Result Text A) {a : A} → map_err f r ≡ ok a → r ≡ ok a
map_err-ok f (ok x) h = ground arith
map_err-ok f (err e) h = cc

module _ {W : Type 0} (broker : Broker W) where
  -- `set_partition_offset`, as documented: it changes the entry of that partition alone.
  abbrev pub Sets : Type 0
  Sets =
      (tpl tpl' : PartitionList) (p : ℕ) (o : Offset)
      → broker.set_partition_offset tpl p o ≡ ok tpl'
      → (q : ℕ) → offset_of q tpl' ≡ (if p == q then some o else offset_of q tpl)

  -- The low watermark of a partition, as the brokers gave it at some time.
  abbrev pub IsLow : broker.Consumer → Text → ℕ → Option Offset → Type 0
  IsLow consumer topic p o =
      (w : W) × (low : ℕ) × (high : ℕ) × ((broker.fetch_watermarks consumer topic p w).0
        ≡ ok (low, high))
      × (o ≡ some (offset low))

  -- A loop that succeeds has set the first partition and gone on from there.
  record Begins (consumer : broker.Consumer) (topic : Text) (p : ℕ) (ps : List ℕ)
      (tpl tpl' : PartitionList) : Type 0 where
    before : W
    marks : ℕ × ℕ
    mid : PartitionList
    after : W
    marked : (broker.fetch_watermarks consumer topic p before).0 ≡ ok marks
    set_ok : broker.set_partition_offset tpl p (offset marks.0) ≡ ok mid
    rest : (reset_loop broker consumer topic ps mid after).0 ≡ ok tpl'

  reset_loop-Begins :
      (consumer : broker.Consumer) (topic : Text) (p : ℕ) (ps : List ℕ) (tpl tpl' : PartitionList)
      (w : W)
      → (reset_loop broker consumer topic (p ∷ ps) tpl w).0 ≡ ok tpl'
      → Begins consumer topic p ps tpl tpl'
  unfolding reset_loop
  reset_loop-Begins consumer topic p ps tpl tpl' w h =
      let ask : Act W (ℕ × ℕ) =
        λ v. call_err kafka_error (broker.fetch_watermarks consumer topic p v) in
      let put : ℕ × ℕ → Act W PartitionList =
        λ m. lift (map_err kafka_error (broker.set_partition_offset tpl p (offset m.0))) in
      let (marks, asked, h') =
        >>=-rest ask (λ m. put m >>= reset_loop broker consumer topic ps) w h in
      let v = (broker.fetch_watermarks consumer topic p w).1 in
      let (mid, done, h'') = >>=-rest (put marks) (reset_loop broker consumer topic ps) v h' in
      record {
        before = w;
        marks = marks;
        mid = mid;
        after = v;
        marked = map_err-ok kafka_error _ asked;
        set_ok = map_err-ok kafka_error _ done;
        rest = h'';
      }

  others-kept :
      (consumer : broker.Consumer) (topic : Text) (ps : List ℕ) (tpl tpl' : PartitionList) (w : W)
      (q : ℕ)
      → Sets
      → (reset_loop broker consumer topic ps tpl w).0 ≡ ok tpl'
      → member ◌==◌ q ps ≡ false
      → offset_of q tpl' ≡ offset_of q tpl
  others-kept consumer topic [] tpl tpl' w q s h n = unfold reset_loop in ground arith
  others-kept consumer topic (p ∷ ps) tpl tpl' w q s h n =
      let b = reset_loop-Begins consumer topic p ps tpl tpl' w h in
      others-kept consumer topic ps b.mid tpl' b.after q s b.rest (ground arith)
      ∙ ground (arith, s tpl b.mid p (offset b.marks.0) b.set_ok q, ==_iff p q, ==_iff q p)

  -- If setting an offset changes the entry of that partition alone, and the partitions are listed
  -- once each, then when the loop of the reset succeeds, each of them has as its offset its low
  -- watermark, as the brokers gave it at some time.
  pub reset_loop-IsLow :
      (consumer : broker.Consumer) (topic : Text) (ps : List ℕ) (tpl tpl' : PartitionList) (w : W)
      (q : ℕ)
      → Sets
      → distinct ◌==◌ ps ≡ true
      → (reset_loop broker consumer topic ps tpl w).0 ≡ ok tpl'
      → member ◌==◌ q ps ≡ true
      → IsLow consumer topic q (offset_of q tpl')
  reset_loop-IsLow consumer topic [] tpl tpl' w q s d h m = cc
  reset_loop-IsLow consumer topic (p ∷ ps) tpl tpl' w q s d h m =
      let b = reset_loop-Begins consumer topic p ps tpl tpl' w h in
      elim (Bool-cases (member ◌==◌ q ps)) [
        | inl later ↦
            reset_loop-IsLow consumer topic ps b.mid tpl' b.after q s (ground arith) b.rest later
        | inr here ↦
            let is_p : p ≡ q = ground (arith, ==_iff q p) in
            let kept = others-kept consumer topic ps b.mid tpl' b.after q s b.rest here in
            subst (λ r. IsLow consumer topic r (offset_of q tpl')) is_p
              (
                b.before,
                b.marks.0,
                b.marks.1,
                b.marked,
                kept ∙ ground (arith, s tpl b.mid p (offset b.marks.0) b.set_ok q, ==_iff p q),
              )
      ]

  -- Each of these partitions has its low watermark in the list.
  abbrev pub AllLow : broker.Consumer → Text → List ℕ → PartitionList → Type 0
  AllLow consumer topic [] tpl = Unit
  AllLow consumer topic (p ∷ ps) tpl =
      IsLow consumer topic p (offset_of p tpl) × AllLow consumer topic ps tpl

  all-AllLow :
      (consumer : broker.Consumer) (topic : Text) (ps : List ℕ) (tpl : PartitionList)
      → ((q : ℕ) → member ◌==◌ q ps ≡ true → IsLow consumer topic q (offset_of q tpl))
      → AllLow consumer topic ps tpl
  all-AllLow consumer topic [] tpl f = tt
  all-AllLow consumer topic (p ∷ ps) tpl f = (
    f p (ground (arith, ==_iff p p)),
    all-AllLow consumer topic ps tpl (λ q m. f q (ground arith)),
  )

  -- The low watermarks have been committed for these partitions.
  abbrev pub IsCommitted : broker.Consumer → Text → List ℕ → Type 0
  IsCommitted consumer topic ps =
      (tpl : PartitionList) × (w : W) × ((broker.commit consumer topic tpl w).0 ≡ ok tt)
      × AllLow consumer topic ps tpl

  commit_lows-IsCommitted :
      (consumer : broker.Consumer) (topic : Text) (ps : List ℕ) (w : W)
      → Sets
      → distinct ◌==◌ ps ≡ true
      → (commit_lows broker consumer topic ps w).0 ≡ ok tt
      → IsCommitted consumer topic ps
  unfolding commit_lows
  commit_lows-IsCommitted consumer topic ps w s d =
      let unset_all = map (λ (n : ℕ). (n, unset)) ps in
      let asked = broker.committed_offsets consumer unset_all w in
      elim (Result-cases asked.0) [
        | inr (x, e) ↦ rw (e, commit_lows) (λ h. cc)
        | inl (committed, e) ↦
            let marked = reset_loop broker consumer topic ps unset_all asked.1 in
            elim (Result-cases marked.0) [
              | inr (x, f) ↦ rw (e, commit_lows, f) (λ h. cc)
              | inl (tpl, f) ↦
                  rw (e, commit_lows, f)
                    (λ h. (
                      tpl,
                      marked.1,
                      map_err-ok kafka_error _ h,
                      all-AllLow consumer topic ps tpl (λ q m.
                          reset_loop-IsLow consumer topic ps unset_all tpl asked.1 q s d f m),
                    ))
            ]
      ]

  -- The metadata of the topic names its partitions once each.
  abbrev pub ListsOnce : Text → Type 0
  ListsOnce topic =
      (consumer : broker.Consumer) (w : W) (topics : List TopicMetadata) (t : Listed topic topics)
      → (broker.fetch_metadata consumer topic w).0 ≡ ok topics
      → distinct ◌==◌ t.found.partitions ≡ true

  -- The brokers have listed the topic, without an error and with some partitions, and the low
  -- watermarks have been committed for all of these.
  abbrev pub HasCommitted : Text → Type 0
  HasCommitted topic =
      (consumer : broker.Consumer) × (v : W) × (topics : List TopicMetadata) × (t : Listed topic
        topics)
      × ((broker.fetch_metadata consumer topic v).0 ≡ ok topics)
      × IsCommitted consumer topic t.found.partitions

  -- If setting an offset changes the entry of that partition alone, and the metadata of the topic
  -- names its partitions once each, then a reset that succeeds was told that the topic is listed,
  -- without an error and with some partitions, and has committed offsets of the topic in which each
  -- of these partitions has its low watermark, as the brokers gave it at some time.
  pub reset-IsCommitted :
      (config : KafkaConfig) (w : W)
      → Sets
      → ListsOnce config.topic
      → (reset_consumer_offsets broker config w).0 ≡ ok tt
      → HasCommitted config.topic
  unfolding reset_consumer_offsets
  reset-IsCommitted config w s once h =
      let group : Act W Text =
        lift (map_err message (get_group_id config.group_id config.hostname)) in
      let (g, has_group, h1) = >>=-rest group _ w h in
      let (servers, has_servers, h2) = >>=-rest (lift (get_broker_string config.brokers)) _ w h1 in
      let create : Act W broker.Consumer =
        λ w. call_err kafka_error (broker.create (some g) servers w) in
      let (consumer, created, h3) = >>=-rest create _ w h2 in
      let w1 = (broker.create (some g) servers w).1 in
      let fetch : Act W (List TopicMetadata) =
        λ w. call_err kafka_error (broker.fetch_metadata consumer config.topic w) in
      let (topics, fetched, h4) = >>=-rest fetch _ w1 h3 in
      let w2 = (broker.fetch_metadata consumer config.topic w1).1 in
      let (ps, listed, h5) = >>=-rest (lift (partitions_of config.topic topics)) _ w2 h4 in
      let (t, all) = partitions_of-Listed config.topic topics ps listed in
      let is_fetched = map_err-ok kafka_error _ fetched in
      let committed =
        subst (λ l. (commit_lows broker consumer config.topic l w2).0 ≡ ok tt) all h5 in
      (
        consumer,
        w1,
        topics,
        t,
        is_fetched,
        commit_lows-IsCommitted consumer config.topic t.found.partitions w2 s
            (once consumer w1 topics t is_fetched) committed,
      )
