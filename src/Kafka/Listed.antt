-- ===== src/Kafka/Listed.antt =====
-- kafka_utils.rs: a topic that the metadata lists and that can be used, and the two searches for it, in
-- `check_kafka_metadata` and in `reset_consumer_offsets`.
use push_cache.Base.{
  ℕ, ◌<◌, ◌≡◌, refl, ap, ◌⊎◌, inl, inr, true, false, none, List, [], ◌∷◌, ◌++◌, Text, length,
  text_eq, text_eq_iff, arith, Bool-cases, Option-cases,
}
use push_cache.Error.{ok}
use push_cache.Kafka.{TopicMetadata, usable, any}
use push_cache.Kafka.Offsets.{usable_partitions, partitions_of}

-- The topic of that name is listed, without an error and with some partitions.
pub record Listed (name : Text) (topics : List TopicMetadata) : Type 0 where
  pub before : List TopicMetadata
  pub found : TopicMetadata
  pub after : List TopicMetadata
  pub split : topics ≡ before ++ found ∷ after
  pub named : found.name ≡ name
  pub no_error : found.error ≡ none
  pub has_some : 0 < length found.partitions

abbrev later-Listed :
    {name : Text} {topics : List TopicMetadata} (t : TopicMetadata)
    → Listed name topics
    → Listed name (t ∷ topics)
later-Listed t l = record {
  before = t ∷ l.before;
  found = l.found;
  after = l.after;
  split = ap (t ∷◌) l.split;
  named = l.named;
  no_error = l.no_error;
  has_some = l.has_some;
}

list_cases : (l : List ℕ) → (l ≡ []) ⊎ ((x : ℕ) × (xs : List ℕ) × (l ≡ x ∷ xs))
list_cases [] = inl refl
list_cases (x ∷ xs) = inr (x, xs, refl)

-- A topic with that name and no error has these partitions.
abbrev IsUsable : Text → TopicMetadata → Type 0
IsUsable name t = (t.name ≡ name) × (t.error ≡ none) × (0 < length t.partitions)

usable_partitions-ok :
    (name : Text) (t : TopicMetadata) (ps : List ℕ)
    → usable_partitions name t ≡ ok ps
    → (t.error ≡ none) × (0 < length t.partitions) × (ps ≡ t.partitions)
unfolding usable_partitions
usable_partitions-ok name t ps = elim (Option-cases t.error) [
  | inr (e, has_error) ↦ rw (has_error, usable_partitions) (λ h. cc)
  | inl fine ↦ elim (list_cases t.partitions) [
    | inl none_there ↦ rw (fine, usable_partitions, none_there) (λ h. cc)
    | inr (p, qs, there) ↦ rw (fine, usable_partitions, there) (λ h. (refl, omega arith, cc))
  ]
]

partitions_of-none : (name : Text) (ps : List ℕ) → partitions_of name [] ≡ ok ps → ⊥
unfolding partitions_of
partitions_of-none name ps h = cc

partitions_of-here :
    (name : Text) (t : TopicMetadata) (ts : List TopicMetadata)
    → text_eq t.name name ≡ true
    → partitions_of name (t ∷ ts) ≡ usable_partitions name t
unfolding partitions_of
partitions_of-here name t ts e = rw (partitions_of, e) refl

partitions_of-there :
    (name : Text) (t : TopicMetadata) (ts : List TopicMetadata)
    → text_eq t.name name ≡ false
    → partitions_of name (t ∷ ts) ≡ partitions_of name ts
unfolding partitions_of
partitions_of-there name t ts e = rw (partitions_of, e) refl

-- The partitions that are found are all those of a topic that is listed.
pub partitions_of-Listed :
    (name : Text) (topics : List TopicMetadata) (ps : List ℕ)
    → partitions_of name topics ≡ ok ps
    → (l : Listed name topics) × (ps ≡ l.found.partitions)
partitions_of-Listed name [] ps = λ h. absurd (partitions_of-none name ps h)
partitions_of-Listed name (t ∷ ts) ps = elim (Bool-cases (text_eq t.name name)) [
  | inl same ↦ rw (partitions_of-here name t ts same) (λ h.
      let (fine, some_there, all) = usable_partitions-ok name t ps h in
      (
        record {
          before = [];
          found = t;
          after = ts;
          split = refl;
          named = (text_eq_iff t.name name).0 same;
          no_error = fine;
          has_some = some_there;
        },
        all,
      ))
  | inr other ↦
      rw (partitions_of-there name t ts other)
        (λ h. let (l, all) = partitions_of-Listed name ts ps h in (later-Listed t l, all))
]

usable-IsUsable : (name : Text) (t : TopicMetadata) → usable name t ≡ true → IsUsable name t
usable-IsUsable name t = elim (Option-cases t.error) [
  | inr (e, has_error) ↦ rw has_error (λ h. absurd (ground arith))
  | inl fine ↦ elim (list_cases t.partitions) [
    | inl none_there ↦ rw (fine, none_there) (λ h. absurd (ground arith))
    | inr (p, qs, there) ↦
        rw (fine, there) (λ h. ((text_eq_iff t.name name).0 (ground arith), refl, omega arith))
  ]
]

-- If some topic passes the test of the check, then the topic is listed.
pub any_usable-Listed :
    (name : Text) (topics : List TopicMetadata)
    → any (usable name) topics ≡ true
    → Listed name topics
any_usable-Listed name [] h = cc
any_usable-Listed name (t ∷ ts) h = elim (Bool-cases (usable name t)) [
  | inl good ↦
      let (named, fine, some_there) = usable-IsUsable name t good in
      record {
        before = [];
        found = t;
        after = ts;
        split = refl;
        named = named;
        no_error = fine;
        has_some = some_there;
      }
  | inr bad ↦ later-Listed t (any_usable-Listed name ts (ground arith))
]
