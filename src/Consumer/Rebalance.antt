-- ===== src/Consumer/Rebalance.antt =====
-- consumer.rs, `post_rebalance`: what is assigned to the consumer after a rebalance.
use push_cache.Base.{
  ℕ, ◌≡◌, refl, sym, ap, ◌∙◌, Bool, true, false, List, [], ◌∷◌, ◌++◌, Text, if◌then◌else◌,
}
use mathlib.Core.List.{append-nil, append_assoc}
use push_cache.Error.{Result, ok, err}
use push_cache.Kafka.Offsets.{Offset, beginning}

-- An element of a `TopicPartitionList`.
pub record Element : Type 0 where
  pub topic : Text
  pub partition : ℕ
  pub offset : Offset

pub data Rebalance : Type 0 where
  assign : List Element → Rebalance
  revoke : Rebalance
  error : Text → Rebalance

-- What the callback uses of the crate `rdkafka`: a list is its elements. The results of `assign` and
-- `unassign` are only logged.
pub record BaseConsumer : Type 1 where
  pub Consumer : Type 0
  pub add_partition_offset : List Element → Text → ℕ → Offset → Result Text (List Element)
  pub assign_partitions : List Element → Consumer → Consumer
  pub unassign : Consumer → Consumer

module _ (crate : BaseConsumer) where
  -- The loop over `partitions.elements()`: an entry that cannot be added is logged and left out.
  unfoldable pub from_beginning : List Element → List Element → List Element
  from_beginning assigned [] = assigned
  from_beginning assigned (p ∷ ps) =
      from_beginning
        (elim (crate.add_partition_offset assigned p.topic p.partition beginning) [
          | ok longer ↦ longer
          | err e ↦ assigned
        ])
        ps

  unfoldable pub post_rebalance : Bool → Rebalance → crate.Consumer → crate.Consumer
  post_rebalance force_reset_earliest (assign partitions) c =
      if force_reset_earliest
      then crate.assign_partitions (from_beginning [] partitions) c
      else crate.assign_partitions partitions c
  post_rebalance force_reset_earliest revoke c = crate.unassign c
  post_rebalance force_reset_earliest (error e) c = c

-- The elements with the offset at the beginning.
abbrev pub rewound : List Element → List Element
rewound [] = []
rewound (p ∷ ps) = record p { offset = beginning } ∷ rewound ps

module _ (crate : BaseConsumer) where
  -- `add_partition_offset` appends an entry.
  abbrev pub Appends : Type 0
  Appends =
      (l : List Element) (t : Text) (p : ℕ) (o : Offset)
      → crate.add_partition_offset l t p o
        ≡ ok (l ++ record { topic = t; partition = p; offset = o } ∷ [])

  from_beginning-rewound :
      (assigned partitions : List Element)
      → Appends
      → from_beginning crate assigned partitions ≡ assigned ++ rewound partitions
  unfolding from_beginning
  from_beginning-rewound assigned [] a = sym (append-nil assigned)
  from_beginning-rewound assigned (p ∷ ps) a = rw (a assigned p.topic p.partition beginning) (
      from_beginning-rewound (assigned ++ record p { offset = beginning } ∷ []) ps a
      ∙ append_assoc assigned (record p { offset = beginning } ∷ []) (rewound ps))

  -- If the library's list of partitions appends what is added to it, an assignment of partitions
  -- assigns to the consumer the same partitions in the same order, each from the beginning if the
  -- reset is forced, and as the brokers gave them otherwise.
  pub post_rebalance-assign :
      (force : Bool) (partitions : List Element) (c : crate.Consumer)
      → Appends
      → post_rebalance crate force (assign partitions) c
        ≡ crate.assign_partitions (if force then rewound partitions else partitions) c
  unfolding post_rebalance
  post_rebalance-assign true partitions c a =
      ap (λ l. crate.assign_partitions l c) (from_beginning-rewound [] partitions a)
  post_rebalance-assign false partitions c a = refl
