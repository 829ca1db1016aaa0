-- ===== src/Consumer/Stats.antt =====
-- consumer.rs, `ConsumerStatsContext::stats`: the lag of the consumer, and readiness at startup. A
-- number of type `i64` is its bit pattern, and its sums wrap as in a release build.
use push_cache.Base.{
  ℕ, ◌+◌, ◌%◌, ◌^◌, Bool, true, false, not, ◌&&◌, List, [], ◌∷◌, ltb, ◌==◌, if◌then◌else◌,
}
use push_cache.Crates.{Metrics}

-- `rdkafka::statistics::Partition`: what is read of it.
pub record Partition : Type 0 where
  pub consumer_lag : ℕ
  pub committed_offset : ℕ

-- The topics, each with its partitions, in the order of the maps' iterators.
abbrev pub Statistics : Type 0
Statistics = List (List Partition)

abbrev pub positive : ℕ → Bool
positive lag = ltb 0 lag && ltb lag (2 ^ 63)

-- The inner loop, over the partitions of a topic, and the outer one, over the topics.
unfoldable pub add_lags : ℕ → List Partition → ℕ
add_lags lag_total [] = lag_total
add_lags lag_total (p ∷ ps) =
    add_lags (if positive p.consumer_lag then (lag_total + p.consumer_lag) % 2 ^ 64 else lag_total)
      ps

unfoldable pub total_lag : ℕ → Statistics → ℕ
unfolding add_lags
total_lag lag_total [] = lag_total
total_lag lag_total (t ∷ ts) = total_lag (add_lags lag_total t) ts

module _ (metrics : Metrics) (Probe : Type 0) (enable : Probe → Probe) where
  -- The context, with the fields of the shared state that `stats` writes. `lag_probe` is the probe of
  -- the crate `hams`.
  pub record StatsContext : Type 0 where
    pub consumer_lag : metrics.Gauge
    pub startup_lag_cleared : Bool
    pub was_lagging : Bool
    pub lag_probe : Probe

  -- The branch of a lag of 0.
  abbrev pub caught_up : StatsContext → StatsContext
  caught_up c =
      let c' = record c { was_lagging = if c.was_lagging then false else c.was_lagging } in
      if not c'.startup_lag_cleared
      then record c' { startup_lag_cleared = true; lag_probe = enable c'.lag_probe }
      else c'

  unfoldable pub stats : Statistics → StatsContext → StatsContext
  stats statistics c =
      let lag_total = total_lag 0 statistics in
      let c' = record c { consumer_lag = metrics.set lag_total c.consumer_lag } in
      if positive lag_total
      then record c' { was_lagging = if not c'.was_lagging then true else c'.was_lagging }
      else if lag_total == 0
      then caught_up c'
      else c'
