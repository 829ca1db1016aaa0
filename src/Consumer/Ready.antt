-- ===== src/Consumer/Ready.antt =====
-- consumer.rs, `ConsumerStatsContext::stats`: the sum of the lags, and readiness.
use push_cache.Base.{
  ℕ, ◌+◌, ◌%◌, ◌^◌, ◌<◌, ◌≡◌, Bool, false, not, ◌&&◌, ◌||◌, List, [], ◌∷◌, ◌∙◌, ap, arith, ◌==◌,
  if◌then◌else◌, Bool-cases, inl, inr,
}
use push_cache.Crates.{Metrics}
use push_cache.Consumer.Stats.{
  Partition, Statistics, StatsContext, positive, add_lags, total_lag, stats,
}

-- The sum of the lags that are known and positive.
abbrev pub known_lags : List Partition → ℕ
known_lags [] = 0
known_lags (p ∷ ps) = (if positive p.consumer_lag then p.consumer_lag else 0) + known_lags ps

abbrev pub known_lag : Statistics → ℕ
known_lag [] = 0
known_lag (t ∷ ts) = known_lags t + known_lag ts

add_lags_lem :
    (n : ℕ) (ps : List Partition) → n < 2 ^ 64 → add_lags n ps ≡ (n + known_lags ps) % 2 ^ 64
unfolding add_lags
add_lags_lem n [] h = omega arith
add_lags_lem n (p ∷ ps) h = elim (Bool-cases (positive p.consumer_lag)) [
  | inl e ↦ rw e (add_lags_lem ((n + p.consumer_lag) % 2 ^ 64) ps (omega arith) ∙ omega arith)
  | inr e ↦ rw e (add_lags_lem n ps h ∙ omega arith)
]

total_lag_lem :
    (n : ℕ) (ts : Statistics) → n < 2 ^ 64 → total_lag n ts ≡ (n + known_lag ts) % 2 ^ 64
unfolding total_lag
total_lag_lem n [] h = omega arith
total_lag_lem n (t ∷ ts) h =
    ap (λ m. total_lag m ts) (add_lags_lem n t h)
    ∙ total_lag_lem ((n + known_lags t) % 2 ^ 64) ts (omega arith)
    ∙ omega arith

abbrev pub AllFit : List Statistics → Type 0
AllFit [] = Unit
AllFit (ts ∷ rest) = (known_lag ts < 2 ^ 63) × AllFit rest

-- Some callback saw no partition with a positive lag.
abbrev pub some_over : List Statistics → Bool
some_over [] = false
some_over (ts ∷ rest) = known_lag ts == 0 || some_over rest

module _ (metrics : Metrics) (Probe : Type 0) (enable : Probe → Probe) where
  -- If the sum of the known positive lags is below 2^63, the statistics callback sets the lag gauge
  -- to that sum, notes that the consumer is lagging exactly if it is positive, and with a sum of 0
  -- marks the startup lag as cleared; the probe is enabled once if the mark was not yet set, and
  -- otherwise stays as it is.
  pub stats_lem :
      (ts : Statistics) (c : StatsContext metrics Probe enable)
      → known_lag ts < 2 ^ 63
      → let c' = stats metrics Probe enable ts c in
        let over = known_lag ts == 0 in
        (metrics.gauge c'.consumer_lag ≡ known_lag ts)
        × (c'.was_lagging ≡ not over)
        × (c'.startup_lag_cleared ≡ (c.startup_lag_cleared || over))
        × (c'.lag_probe
            ≡ (if over && not c.startup_lag_cleared then enable c.lag_probe else c.lag_probe))
  unfolding stats
  stats_lem ts c h =
      let e : total_lag 0 ts ≡ known_lag ts = total_lag_lem 0 ts (omega arith) ∙ omega arith in
      rw e (ground (arith, metrics.gauge-set (known_lag ts) c.consumer_lag))

  -- The callbacks in turn.
  unfoldable pub run_stats :
      List Statistics → StatsContext metrics Probe enable → StatsContext metrics Probe enable
  run_stats [] c = c
  run_stats (ts ∷ rest) c = run_stats rest (stats metrics Probe enable ts c)

  -- Over any sequence of statistics callbacks whose sums of lags are below 2^63, the startup lag is
  -- marked as cleared in the end exactly if it was at the start or some callback saw no positive
  -- lag, and the probe was enabled once if it was such a callback that set the mark, and otherwise
  -- not.
  pub run_stats-ready :
      (history : List Statistics) (c : StatsContext metrics Probe enable)
      → AllFit history
      → let c' = run_stats history c in
        (c'.startup_lag_cleared ≡ (c.startup_lag_cleared || some_over history))
        × (c'.lag_probe ≡ (
            if some_over history && not c.startup_lag_cleared
            then enable c.lag_probe
            else c.lag_probe))
  unfolding run_stats
  run_stats-ready [] c h = ground arith
  run_stats-ready (ts ∷ rest) c h =
      ground (arith, stats_lem ts c h.0, run_stats-ready rest (stats metrics Probe enable ts c) h.1)
