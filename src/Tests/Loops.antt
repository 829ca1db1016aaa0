-- ===== src/Tests/Loops.antt =====
-- The statistics, a check at startup and the preflight checks on short inputs.
use push_cache.Base.{
  ℕ, ◌+◌, ◌-◌, ◌^◌, ◌<◌, ◌≤◌, ◌≡◌, ◌⊎◌, true, false, not, ◌&&◌, ◌||◌, [], ◌∷◌, codes, arith, ◌==◌,
  if◌then◌else◌, ltb,
}
use push_cache.Error.{MyError, message, preflight_check, Result, ok, err}
use push_cache.Crates.Models.{plain_metrics}
use push_cache.Crates.Wire.{Http}
use push_cache.Consumer.Stats.{Statistics, StatsContext, stats}
use push_cache.Consumer.Ready.{known_lag, run_stats, some_over, stats_lem, run_stats-ready}
use push_cache.Startup.{StartupCheckConfig, run_check}
use push_cache.Startup.Retries.{Ends, run_check-Ends}
use push_cache.Hams.{Checks, preflight}
use push_cache.Hams.Budget.{Answered, Spent, preflight-Answered}

-- The probe counts how often it was enabled.
abbrev fresh : StatsContext plain_metrics ℕ (λ n. n + 1)
fresh = record { consumer_lag = 0; startup_lag_cleared = false; was_lagging = false; lag_probe = 0 }

-- A lag of 3, one that is not known, and none.
abbrev behind : Statistics
behind = (record { consumer_lag = 3; committed_offset = 1 } ∷ []) ∷ []

abbrev unknown : Statistics
unknown = (record { consumer_lag = 2 ^ 64 - 1; committed_offset = 0 } ∷ []) ∷ []

stats_lem_example :
    let c' = stats plain_metrics ℕ (λ n. n + 1) unknown fresh in
    let over = known_lag unknown == 0 in
    (plain_metrics.gauge c'.consumer_lag ≡ known_lag unknown)
    × (c'.was_lagging ≡ not over)
    × (c'.startup_lag_cleared ≡ (fresh.startup_lag_cleared || over))
    × (c'.lag_probe
        ≡ (if over && not fresh.startup_lag_cleared then fresh.lag_probe + 1 else fresh.lag_probe))
stats_lem_example = stats_lem plain_metrics ℕ (λ n. n + 1) unknown fresh (omega arith)

run_stats-ready_example :
    let c' = run_stats plain_metrics ℕ (λ n. n + 1) (behind ∷ unknown ∷ []) fresh in
    (c'.startup_lag_cleared ≡ (fresh.startup_lag_cleared || some_over (behind ∷ unknown ∷ [])))
    × (c'.lag_probe ≡ (
        if some_over (behind ∷ unknown ∷ []) && not fresh.startup_lag_cleared
        then fresh.lag_probe + 1
        else fresh.lag_probe))
run_stats-ready_example =
    run_stats-ready plain_metrics ℕ (λ n. n + 1) (behind ∷ unknown ∷ []) fresh
      (omega arith, (omega arith, tt))

abbrev thrice : StartupCheckConfig
thrice = record { fails = 3; timeout = 10; enabled = true }

-- The time goes on by the pauses, and the check passes from 15 on.
abbrev pause : ℕ → ℕ → ℕ
pause n now = now + n

abbrev probe : ℕ → Result MyError ℕ × ℕ
probe now = (if ltb now 15 then err (message (codes "not yet")) else ok now, now)

run_check-Ends_example :
    Ends pause probe (codes "clock") thrice 3 0 (run_check pause probe (codes "clock") thrice 0)
run_check-Ends_example = run_check-Ends pause probe (codes "clock") thrice 0

abbrev late_http : Http ℕ
late_http = record {
  Response = ℕ;
  send = λ url now. (if ltb now 15 then err (codes "refused") else ok 200, now);
  status = λ r. r;
  status_text = λ r. [];
  text = λ r now. (ok [], now);
  json_schema = λ r now. (err [], now);
  json_texts = λ r now. (err [], now);
}

abbrev two_urls : Checks
two_urls = record {
  timeout = 10;
  fails = 3;
  preflights = codes "http://a/" ∷ codes "http://b/" ∷ [];
  shutdowns = [];
}

preflight-Answered_example :
    let (r, w') = preflight late_http pause two_urls 0 in
    ((left : ℕ) × (r ≡ ok left)
      × (0 < left)
      × (left ≤ 3)
      × Answered late_http pause 10 two_urls.preflights 3 0 left w')
    ⊎ ((r ≡ err preflight_check) × Spent late_http pause 10 two_urls.preflights 3 0)
preflight-Answered_example = preflight-Answered late_http pause two_urls 0
