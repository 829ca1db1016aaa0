-- ===== src/Startup.antt =====
-- rust-container/src/startup_tools.rs, `run_check`: a check with retries. Time is the world's: `sleep` is
-- an argument, as `tokio::time::sleep` is not part of the sources.
pub mod Retries
pub mod Join
pub mod Attempts
pub mod Outcome
pub mod Verdict
pub mod Checks
pub mod Answers
pub mod Passed
use push_cache.Base.{ℕ, zero, suc, Bool, List, Text, ◌++◌, codes, ltb, if◌then◌else◌}
use push_cache.Base.Decimal.{decimal}
use push_cache.Error.{MyError, message, Result, ok, err, Act}

-- `config::StartupCheckConfig`, its timeout in milliseconds.
pub record StartupCheckConfig : Type 0 where
  pub fails : ℕ
  pub timeout : ℕ
  pub enabled : Bool

-- The error of a check whose attempts have all failed.
abbrev pub exhausted : Text → StartupCheckConfig → MyError
exhausted name config = message (
    codes "Check "
    ++ (name ++ (codes " failed after " ++ (decimal config.fails ++ codes " attempts"))))

module _ {W A : Type 0} (sleep : ℕ → W → W) (make_future : Act W A) where
  -- The loop, by the attempts that remain.
  unfoldable pub attempt_loop : Text → StartupCheckConfig → ℕ → Act W A
  attempt_loop name config zero w = (err (exhausted name config), w)
  attempt_loop name config (suc attempts_remaining) w =
      let (r, w') = make_future w in
      elim r [
        | ok reply ↦ (ok reply, w')
        | err e ↦
            attempt_loop name config attempts_remaining
              (if ltb 0 attempts_remaining then sleep config.timeout w' else w')
      ]

  unfoldable pub run_check : Text → StartupCheckConfig → Act W A
  unfolding attempt_loop
  run_check name config = attempt_loop name config config.fails
