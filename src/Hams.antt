-- ===== src/Hams.antt =====
-- rust-container/src/hams.rs: the preflight and the shutdown checks, over the HTTP client of `reqwest`.
pub mod Budget
use push_cache.Base.{ℕ, zero, suc, List, [], ◌∷◌, Text, ltb, if◌then◌else◌}
use push_cache.Error.{MyError, preflight_check, shutdown_check, Result, ok, err, Act}
use push_cache.Crates.Wire.{Http}

-- `Checks`, its timeout in seconds.
pub record Checks : Type 0 where
  pub timeout : ℕ
  pub fails : ℕ
  pub preflights : List Text
  pub shutdowns : List Text

module _ {W : Type 0} (http : Http W) (sleep : ℕ → W → W) where
  -- The `while` loop of one URL: it returns the failures that are left. With none left nothing is sent.
  unfoldable pub wait_for : ℕ → Text → ℕ → W → ℕ × W
  wait_for timeout url zero w = (zero, w)
  wait_for timeout url (suc fails) w =
      let (r, w') = http.send url w in
      elim r [
        | ok response ↦ (suc fails, w')
        | err e ↦ wait_for timeout url fails (sleep timeout w')
      ]

  -- The `for` loop over the URLs, which share the failures that are allowed.
  unfoldable pub wait_all : ℕ → List Text → ℕ → W → ℕ × W
  unfolding wait_for
  wait_all timeout [] fails w = (fails, w)
  wait_all timeout (url ∷ urls) fails w =
      let (left, w') = wait_for timeout url fails w in wait_all timeout urls left w'

  abbrev pub verdict : MyError → ℕ × W → Result MyError ℕ × W
  verdict e (fails, w) = if ltb 0 fails then (ok fails, w) else (err e, w)

  unfoldable pub preflight : Checks → Act W ℕ
  unfolding wait_all
  preflight checks w =
      verdict preflight_check (wait_all checks.timeout checks.preflights checks.fails w)

  unfoldable pub shutdown : Checks → Act W ℕ
  unfolding wait_all
  shutdown checks w =
      verdict shutdown_check (wait_all checks.timeout checks.shutdowns checks.fails w)
