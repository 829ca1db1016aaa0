-- ===== src/Startup/Join.antt =====
-- startup_tools.rs, `run_startup_checks`: several `run_check` futures that are polled together. One step
-- is an attempt of a check, with the pause behind it if it failed; the next step may be any check's.
use push_cache.Base.{
  ℕ, zero, suc, ◌≡◌, Bool, true, false, Option, none, some, List, [], ◌∷◌, Text, ltb, if◌then◌else◌,
}
use push_cache.Error.{MyError, Result, ok, err, Act}
use push_cache.Startup.{StartupCheckConfig, exhausted}

-- The arguments of a call of `run_check`, its name and its closure.
pub record Check (W : Type 0) : Type 0 where
  pub name : Text
  pub make_future : Act W (Unit {0})

-- How far a future has come: with a number of attempts left, or at its end.
pub data Progress : Type 0 where
  waiting : ℕ → Progress
  passed : Progress
  failed : Progress

abbrev pub Task : Type 0 → Type 0
Task W = Check W × Progress

-- All futures before they are polled for the first time.
abbrev pub started : {W : Type 0} → StartupCheckConfig → List (Check W) → List (Task W)
started config [] = []
started config (c ∷ cs) = (c, waiting config.fails) ∷ started config cs

abbrev pub any_failed : {W : Type 0} → List (Task W) → Bool
any_failed [] = false
any_failed ((c, failed) ∷ ts) = true
any_failed ((c, passed) ∷ ts) = any_failed ts
any_failed ((c, waiting n) ∷ ts) = any_failed ts

-- What a failed attempt leads to: the last one ends the check without a pause.
abbrev pub after_failure : ℕ → Progress
after_failure zero = failed
after_failure (suc n) = waiting (suc n)

module _ {W : Type 0} (sleep : ℕ → W → W) (config : StartupCheckConfig) where
  -- One round of the loop of `run_check`.
  unfoldable pub advance : Check W → ℕ → W → Progress × W
  advance c zero w = (failed, w)
  advance c (suc n) w =
      let (r, w') = c.make_future w in
      elim r [
        | ok reply ↦ (passed, w')
        | err e ↦ (after_failure n, if ltb 0 n then sleep config.timeout w' else w')
      ]

  -- One of the futures makes one round.
  pub data Step : List (Task W) → W → List (Task W) → W → Type 0 where
    here :
        {c : Check W} {n : ℕ} {ts : List (Task W)} {w w' : W} {p : Progress}
        → advance c n w ≡ (p, w')
        → Step ((c, waiting n) ∷ ts) w ((c, p) ∷ ts) w'
    there :
        {t : Task W} {ts ts' : List (Task W)} {w w' : W}
        → Step ts w ts' w'
        → Step (t ∷ ts) w (t ∷ ts') w'

  -- So many steps, none of them after a future has failed: the others are dropped then.
  pub data Run : ℕ → List (Task W) → W → List (Task W) → W → Type 0 where
    rest : {ts : List (Task W)} {w : W} → Run zero ts w ts w
    next :
        {k : ℕ} {ts ts' ts'' : List (Task W)} {w w' w'' : W}
        → Step ts w ts' w'
        → any_failed ts ≡ false
        → Run k ts' w' ts'' w''
        → Run (suc k) ts w ts'' w''

  -- What is returned in the end: the error of a failed future, or success when all have passed.
  unfoldable pub verdict : List (Task W) → Option (Result MyError (Unit {0}))
  verdict [] = some (ok tt)
  verdict ((c, failed) ∷ ts) = some (err (exhausted c.name config))
  verdict ((c, passed) ∷ ts) = verdict ts
  verdict ((c, waiting n) ∷ ts) = elim (verdict ts) [
    | none ↦ none
    | some (ok u) ↦ none
    | some (err e) ↦ some (err e)
  ]
