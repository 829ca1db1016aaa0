-- ===== src/Startup/Verdict.antt =====
-- startup_tools.rs, `run_startup_checks`: what the verdict says of the checks, and a check by itself.
use push_cache.Base.{
  ℕ, zero, suc, ◌≡◌, refl, ap, ◌∙◌, ◌⊎◌, some, List, [], ◌∷◌, arith, ltb, if◌then◌else◌, inl, inr,
}
use mathlib.Core.Path.{subst}
use push_cache.Error.{MyError, Result, ok, err, Result-cases}
use push_cache.Startup.{StartupCheckConfig, exhausted}
use push_cache.Startup.Join.{
  Check, Progress, waiting, passed, failed, Task, started, after_failure, advance, Step, here,
  there, Run, rest, next, verdict,
}
use push_cache.Startup.Attempts.{
  Log, no_attempts, attempts, HasPassed, HasFailed, AllHonest, started-AllHonest, Run-AllHonest,
}
use push_cache.Startup.{attempt_loop, run_check}
use push_cache.Startup.Retries.{attempt_loop-ok, attempt_loop-err}

-- The checks whose futures these are.
abbrev pub checks_of : {W : Type 0} → List (Task W) → List (Check W)
checks_of [] = []
checks_of ((c, p) ∷ ts) = c ∷ checks_of ts

module _ {W : Type 0} (config : StartupCheckConfig) where
  -- Every check has had its successful attempt.
  abbrev pub AllPassed : List (Check W) → Log W → Type 0
  AllPassed [] hs = Unit
  AllPassed (c ∷ cs) [] = ⊥
  AllPassed (c ∷ cs) (h ∷ hs) = HasPassed config c h × AllPassed cs hs

  -- A check has used up its attempts, and the error is its own.
  abbrev pub OneFailed : MyError → List (Check W) → Log W → Type 0
  OneFailed e [] hs = ⊥
  OneFailed e (c ∷ cs) [] = ⊥
  OneFailed e (c ∷ cs) (h ∷ hs) =
      ((e ≡ exhausted c.name config) × HasFailed config c h) ⊎ OneFailed e cs hs

  abbrev pub Means : List (Check W) → Log W → Result MyError (Unit {0}) → Type 0
  Means cs hs (ok u) = AllPassed cs hs
  Means cs hs (err e) = OneFailed e cs hs

module _ {W : Type 0} (sleep : ℕ → W → W) (config : StartupCheckConfig) where
  checks_of-Step :
      {ts ts' : List (Task W)} {w w' : W}
      → Step sleep config ts w ts' w'
      → checks_of ts' ≡ checks_of ts
  checks_of-Step (here e) = refl
  checks_of-Step (there {t} s) = ap (t.0 ∷◌) (checks_of-Step s)

  checks_of-Run :
      {k : ℕ} {ts ts' : List (Task W)} {w w' : W}
      → Run sleep config k ts w ts' w'
      → checks_of ts' ≡ checks_of ts
  checks_of-Run rest = refl
  checks_of-Run (next s f r) = checks_of-Run r ∙ checks_of-Step s

  checks_of-started : (cs : List (Check W)) → checks_of (started config cs) ≡ cs
  checks_of-started [] = refl
  checks_of-started (c ∷ cs) = ap (c ∷◌) (checks_of-started cs)

  verdict-AllPassed :
      (ts : List (Task W)) (hs : Log W)
      → AllHonest config ts hs
      → verdict sleep config ts ≡ some (ok tt)
      → AllPassed config (checks_of ts) hs
  unfolding verdict
  verdict-AllPassed [] hs h v = tt
  verdict-AllPassed (t ∷ ts) [] h v = absurd h
  verdict-AllPassed ((c, failed) ∷ ts) (x ∷ hs) h v = cc
  verdict-AllPassed ((c, passed) ∷ ts) (x ∷ hs) h v = (h.0, verdict-AllPassed ts hs h.1 v)
  verdict-AllPassed ((c, waiting n) ∷ ts) (x ∷ hs) h v = absurd (ground arith)

  verdict-OneFailed :
      (ts : List (Task W)) (hs : Log W) (e : MyError)
      → AllHonest config ts hs
      → verdict sleep config ts ≡ some (err e)
      → OneFailed config e (checks_of ts) hs
  unfolding verdict
  verdict-OneFailed [] hs e h v = absurd (ground arith)
  verdict-OneFailed (t ∷ ts) [] e h v = absurd h
  verdict-OneFailed ((c, failed) ∷ ts) (x ∷ hs) e h v = inl (ground arith, h.0)
  verdict-OneFailed ((c, passed) ∷ ts) (x ∷ hs) e h v = inr (verdict-OneFailed ts hs e h.1 v)
  verdict-OneFailed ((c, waiting n) ∷ ts) (x ∷ hs) e h v =
      inr (verdict-OneFailed ts hs e h.1 (ground arith))

  verdict-Means :
      (ts : List (Task W)) (hs : Log W) (r : Result MyError (Unit {0}))
      → AllHonest config ts hs
      → verdict sleep config ts ≡ some r
      → Means config (checks_of ts) hs r
  verdict-Means ts hs (ok u) h v = verdict-AllPassed ts hs h v
  verdict-Means ts hs (err e) h v = verdict-OneFailed ts hs e h v

  -- Whatever the order in which the startup checks were polled, if the verdict is a success, then
  -- the last attempt that the run made of each check succeeded, and its attempts of that check
  -- before were failures and fewer than the attempts allowed; if it is an error, then it is the
  -- error of one of the checks, of which the run made as many attempts as are allowed, all of them
  -- failures.
  pub Run-Means :
      (cs : List (Check W)) (k : ℕ) (ts : List (Task W)) (w w' : W) (r : Result MyError (Unit {0}))
      (run : Run sleep config k (started config cs) w ts w')
      → verdict sleep config ts ≡ some r
      → Means config cs (attempts sleep config run (no_attempts cs)) r
  Run-Means cs k ts w w' r run v =
      let log = attempts sleep config run (no_attempts cs) in
      subst (λ l. Means config l log r) (checks_of-Run run ∙ checks_of-started cs)
        (verdict-Means ts log r
          (Run-AllHonest sleep config (no_attempts cs) run (started-AllHonest config cs)) v)

  advance-ok :
      (c : Check W) (n : ℕ) (w : W) {u : Unit {0}}
      → (c.make_future w).0 ≡ ok u
      → advance sleep config c (suc n) w ≡ (passed, (c.make_future w).1)
  unfolding advance
  advance-ok c n w e = rw (e, advance) refl

  advance-err :
      (c : Check W) (n : ℕ) (w : W) {e : MyError}
      → (c.make_future w).0 ≡ err e
      → advance sleep config c (suc n) w ≡ (
        after_failure n,
        if ltb 0 n then sleep config.timeout (c.make_future w).1 else (c.make_future w).1,
      )
  unfolding advance
  advance-err c n w e = rw (e, advance) refl

  -- One future by itself.
  abbrev Alone : Check W → ℕ → W → Result MyError (Unit {0}) × W → Type 0
  Alone c n w r =
      (k : ℕ) × (ts : List (Task W)) × Run sleep config k ((c, waiting n) ∷ []) w ts r.1
      × (verdict sleep config ts ≡ some r.0)

  step-Alone :
      (c : Check W) (n : ℕ) (w w' : W) (p : Progress) (r : Result MyError (Unit {0}))
      → advance sleep config c n w ≡ (p, w')
      → verdict sleep config ((c, p) ∷ []) ≡ some r
      → Alone c n w (r, w')
  step-Alone c n w w' p r e v = (1, (c, p) ∷ [], next (here e) refl rest, v)

  advance-zero : (c : Check W) (w : W) → advance sleep config c zero w ≡ (failed, w)
  unfolding advance
  advance-zero c w = refl

  loop-Run :
      (c : Check W) (n : ℕ) (w : W)
      → Alone c n w (attempt_loop sleep c.make_future c.name config n w)
  unfolding attempt_loop verdict
  loop-Run c zero w = step-Alone c zero w w failed _ (advance-zero c w) refl
  loop-Run c (suc zero) w = elim (Result-cases (c.make_future w).0) [
    | inl (u, e) ↦
        rw (attempt_loop-ok sleep c.make_future c.name config 0 w e)
          (step-Alone c 1 w _ passed (ok u) (advance-ok c 0 w e) refl)
    | inr (x, e) ↦
        rw (attempt_loop-err sleep c.make_future c.name config 0 w e)
          (step-Alone c 1 w _ failed _ (advance-err c 0 w e) refl)
  ]
  loop-Run c (suc (suc n)) w = elim (Result-cases (c.make_future w).0) [
    | inl (u, e) ↦
        rw (attempt_loop-ok sleep c.make_future c.name config (suc n) w e)
          (step-Alone c (suc (suc n)) w _ passed (ok u) (advance-ok c (suc n) w e) refl)
    | inr (x, e) ↦
        let later =
          if ltb 0 (suc n) then sleep config.timeout (c.make_future w).1 else (c.make_future w).1 in
        let (k, ts, run, v) = loop-Run c (suc n) later in
        rw (attempt_loop-err sleep c.make_future c.name config (suc n) w e)
          (suc k, ts, next (here (advance-err c (suc n) w e)) refl run, v)
  ]

  -- What a startup check by itself returns, and the world it leaves, are the verdict and the world
  -- of a run of the rounds of that one check.
  pub run_check-Run :
      (c : Check W) (w : W)
      → let (r, w') = run_check sleep c.make_future c.name config w in
        (k : ℕ) × (ts : List (Task W)) × Run sleep config k (started config (c ∷ [])) w ts w'
        × (verdict sleep config ts ≡ some r)
  unfolding run_check
  run_check-Run c w = loop-Run c config.fails w
