-- ===== src/Startup/Retries.antt =====
-- startup_tools.rs, `run_check`: the ways in which it ends.
use push_cache.Base.{
  ℕ, zero, suc, ◌<◌, ◌≡◌, refl, ap, ◌∙◌, ◌⊎◌, inl, inr, Text, arith, ltb, true, if◌then◌else◌,
}
use push_cache.Error.{MyError, Result, ok, err, Act, Result-cases}
use push_cache.Startup.{StartupCheckConfig, exhausted, attempt_loop, run_check}

module _ {W A : Type 0} (sleep : ℕ → W → W) (make_future : Act W A) where
  -- From the first world `n` attempts fail, with a pause behind each, and lead to the second.
  pub data Failing (timeout : ℕ) : ℕ → W → W → Type 0 where
    start : {w : W} → Failing timeout zero w w
    again :
        {n : ℕ} {w w' : W} {e : MyError}
        → (make_future w).0 ≡ err e
        → Failing timeout n (sleep timeout (make_future w).1) w'
        → Failing timeout (suc n) w w'

  -- A success after some failures, or a failure of every attempt.
  abbrev pub Ends : Text → StartupCheckConfig → ℕ → W → Result MyError A × W → Type 0
  Ends name config n w r =
      ((k : ℕ) × (w' : W) × (a : A) × (k < n)
        × Failing config.timeout k w w'
        × ((make_future w').0 ≡ ok a)
        × (r ≡ (ok a, (make_future w').1)))
      ⊎ (((n ≡ 0) × (r ≡ (err (exhausted name config), w)))
          ⊎ ((k : ℕ) × (w' : W) × (e : MyError) × (n ≡ suc k)
              × Failing config.timeout k w w'
              × ((make_future w').0 ≡ err e)
              × (r ≡ (err (exhausted name config), (make_future w').1))))

  pub attempt_loop-ok :
      (name : Text) (config : StartupCheckConfig) (n : ℕ) (w : W) {a : A}
      → (make_future w).0 ≡ ok a
      → attempt_loop sleep make_future name config (suc n) w ≡ (ok a, (make_future w).1)
  unfolding attempt_loop
  attempt_loop-ok name config n w e = rw (e, attempt_loop) refl

  pub attempt_loop-err :
      (name : Text) (config : StartupCheckConfig) (n : ℕ) (w : W) {e : MyError}
      → (make_future w).0 ≡ err e
      → attempt_loop sleep make_future name config (suc n) w
        ≡ attempt_loop sleep make_future name config n
            (if ltb 0 n then sleep config.timeout (make_future w).1 else (make_future w).1)
  unfolding attempt_loop
  attempt_loop-err name config n w e = rw (e, attempt_loop) refl

  -- A failure with attempts left is followed by a pause and the rest of the attempts.
  attempt_loop-again :
      (name : Text) (config : StartupCheckConfig) (n : ℕ) (w : W) {e : MyError}
      → (make_future w).0 ≡ err e
      → attempt_loop sleep make_future name config (suc (suc n)) w
        ≡ attempt_loop sleep make_future name config
            (suc n)
            (sleep config.timeout (make_future w).1)
  attempt_loop-again name config n w e =
      let more : ltb 0 (suc n) ≡ true = ground arith in
      attempt_loop-err name config (suc n) w e
      ∙ ap
          (λ b.
            attempt_loop sleep make_future name config (suc n)
              (if b then sleep config.timeout (make_future w).1 else (make_future w).1))
          more

  attempt_loop-Ends :
      (name : Text) (config : StartupCheckConfig) (n : ℕ) (w : W)
      → Ends name config n w (attempt_loop sleep make_future name config n w)
  unfolding attempt_loop
  attempt_loop-Ends name config zero w = inr (inl (refl, refl))
  attempt_loop-Ends name config (suc zero) w = elim (Result-cases (make_future w).0) [
    | inl (a, e) ↦ inl (0, w, a, omega arith, start, e, rw (e, attempt_loop) refl)
    | inr (x, e) ↦ inr (inr (0, w, x, refl, start, e, rw (e, attempt_loop) refl))
  ]
  attempt_loop-Ends name config (suc (suc n)) w = elim (Result-cases (make_future w).0) [
    | inl (a, e) ↦ inl (0, w, a, omega arith, start, e, rw (e, attempt_loop) refl)
    | inr (x, e) ↦
        rw (attempt_loop-again name config n w e)
          (elim (attempt_loop-Ends name config (suc n) (sleep config.timeout (make_future w).1)) [
            | inl (k, w', a, lt, f, s, r) ↦ inl (suc k, w', a, omega arith, again e f, s, r)
            | inr (inl (z, r)) ↦ absurd (omega arith)
            | inr (inr (k, w', y, eq, f, s, r)) ↦
                inr (inr (suc k, w', y, ap suc eq, again e f, s, r))
          ])
  ]

  -- A startup check returns the first success, after fewer failures than the attempts allowed, with
  -- a pause after each failure; or it fails after as many failed attempts as are allowed, without a
  -- pause after the last one; or no attempt is allowed, and it fails without making one.
  pub run_check-Ends :
      (name : Text) (config : StartupCheckConfig) (w : W)
      → Ends name config config.fails w (run_check sleep make_future name config w)
  unfolding run_check
  run_check-Ends name config w = attempt_loop-Ends name config config.fails w
