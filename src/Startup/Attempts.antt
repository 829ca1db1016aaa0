-- ===== src/Startup/Attempts.antt =====
-- startup_tools.rs, `run_startup_checks`: the attempts that an interleaving of the checks has made.
use push_cache.Base.{ℕ, zero, suc, ◌+◌, ◌<◌, ◌≡◌, List, [], ◌∷◌, length, arith, inl, inr}
use mathlib.Core.Path.{subst}
use push_cache.Error.{MyError, ok, err, Result-cases}
use push_cache.Startup.{StartupCheckConfig}
use push_cache.Startup.Join.{
  Check, waiting, passed, failed, Task, started, after_failure, advance, Step, here, there, Run,
  rest, next,
}

-- For each future, the worlds in which it made an attempt, the last one first.
abbrev pub Log : Type 0 → Type 0
Log W = List (List W)

-- Before the first step.
abbrev pub no_attempts : {W : Type 0} → List (Check W) → Log W
no_attempts [] = []
no_attempts (c ∷ cs) = [] ∷ no_attempts cs

module _ {W : Type 0} (sleep : ℕ → W → W) (config : StartupCheckConfig) where
  -- A step that begins without attempts left makes none.
  abbrev noted : {ts ts' : List (Task W)} {w w' : W} → Step sleep config ts w ts' w' → Log W → Log W
  noted s [] = []
  noted (here {n = zero} e) (h ∷ hs) = h ∷ hs
  noted (here {c = c} {n = suc n} {w = w} e) (h ∷ hs) = (w ∷ h) ∷ hs
  noted {w = w} {w' = w'} (there {t = t} {ts = ts} {ts' = ts'} s) (h ∷ hs) =
      h ∷ noted {ts = ts} {ts' = ts'} s hs

  -- The attempts of a run, after those that were made before it.
  abbrev pub attempts :
      {k : ℕ} {ts ts' : List (Task W)} {w w' : W} → Run sleep config k ts w ts' w' → Log W → Log W
  attempts rest hs = hs
  attempts (next s f r) hs = attempts r (noted s hs)

-- In each of these worlds an attempt of the check fails.
abbrev pub AllFail : {W : Type 0} → Check W → List W → Type 0
AllFail c [] = Unit
AllFail c (w ∷ ws) = ((e : MyError) × ((c.make_future w).0 ≡ err e)) × AllFail c ws

module _ {W : Type 0} (config : StartupCheckConfig) where
  -- The last attempt succeeds, after failures that leave one of the attempts allowed.
  abbrev pub HasPassed : Check W → List W → Type 0
  HasPassed c [] = ⊥
  HasPassed c (w ∷ ws) = ((c.make_future w).0 ≡ ok tt) × AllFail c ws × (length ws < config.fails)

  -- As many attempts as are allowed, all of them failures.
  abbrev pub HasFailed : Check W → List W → Type 0
  HasFailed c ws = AllFail c ws × (length ws ≡ config.fails)

  -- The progress of a future is what its attempts made it.
  abbrev pub IsHonest : Task W → List W → Type 0
  IsHonest (c, waiting n) ws = AllFail c ws × (length ws + n ≡ config.fails)
  IsHonest (c, passed) ws = HasPassed c ws
  IsHonest (c, failed) ws = HasFailed c ws

  abbrev pub AllHonest : List (Task W) → Log W → Type 0
  AllHonest [] hs = Unit
  AllHonest (t ∷ ts) [] = ⊥
  AllHonest (t ∷ ts) (h ∷ hs) = IsHonest t h × AllHonest ts hs

  pub started-AllHonest : (cs : List (Check W)) → AllHonest (started config cs) (no_attempts cs)
  started-AllHonest [] = tt
  started-AllHonest (c ∷ cs) = ((tt, omega arith), started-AllHonest cs)

module _ {W : Type 0} (sleep : ℕ → W → W) (config : StartupCheckConfig) where
  after_failure-IsHonest :
      (c : Check W) (n : ℕ) (w : W) (ws : List W) {e : MyError}
      → (c.make_future w).0 ≡ err e
      → IsHonest config (c, waiting (suc n)) ws
      → IsHonest config (c, after_failure n) (w ∷ ws)
  after_failure-IsHonest c zero w ws {e} p (f, m) = (((e, p), f), omega arith)
  after_failure-IsHonest c (suc n) w ws {e} p (f, m) = (((e, p), f), omega arith)

  spent-IsHonest :
      (c : Check W) (w : W) (ws : List W)
      → IsHonest config (c, waiting zero) ws
      → IsHonest config (c, (advance sleep config c zero w).0) ws
  unfolding advance
  spent-IsHonest c w ws (f, m) = (f, omega arith)

  advance-IsHonest :
      (c : Check W) (n : ℕ) (w : W) (ws : List W)
      → IsHonest config (c, waiting (suc n)) ws
      → IsHonest config (c, (advance sleep config c (suc n) w).0) (w ∷ ws)
  unfolding advance
  advance-IsHonest c n w ws (f, m) = elim (Result-cases (c.make_future w).0) [
    | inl (u, p) ↦ rw (p, advance) (p, f, omega arith)
    | inr (x, p) ↦ rw (p, advance) (after_failure-IsHonest c n w ws p (f, m))
  ]

  Step-AllHonest :
      {ts ts' : List (Task W)} {w w' : W} (hs : Log W) (s : Step sleep config ts w ts' w')
      → AllHonest config ts hs
      → AllHonest config ts' (noted sleep config s hs)
  Step-AllHonest [] (here e) h = absurd h
  Step-AllHonest [] (there s) h = absurd h
  Step-AllHonest (h ∷ hs) (here {c = c} {n = zero} {w = w} e) (now, others) =
      (subst (λ r. IsHonest config (c, r.0) h) e (spent-IsHonest c w h now), others)
  Step-AllHonest (h ∷ hs) (here {c = c} {n = suc n} {w = w} e) (now, others) =
      (subst (λ r. IsHonest config (c, r.0) (w ∷ h)) e (advance-IsHonest c n w h now), others)
  Step-AllHonest {w = w} {w' = w'} (h ∷ hs) (there {t = t} {ts = ts} {ts' = ts'} s) (now, others) =
      (now, Step-AllHonest {ts = ts} {ts' = ts'} hs s others)

  pub Run-AllHonest :
      {k : ℕ} {ts ts' : List (Task W)} {w w' : W} (hs : Log W) (r : Run sleep config k ts w ts' w')
      → AllHonest config ts hs
      → AllHonest config ts' (attempts sleep config r hs)
  Run-AllHonest hs rest h = h
  Run-AllHonest hs (next s f r) h =
      Run-AllHonest (noted sleep config s hs) r (Step-AllHonest hs s h)
