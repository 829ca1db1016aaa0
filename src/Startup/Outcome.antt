-- ===== src/Startup/Outcome.antt =====
-- startup_tools.rs, `run_startup_checks`: what any interleaving of the checks ends with.
use push_cache.Base.{
  ℕ, zero, suc, ◌+◌, ◌*◌, ◌≤◌, ◌<◌, ◌≡◌, refl, true, false, none, some, List, [], ◌∷◌, length,
  arith, ◌==◌, if◌then◌else◌, inl, inr, Option-cases, Bool-cases,
}
use mathlib.Core.Path.{subst}
use push_cache.Error.{MyError, Result, err}
use push_cache.Startup.{StartupCheckConfig, exhausted}
use push_cache.Startup.Join.{
  Check, Progress, waiting, passed, failed, Task, started, any_failed, advance, Step, here, there,
  Run, rest, next, verdict,
}

-- The steps that a list of futures still has before it.
abbrev pub left : Progress → ℕ
left (waiting zero) = 1
left (waiting (suc n)) = suc n
left passed = 0
left failed = 0

abbrev pub all_left : {W : Type 0} → List (Task W) → ℕ
all_left [] = 0
all_left ((c, p) ∷ ts) = left p + all_left ts

left_waiting : (n : ℕ) → left (waiting n) ≡ (if n == 0 then 1 else n)
left_waiting zero = refl
left_waiting (suc n) = ground arith

-- The attempts of a check; without any, one step finds out.
abbrev pub rounds : StartupCheckConfig → ℕ
rounds config = if config.fails == 0 then 1 else config.fails

module _ {W : Type 0} (sleep : ℕ → W → W) (config : StartupCheckConfig) where
  advance-left :
      (c : Check W) (n : ℕ) (w : W) → left (advance sleep config c n w).0 < left (waiting n)
  unfolding advance
  advance-left c zero w = omega arith
  advance-left c (suc zero) w = ground arith
  advance-left c (suc (suc n)) w = ground arith

  Step-left :
      {ts ts' : List (Task W)} {w w' : W}
      → Step sleep config ts w ts' w'
      → all_left ts' < all_left ts
  Step-left (here {c} {n} {w} e) =
      omega (arith, subst (λ r. left r.0 < left (waiting n)) e (advance-left c n w))
  Step-left (there s) = omega (arith, Step-left s)

  Run-left :
      {k : ℕ} {ts ts' : List (Task W)} {w w' : W}
      → Run sleep config k ts w ts' w'
      → k + all_left ts' ≤ all_left ts
  Run-left rest = omega arith
  Run-left (next s f r) = omega (arith, Run-left r, Step-left s)

  left-started : (cs : List (Check W)) → all_left (started config cs) ≡ length cs * rounds config
  left-started [] = omega arith
  left-started (c ∷ cs) = grind (arith, left-started cs, left_waiting config.fails)

  -- Startup checks that are polled together make no more rounds than there are checks, times the
  -- attempts that are allowed, or one if none is.
  pub Run-bounded :
      (cs : List (Check W)) (k : ℕ) (ts : List (Task W)) (w w' : W)
      → Run sleep config k (started config cs) w ts w'
      → k ≤ length cs * rounds config
  Run-bounded cs k ts w w' r = omega (arith, Run-left r, left-started cs)

  -- A failed future decides the verdict.
  verdict-any_failed :
      (ts : List (Task W))
      → any_failed ts ≡ true
      → (e : MyError) × (verdict sleep config ts ≡ some (err e))
  unfolding verdict
  verdict-any_failed [] h = cc
  verdict-any_failed ((c, failed) ∷ ts) h = (exhausted c.name config, refl)
  verdict-any_failed ((c, passed) ∷ ts) h = verdict-any_failed ts h
  verdict-any_failed ((c, waiting n) ∷ ts) h =
      let (e, v) = verdict-any_failed ts h in (e, rw v refl)

  undecided-any_failed :
      (ts : List (Task W)) → verdict sleep config ts ≡ none → any_failed ts ≡ false
  undecided-any_failed ts h = elim (Bool-cases (any_failed ts)) [
    | inl yes_failed ↦ let (e, v) = verdict-any_failed ts yes_failed in cc
    | inr none_failed ↦ none_failed
  ]

  -- Without a verdict some future can go on.
  undecided-Step :
      (ts : List (Task W)) (w : W)
      → verdict sleep config ts ≡ none
      → (ts' : List (Task W)) × (w' : W) × Step sleep config ts w ts' w'
  unfolding verdict
  undecided-Step [] w h = cc
  undecided-Step ((c, failed) ∷ ts) w h = cc
  undecided-Step ((c, passed) ∷ ts) w h =
      let (ts', w', s) = undecided-Step ts w h in ((c, passed) ∷ ts', w', there s)
  undecided-Step ((c, waiting n) ∷ ts) w h =
      let (p, w') = advance sleep config c n w in ((c, p) ∷ ts, w', here refl)

  finish :
      (fuel : ℕ) (ts : List (Task W)) (w : W)
      → all_left ts ≤ fuel
      → (k : ℕ) × (ts' : List (Task W)) × (w' : W) × (r : Result MyError (Unit {0})) × Run sleep
          config k ts w ts' w'
        × (verdict sleep config ts' ≡ some r)
  finish zero ts w h = elim (Option-cases (verdict sleep config ts)) [
    | inr (r, v) ↦ (0, ts, w, r, rest, v)
    | inl v ↦ let (ts', w', s) = undecided-Step ts w v in absurd (omega (arith, Step-left s))
  ]
  finish (suc fuel) ts w h = elim (Option-cases (verdict sleep config ts)) [
    | inr (r, v) ↦ (0, ts, w, r, rest, v)
    | inl v ↦
        let (ts', w', s) = undecided-Step ts w v in
        let (k, ts'', w'', r, run, v') = finish fuel ts' w' (omega (arith, Step-left s)) in
        (suc k, ts'', w'', r, next s (undecided-any_failed ts v) run, v')
  ]

  -- From every state that polling the startup checks together can reach, they can be polled on
  -- until there is a verdict.
  pub Run-finishes :
      (cs : List (Check W)) (k : ℕ) (ts : List (Task W)) (w w' : W)
      → Run sleep config k (started config cs) w ts w'
      → (j : ℕ) × (ts' : List (Task W)) × (w'' : W) × (r : Result MyError (Unit {0})) × Run sleep
          config j ts w' ts' w''
        × (verdict sleep config ts' ≡ some r)
  Run-finishes cs k ts w w' run = finish (all_left ts) ts w' (omega arith)
