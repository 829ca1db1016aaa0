-- ===== src/Tests/Starting.antt =====
-- Two startup checks that are polled together, over a clock.
use push_cache.Base.{
  ℕ, ◌+◌, ◌*◌, ◌≤◌, ◌≡◌, refl, true, List, [], ◌∷◌, some, length, codes, ltb, if◌then◌else◌,
}
use push_cache.Error.{MyError, message, Result, ok, err}
use push_cache.Startup.{StartupCheckConfig}
use push_cache.Startup.Join.{
  Check, passed, Task, started, advance, here, there, Run, rest, next, verdict,
}
use push_cache.Startup.Outcome.{rounds, Run-bounded, Run-finishes}
use push_cache.Startup.Verdict.{Means, Run-Means}

abbrev thrice : StartupCheckConfig
thrice = record { fails = 3; timeout = 10; enabled = true }

abbrev pause : ℕ → ℕ → ℕ
pause n now = now + n

-- A check that passes from 15 on, and one that passes at once.
abbrev slow : Check ℕ
slow = record {
  name = codes "slow";
  make_future = λ now. (if ltb now 15 then err (message (codes "not yet")) else ok tt, now);
}

abbrev quick : Check ℕ
quick = record { name = codes "quick"; make_future = λ now. (ok tt, now) }

abbrev two_checks : List (Check ℕ)
two_checks = slow ∷ quick ∷ []

abbrev all_passed : List (Task ℕ)
all_passed = (slow, passed) ∷ (quick, passed) ∷ []

-- The slow one fails, the quick one passes, and the slow one fails and passes.
interleaved : Run pause thrice 4 (started thrice two_checks) 0 all_passed 20
unfolding advance
interleaved =
    next (here refl) refl
      (next (there (here refl)) refl (next (here refl) refl (next (here refl) refl rest)))

Run-bounded_example : 4 ≤ length two_checks * rounds thrice
Run-bounded_example = Run-bounded pause thrice two_checks 4 all_passed 0 20 interleaved

Run-Means_example : Means thrice two_checks ((20 ∷ 10 ∷ 0 ∷ []) ∷ (10 ∷ []) ∷ []) (ok tt)
unfolding verdict interleaved
Run-Means_example = Run-Means pause thrice two_checks 4 all_passed 0 20 (ok tt) interleaved refl

Run-finishes_example :
    (j : ℕ) × (ts' : List (Task ℕ)) × (w'' : ℕ) × (r : Result MyError (Unit {0})) × Run pause thrice
      j all_passed 20 ts' w''
    × (verdict pause thrice ts' ≡ some r)
Run-finishes_example = Run-finishes pause thrice two_checks 4 all_passed 0 20 interleaved
