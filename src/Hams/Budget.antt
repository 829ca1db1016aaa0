-- ===== src/Hams/Budget.antt =====
-- hams.rs, `Checks::preflight`: the failures that the URLs of a list may use up together.
use push_cache.Base.{
  ℕ, zero, suc, ◌<◌, ◌≤◌, ◌≡◌, refl, ◌⊎◌, inl, inr, List, [], ◌∷◌, Text, arith, ltb, Bool-cases,
  ltb→lt,
}
use push_cache.Error.{preflight_check, ok, err, Result-cases}
use push_cache.Crates.Wire.{Http}
use push_cache.Hams.{Checks, wait_for, wait_all, preflight}

module _ {W : Type 0} (http : Http W) (sleep : ℕ → W → W) where
  -- Every URL of the list has answered, in turn, each failure before an answer paid for with one of
  -- the failures allowed: of the first number the second is left.
  pub data Answered (timeout : ℕ) : List Text → ℕ → W → ℕ → W → Type 0 where
    done : {f : ℕ} {w : W} → Answered timeout [] f w f w
    answer :
        {url : Text} {urls : List Text} {f g : ℕ} {w w' : W} {r : http.Response}
        → (http.send url w).0 ≡ ok r
        → Answered timeout urls (suc f) (http.send url w).1 g w'
        → Answered timeout (url ∷ urls) (suc f) w g w'
    retry :
        {url : Text} {urls : List Text} {f g : ℕ} {w w' : W} {e : Text}
        → (http.send url w).0 ≡ err e
        → Answered timeout (url ∷ urls) f (sleep timeout (http.send url w).1) g w'
        → Answered timeout (url ∷ urls) (suc f) w g w'

  -- The failures allowed, of which there is the number given, were used up before every URL had answered.
  -- A URL whose turn comes with none of them left is not asked.
  pub data Spent (timeout : ℕ) : List Text → ℕ → W → Type 0 where
    nothing_left : {urls : List Text} {w : W} → Spent timeout urls 0 w
    answer_first :
        {url : Text} {urls : List Text} {f : ℕ} {w : W} {r : http.Response}
        → (http.send url w).0 ≡ ok r
        → Spent timeout urls (suc f) (http.send url w).1
        → Spent timeout (url ∷ urls) (suc f) w
    failed_first :
        {url : Text} {urls : List Text} {f : ℕ} {w : W} {e : Text}
        → (http.send url w).0 ≡ err e
        → Spent timeout (url ∷ urls) f (sleep timeout (http.send url w).1)
        → Spent timeout (url ∷ urls) (suc f) w

  wait_all-zero :
      (timeout : ℕ) (urls : List Text) (w : W) → (wait_all http sleep timeout urls 0 w).0 ≡ 0
  unfolding wait_all
  wait_all-zero timeout [] w = refl
  wait_all-zero timeout (url ∷ urls) w = wait_all-zero timeout urls w

  wait_for-ok :
      (timeout : ℕ) (url : Text) (f : ℕ) (w : W) {r : http.Response}
      → (http.send url w).0 ≡ ok r
      → wait_for http sleep timeout url (suc f) w ≡ (suc f, (http.send url w).1)
  unfolding wait_for
  wait_for-ok timeout url f w e = rw (e, wait_for) refl

  wait_for-err :
      (timeout : ℕ) (url : Text) (f : ℕ) (w : W) {x : Text}
      → (http.send url w).0 ≡ err x
      → wait_for http sleep timeout url (suc f) w
        ≡ wait_for http sleep timeout url f (sleep timeout (http.send url w).1)
  unfolding wait_for
  wait_for-err timeout url f w e = rw (e, wait_for) refl

  -- The rest of the URLs after a wait.
  rest_of : ℕ → List Text → ℕ × W → ℕ × W
  rest_of timeout urls p = wait_all http sleep timeout urls p.0 p.1

  Reaches : ℕ → List Text → ℕ → W → ℕ × W → Type 0
  Reaches timeout urls f w p = 0 < p.0 → Answered timeout urls f w p.0 p.1

  -- The wait for one URL and then for the others.
  wait_for-Reaches :
      (timeout : ℕ) (url : Text) (urls : List Text) (f : ℕ) (w : W)
      → ((g : ℕ) (v : W) → Reaches timeout urls g v (wait_all http sleep timeout urls g v))
      → Reaches timeout
          (url ∷ urls)
          f
          w
          (rest_of timeout urls (wait_for http sleep timeout url f w))
  unfolding Reaches rest_of
  wait_for-Reaches timeout url urls zero w rest =
      λ h. absurd (unfold wait_for in omega (arith, wait_all-zero timeout urls w))
  wait_for-Reaches timeout url urls (suc f) w rest = elim (Result-cases (http.send url w).0) [
    | inl (r, e) ↦
        rw (wait_for-ok timeout url f w e) (λ h. answer e (rest (suc f) (http.send url w).1 h))
    | inr (x, e) ↦ rw (wait_for-err timeout url f w e) (λ h.
        retry e (wait_for-Reaches timeout url urls f (sleep timeout (http.send url w).1) rest h))
  ]

  all-Answered :
      (timeout : ℕ) (urls : List Text) (f : ℕ) (w : W)
      → 0 < (wait_all http sleep timeout urls f w).0
      → Answered timeout urls f w
          (wait_all http sleep timeout urls f w).0
          (wait_all http sleep timeout urls f w).1
  unfolding wait_all Reaches rest_of
  all-Answered timeout [] f w h = done
  all-Answered timeout (url ∷ urls) f w h =
      let reach : Reaches timeout (url ∷ urls) f w
          (rest_of timeout urls (wait_for http sleep timeout url f w)) =
        wait_for-Reaches timeout url urls f w (λ g v. all-Answered timeout urls g v) in
      reach h

  left-le :
      {timeout : ℕ} {urls : List Text} {f g : ℕ} {w w' : W} → Answered timeout urls f w g w' → g ≤ f
  left-le done = omega arith
  left-le (answer e a) = left-le a
  left-le (retry e a) = omega (arith, left-le a)

  Falls : ℕ → List Text → ℕ → W → ℕ × W → Type 0
  Falls timeout urls f w p = p.0 ≡ 0 → Spent timeout urls f w

  wait_for-Falls :
      (timeout : ℕ) (url : Text) (urls : List Text) (f : ℕ) (w : W)
      → ((g : ℕ) (v : W) → Falls timeout urls g v (wait_all http sleep timeout urls g v))
      → Falls timeout (url ∷ urls) f w (rest_of timeout urls (wait_for http sleep timeout url f w))
  unfolding Falls rest_of
  wait_for-Falls timeout url urls zero w rest = λ h. nothing_left
  wait_for-Falls timeout url urls (suc f) w rest = elim (Result-cases (http.send url w).0) [
    | inl (r, e) ↦
        rw (wait_for-ok timeout url f w e)
          (λ h. answer_first e (rest (suc f) (http.send url w).1 h))
    | inr (x, e) ↦ rw (wait_for-err timeout url f w e) (λ h.
        failed_first e
          (wait_for-Falls timeout url urls f (sleep timeout (http.send url w).1) rest h))
  ]

  all-Spent :
      (timeout : ℕ) (urls : List Text) (f : ℕ) (w : W)
      → (wait_all http sleep timeout urls f w).0 ≡ 0
      → Spent timeout urls f w
  unfolding wait_all Falls rest_of
  all-Spent timeout [] f w h = rw h nothing_left
  all-Spent timeout (url ∷ urls) f w h =
      let fall : Falls timeout (url ∷ urls) f w
          (rest_of timeout urls (wait_for http sleep timeout url f w)) =
        wait_for-Falls timeout url urls f w (λ g v. all-Spent timeout urls g v) in
      fall h

  -- The preflight checks either succeed, with some of the allowed failures left: then every URL has
  -- answered, in turn, each failure before an answer was taken from the one allowance and followed
  -- by a pause. Or they fail with the error of preflight checks: then the allowance was used up on
  -- the way, or there was none.
  pub preflight-Answered :
      (checks : Checks) (w : W)
      → let (r, w') = preflight http sleep checks w in
        ((left : ℕ) × (r ≡ ok left)
          × (0 < left)
          × (left ≤ checks.fails)
          × Answered checks.timeout checks.preflights checks.fails w left w')
        ⊎ ((r ≡ err preflight_check) × Spent checks.timeout checks.preflights checks.fails w)
  unfolding preflight
  preflight-Answered checks w =
      let (left, w') = wait_all http sleep checks.timeout checks.preflights checks.fails w in
      elim (Bool-cases (ltb 0 left)) [
        | inl some_left ↦
            let pos : 0 < left = ltb→lt 0 left some_left in
            let a = all-Answered checks.timeout checks.preflights checks.fails w pos in
            rw some_left (inl (left, refl, pos, left-le a, a))
        | inr none_left ↦ rw none_left (
            inr (
              refl,
              all-Spent checks.timeout checks.preflights checks.fails w
                  (ground (arith, ltb→lt 0 left)),
            ))
      ]
