-- ===== src/Cache/Contract.antt =====
-- The contract of the trait `Cache`: a store shows a map from keys to values, which each operation
-- reads or changes in the way that its name says. A call that fails has no answer, and a write that
-- fails has been done or has not: the reply of a server may be lost after the write.
use push_cache.Base.{
  ◌≡◌, refl, ◌⊎◌, Option, none, some, Text, Bytes, text_eq, is_some, if◌then◌else◌,
}
use mathlib.Core.Path.{subst}
use push_cache.Base.Distinct.{member}
use push_cache.Error.{MyError, Result, ok, err, map_err, continue, pure}
use push_cache.Cache.{Cache}

abbrev pub View : Type 0 → Type 0
View W = W → Text → Option Bytes

-- A map with the entry of `k` replaced by `o`.
abbrev pub put : Text → Option Bytes → (Text → Option Bytes) → Text → Option Bytes
put k o m j = if text_eq k j then o else m j

-- The map after a write of the entry of `k`, and after an attempt at one.
abbrev pub Written : {W : Type 0} → View W → Text → Option Bytes → W → W → Type 0
Written view k o w w' = (j : Text) → view w' j ≡ put k o (view w) j

abbrev pub Same : {W : Type 0} → View W → W → W → Type 0
Same view w w' = (j : Text) → view w' j ≡ view w j

-- `after_ok` of an answer, or `after_err` of a failure.
abbrev pub Outcome {ℓ κ} : {E : Type κ} {A : Type ℓ} → (A → Type 0) → Type 0 → Result E A → Type 0
Outcome after_ok after_err (ok a) = after_ok a
Outcome after_ok after_err (err e) = after_err

pub Outcome-ok {ℓ κ} :
    {E : Type κ} {A : Type ℓ} (P : A → Type 0) (Q : Type 0) {r : Result E A} {a : A}
    → r ≡ ok a
    → Outcome P Q r
    → P a
Outcome-ok P Q e h = subst (Outcome P Q) e h

pub Outcome-err {ℓ κ} :
    {E : Type κ} {A : Type ℓ} (P : A → Type 0) (Q : Type 0) {r : Result E A} {x : E}
    → r ≡ err x
    → Outcome P Q r
    → Q
Outcome-err P Q e h = subst (Outcome P Q) e h

-- What holds after an answer and after a failure.
pub Outcome-either {ℓ κ} :
    {E : Type κ} {A : Type ℓ} (P : A → Type 0) (Q : Type 0) (r : Result E A)
    → Outcome P Q r
    → ((a : A) → P a → Q)
    → Q
Outcome-either P Q (ok a) h both = both a h
Outcome-either P Q (err e) h both = h

-- `map_err` changes a failure alone.
pub Outcome-map_err {ℓ} :
    {A : Type ℓ} {P P' : A → Type 0} {Q Q' : Type 0} (f : Text → MyError) (r : Result Text A)
    → ((a : A) → P a → P' a)
    → (Q → Q')
    → Outcome P Q r
    → Outcome P' Q' (map_err f r)
Outcome-map_err f (ok a) p q h = p a h
Outcome-map_err f (err e) p q h = q h

pub Outcome-map_err_same {ℓ} :
    {A : Type ℓ} (P : A → Type 0) (f : Text → MyError) (r : Result Text A)
    → Outcome P (Unit {0}) r
    → Outcome P (Unit {0}) (map_err f r)
Outcome-map_err_same P f (ok a) h = h
Outcome-map_err_same P f (err e) h = tt

-- An outcome that says nothing of a failure.
pub Outcome-of_ok {ℓ κ} :
    {E : Type κ} {A : Type ℓ} {P : A → Type 0} (r : Result E A)
    → ((a : A) → r ≡ ok a → P a)
    → Outcome P (Unit {0}) r
Outcome-of_ok (ok a) h = h a refl
Outcome-of_ok (err e) h = tt

pub record IsStore {W : Type 0} (c : Cache W) (view : View W) (Inv : W → Type 0) : Type 0 where
  pub get_Inv : (k : Text) (w : W) → Inv w → Inv (c.get k w).1
  pub get_lem :
      (k : Text) (w : W)
      → Inv w
      → let (r, w') = c.get k w in Same view w w' × Outcome (λ o. o ≡ view w k) (Unit {0}) r
  pub insert_Inv : (k : Text) (v : Bytes) (w : W) → Inv w → Inv (c.insert k v w).1
  pub insert_lem :
      (k : Text) (v : Bytes) (w : W)
      → Inv w
      → let (r, w') = c.insert k v w in
        Outcome
          (λ _. Written view k (some v) w w')
          (Same view w w' ⊎ Written view k (some v) w w')
          r
  pub remove_Inv : (k : Text) (w : W) → Inv w → Inv (c.remove k w).1
  pub remove_lem :
      (k : Text) (w : W)
      → Inv w
      → let (r, w') = c.remove k w in
        Outcome
          (λ o. (o ≡ view w k) × Written view k none w w')
          (Same view w w' ⊎ Written view k none w w')
          r
  pub keys_Inv : (w : W) → Inv w → Inv (c.keys w).1
  pub keys_lem :
      (w : W)
      → Inv w
      → let (r, w') = c.keys w in
        Same view w w'
        × Outcome (λ ks. (k : Text) → member text_eq k ks ≡ is_some (view w k)) (Unit {0}) r
  pub contains_key_Inv : (k : Text) (w : W) → Inv w → Inv (c.contains_key k w).1
  pub contains_key_lem :
      (k : Text) (w : W)
      → Inv w
      → let (r, w') = c.contains_key k w in
        Same view w w' × Outcome (λ b. b ≡ is_some (view w k)) (Unit {0}) r

module _ {W A B : Type 0} (view : View W) (f : Text → MyError) (g : A → B) where
  -- What becomes of a query when its answer is put into another form.
  pub after_read :
      {P : A → Type 0} (P' : B → Type 0) (r : Result Text A) (w w' : W)
      → ((a : A) → P a → P' (g a))
      → Same view w w' × Outcome P (Unit {0}) r
      → let (answer, after) = continue (map_err f r) (λ a. pure (g a)) w' in
        Same view w after × Outcome P' (Unit {0}) answer
  after_read P' (ok a) w w' p h = (h.0, p a h.1)
  after_read P' (err e) w w' p h = h

  pub after_write :
      (P : W → A → Type 0) (P' : W → B → Type 0) (Q : W → Type 0) (r : Result Text A) (w' : W)
      → ((v : W) (a : A) → P v a → P' v (g a))
      → Outcome (P w') (Q w') r
      → let (answer, after) = continue (map_err f r) (λ a. pure (g a)) w' in
        Outcome (P' after) (Q after) answer
  after_write P P' Q (ok a) w' p h = p w' a h
  after_write P P' Q (err e) w' p h = h
