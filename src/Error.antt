-- ===== src/Error.antt =====
-- rust-container/src/error.rs: the error type of every operation, and the monad of the operations.
-- An error of another crate is kept as the text that it displays as; of a `JsonRejection` the status
-- and the body text are kept, which is what the code reads.
use push_cache.Base.{
  ◌≡◌, sym, ◌∙◌, ◌⊎◌, inl, inr, ap, refl, ℕ, Option, none, some, Text, String, codes, ◌++◌,
}

pub data MyError : Type 0 where
  message : Text → MyError
  bad_request : Text → MyError
  cancelled : MyError
  hams_error : Text → MyError
  prometheus_error : Text → MyError
  serde : Text → MyError
  io : Text → MyError
  json_rejection : ℕ → Text → MyError
  shutdown_check : MyError
  preflight_check : MyError
  figment_error : Text → MyError
  env_filter_error : Text → MyError
  not_found : Text → MyError
  schema_mismatch : ℕ → ℕ → MyError
  kafka_error : Text → MyError
  avro_error : Text → MyError
  invalid_header_value : Text → MyError

-- `Result<A, E>`.
pub data Result {ℓ κ} (E : Type κ) (A : Type ℓ) : Type (ℓ ⊔ κ) where
  ok : A → Result E A
  err : E → Result E A

module _ {ℓ κ ι} {E : Type κ} {A : Type ℓ} {F : Type ι} where
  -- `Result::map_err`.
  abbrev pub map_err : (E → F) → Result E A → Result F A
  map_err f (ok a) = ok a
  map_err f (err e) = err (f e)

module _ {ℓ} {A : Type ℓ} where
  -- `Option::ok_or`.
  abbrev pub ok_or : MyError → Option A → Result MyError A
  ok_or e none = err e
  ok_or e (some a) = ok a

-- An action on a world `W` that may fail. What was written before a failure stays written.
abbrev pub Act {ℓ κ} : Type κ → Type ℓ → Type (ℓ ⊔ κ)
Act W A = W → Result MyError A × W

module _ {ℓ κ} {W : Type κ} {A : Type ℓ} where
  abbrev pub pure : A → Act W A
  pure a w = (ok a, w)

  abbrev pub raise : MyError → Act W A
  raise e w = (err e, w)

  abbrev pub lift : Result MyError A → Act W A
  lift r w = (r, w)

  -- A call of another crate, with `map_err` on what it returns.
  abbrev pub call_err : (Text → MyError) → Result Text A × W → Result MyError A × W
  call_err f (r, w) = (map_err f r, w)

module _ {ℓ ι κ} {W : Type κ} {A : Type ℓ} {B : Type ι} where
  abbrev pub continue : Result MyError A → (A → Act W B) → Act W B
  continue (ok a) f w = f a w
  continue (err e) f w = (err e, w)

  infixl 5 ◌>>=◌ ◌>>◌
  abbrev pub ◌>>=◌ : Act W A → (A → Act W B) → Act W B
  ◌>>=◌ m f w = let (r, w') = m w in continue r f w'

  abbrev pub ◌>>◌ : Act W A → Act W B → Act W B
  m >> n = m >>= λ _. n

-- `format!("<prefix>{e}")` in a `MyError::Message`.
abbrev pub message_of : String → Text → MyError
message_of prefix e = message (codes prefix ++ e)

pub Result-cases {ℓ κ} :
    {E : Type κ} {A : Type ℓ} (r : Result E A) → ((a : A) × (r ≡ ok a)) ⊎ ((e : E) × (r ≡ err e))
Result-cases (ok a) = inl (a, refl)
Result-cases (err e) = inr (e, refl)

module _ {ℓ ι κ} {W : Type κ} {A : Type ℓ} {B : Type ι} where
  continue-ok :
      (r : Result MyError A) (f : A → Act W B) (w : W) {b : B}
      → (continue r f w).0 ≡ ok b
      → (a : A) × (r ≡ ok a) × (continue r f w ≡ f a w)
  continue-ok (ok a) f w h = (a, refl, refl)
  continue-ok (err e) f w h = cc

  -- A chain that succeeds has passed its first step, and is the rest of the chain from there.
  pub >>=-ok :
      (m : Act W A) (f : A → Act W B) (w : W) {b : B}
      → ((m >>= f) w).0 ≡ ok b
      → (a : A) × ((m w).0 ≡ ok a) × ((m >>= f) w ≡ f a (m w).1)
  >>=-ok m f w h = continue-ok (m w).0 f (m w).1 h

  -- The rest of the chain succeeds as well.
  pub >>=-rest :
      (m : Act W A) (f : A → Act W B) (w : W) {b : B}
      → ((m >>= f) w).0 ≡ ok b
      → (a : A) × ((m w).0 ≡ ok a) × ((f a (m w).1).0 ≡ ok b)
  >>=-rest m f w h = let (a, e, on) = >>=-ok m f w h in (a, e, sym (ap (λ r. r.0) on) ∙ h)

  pub >>=-err :
      (m : Act W A) (f : A → Act W B) (w : W) {e : MyError}
      → (m w).0 ≡ err e
      → (m >>= f) w ≡ (err e, (m w).1)
  >>=-err m f w h = ap (λ r. continue r f (m w).1) h
