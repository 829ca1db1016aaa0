-- ===== src/Web/Listing.antt =====
-- webserver/mod.rs, `list_records`: the keys filtered, sorted, and cut into pages.
use push_cache.Base.{
  ℕ, zero, suc, ◌+◌, ◌≤◌, ◌≡◌, refl, sym, ap, ◌∙◌, Bool, true, ◌&&◌, ◌||◌, Option, none, some, List,
  [], ◌∷◌, ◌++◌, Text, contains, sort, insert_sorted, retain, take, drop, length, text_eq,
  text_eq_iff, IsSorted, IsBelow, sort-IsSorted, arith, is_some,
}
use push_cache.Base.Distinct.{member}
use push_cache.Error.{ok}
use push_cache.Crates.Wire.{Env}
use push_cache.Cache.Contract.{View, IsStore, Same, Outcome-ok}
use push_cache.State.{Shared}
use push_cache.Web.{
  RouteState, ListUsersParams, texts, filtered, page, unwrap_or, usize_max, list_records,
}

-- Whether a key passes the filter.
abbrev pub passes : Option Text → Text → Bool
passes none k = true
passes (some filter) k = contains filter k

member-retain :
    (p : Text → Bool) (k : Text) (xs : List Text)
    → member text_eq k (retain p xs) ≡ (member text_eq k xs && p k)
unfolding retain
member-retain p k [] = refl
member-retain p k (x ∷ xs) =
    ground (arith, member-retain p k xs, text_eq_iff k x, ap p {x = k} {y = x})

member-filtered :
    (f : Option Text) (k : Text) (xs : List Text)
    → member text_eq k (filtered f xs) ≡ (member text_eq k xs && passes f k)
unfolding filtered
member-filtered none k xs = ground arith
member-filtered (some f) k xs = member-retain (contains f) k xs

member-insert_sorted :
    (k x : Text) (xs : List Text)
    → member text_eq k (insert_sorted x xs) ≡ (text_eq k x || member text_eq k xs)
unfolding insert_sorted
member-insert_sorted k x [] = refl
member-insert_sorted k x (y ∷ ys) = ground (arith, member-insert_sorted k x ys)

member-sort : (k : Text) (xs : List Text) → member text_eq k (sort xs) ≡ member text_eq k xs
unfolding sort
member-sort k [] = refl
member-sort k (x ∷ xs) =
    member-insert_sorted k x (sort xs) ∙ ap (λ b. text_eq k x || b) (member-sort k xs)

IsBelow-take : (n : ℕ) (k : Text) (xs : List Text) → IsBelow k xs → IsBelow k (take n xs)
IsBelow-take zero k xs b = tt
IsBelow-take (suc n) k [] b = tt
IsBelow-take (suc n) k (x ∷ xs) b = (b.0, IsBelow-take n k xs b.1)

take-IsSorted : (n : ℕ) (xs : List Text) → IsSorted xs → IsSorted (take n xs)
take-IsSorted zero xs s = tt
take-IsSorted (suc n) [] s = tt
take-IsSorted (suc n) (x ∷ xs) s = (IsBelow-take n x xs s.0, take-IsSorted n xs s.1)

drop-IsSorted : (n : ℕ) (xs : List Text) → IsSorted xs → IsSorted (drop n xs)
drop-IsSorted zero xs s = s
drop-IsSorted (suc n) [] s = tt
drop-IsSorted (suc n) (x ∷ xs) s = drop-IsSorted n xs s.1

-- Every page is sorted.
page-IsSorted : (params : ListUsersParams) (keys : List Text) → IsSorted (page params keys)
unfolding page
page-IsSorted params keys =
    take-IsSorted (unwrap_or usize_max params.limit) _
      (drop-IsSorted (unwrap_or 0 params.offset) _ (sort-IsSorted _))

take_all {ℓ} : {A : Type ℓ} (n : ℕ) (xs : List A) → length xs ≤ n → take n xs ≡ xs
take_all zero [] h = refl
take_all zero (x ∷ xs) h = elim h [ ]
take_all (suc n) [] h = refl
take_all (suc n) (x ∷ xs) h = ap (◌∷◌ x) (take_all n xs (omega arith))

take_nil {ℓ} : {A : Type ℓ} (n : ℕ) → take {A = A} n [] ≡ []
take_nil zero = refl
take_nil (suc n) = refl

drop_nil {ℓ} : {A : Type ℓ} (n : ℕ) → drop {A = A} n [] ≡ []
drop_nil zero = refl
drop_nil (suc n) = refl

take-add {ℓ} :
    {A : Type ℓ} (a b : ℕ) (xs : List A) → take a xs ++ take b (drop a xs) ≡ take (a + b) xs
take-add zero b xs = ap (λ n. take n xs) (omega arith)
take-add (suc a) b [] = take_nil b ∙ sym (take_nil (suc a + b))
take-add (suc a) b (x ∷ xs) =
    ap (◌∷◌ x) (take-add a b xs) ∙ ap (λ n. take n (x ∷ xs)) {x = suc (a + b)} (omega arith)

drop-drop {ℓ} : {A : Type ℓ} (a b : ℕ) (xs : List A) → drop a (drop b xs) ≡ drop (b + a) xs
drop-drop a zero xs = ap (λ n. drop n xs) (omega arith)
drop-drop a (suc b) [] = drop_nil a ∙ sym (drop_nil (suc b + a))
drop-drop a (suc b) (x ∷ xs) =
    drop-drop a b xs ∙ ap (λ n. drop n (x ∷ xs)) {x = suc (b + a)} (omega arith)

-- The page of a entries from an offset on, followed by the page of b entries from where the first
-- one ends, is the page of a + b entries from that offset, for any filter and any keys.
pub page-page :
    (f : Option Text) (start a b : ℕ) (keys : List Text)
    → page (record { limit = some a; offset = some start; filter = f }) keys
        ++ page (record { limit = some b; offset = some (start + a); filter = f }) keys
      ≡ page (record { limit = some (a + b); offset = some start; filter = f }) keys
unfolding page
page-page f start a b keys =
    let sorted = sort (filtered f keys) in
    ap (λ l. take a (drop start sorted) ++ take b l) (sym (drop-drop a start sorted))
    ∙ take-add a b (drop start sorted)

-- The list without a page to cut: the keys that pass the filter, if there are not too many.
member-page :
    (f : Option Text) (k : Text) (keys : List Text)
    → length (sort (filtered f keys)) ≤ usize_max
    → member text_eq k (page (record { limit = none; offset = none; filter = f }) keys)
      ≡ (member text_eq k keys && passes f k)
unfolding page
member-page f k keys h =
    ap (member text_eq k) (take_all usize_max (sort (filtered f keys)) h)
    ∙ member-sort k (filtered f keys)
    ∙ member-filtered f k keys

module _ {W : Type 0} (env : Env W) (state : RouteState env) where
  open env use {avro}

  list-whole :
      (params : ListUsersParams) (s : Shared env) (keys : List Text)
      → (state.store.keys s.world).0 ≡ ok keys
      → list_records env state params s ≡ (
        ok (record { status = 200; headers = []; body = texts (page params keys) }),
        record s { world = (state.store.keys s.world).1 },
      )
  unfolding list_records
  list-whole params s keys h = ground arith

  module _ (view : View W) (Inv : W → Type 0) (c : IsStore state.store view Inv) where
    -- For a store that meets the contract, a listing without a limit and an offset, of no more keys
    -- than a usize can count, that the store answers without an error, is sorted; its members are
    -- exactly the keys of the view that contain the filter's text, if there is a filter, and the
    -- view does not change.
    pub list_records_lem :
        (f : Option Text) (s : Shared env) {keys : List Text}
        → Inv s.world
        → (state.store.keys s.world).0 ≡ ok keys
        → length (sort (filtered f keys)) ≤ usize_max
        → let params : ListUsersParams = record { limit = none; offset = none; filter = f } in
          let (r, s') = list_records env state params s in
          Same view s.world s'.world
          × ((listed : List Text) × (r
                ≡ ok (record { status = 200; headers = []; body = texts listed }))
              × IsSorted listed
              × ((k : Text) → member text_eq k listed ≡ (is_some (view s.world k) && passes f k)))
    list_records_lem f s {keys} i h fits =
        let params : ListUsersParams = record { limit = none; offset = none; filter = f } in
        let law = c.keys_lem s.world i in
        let members : (k : Text) → member text_eq k keys ≡ is_some (view s.world k) =
          Outcome-ok (λ ks. (k : Text) → member text_eq k ks ≡ is_some (view s.world k)) (Unit {0})
            h law.1 in
        rw (list-whole params s keys h) (
          law.0,
          (
            page params keys,
            refl,
            page-IsSorted params keys,
            λ k. member-page f k keys fits ∙ ap (λ b. b && passes f k) (members k),
          ),
        )
