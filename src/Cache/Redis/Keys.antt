-- ===== src/Cache/Redis/Keys.antt =====
-- cache.rs, `RedisCache`: putting the prefix in front of a key and taking it off.
use push_cache.Base.{
  ◌≡◌, refl, ◌∙◌, inl, inr, true, Option, none, some, List, [], ◌∷◌, ◌++◌, Text, arith,
  strip_prefix, text_eq, text_eq_iff, text_eq_refl, starts_with, strip_prefix-append,
  strip_prefix-some, Option-cases, map,
}
use mathlib.Core.List.{append-nil, append_assoc}
use push_cache.Base.Distinct.{member}
use push_cache.Error.{Result, ok, err}
use push_cache.Cache.Redis.{key_prefix, format_key, strip_key, scan_loop}

-- The key of a store that is named by a key of the server.
pub strip_key-format_key : (p : Option Text) (k : Text) → strip_key p (format_key p k) ≡ k
unfolding strip_key format_key
strip_key-format_key none k = refl
strip_key-format_key (some p) k = ground (arith, strip_prefix-append (key_prefix p) k)

-- Two keys of a store are two keys of the server.
pub text_eq-format_key :
    (p : Option Text) (k j : Text) → text_eq (format_key p k) (format_key p j) ≡ text_eq k j
text_eq-format_key p k j = ground (
  arith,
  text_eq_iff (format_key p k) (format_key p j),
  text_eq_iff k j,
  strip_key-format_key p k,
  strip_key-format_key p j,
)

-- The keys among the items that a scan yields.
abbrev pub found : List (Result Text Text) → List Text
found [] = []
found (ok k ∷ items) = k ∷ found items
found (err e ∷ items) = found items

-- Each of the server's keys is a key of the store with the prefix in front.
abbrev pub AllPrefixed : Option Text → List Text → Type 0
AllPrefixed p [] = Unit
AllPrefixed p (x ∷ xs) = (format_key p (strip_key p x) ≡ x) × AllPrefixed p xs

-- The loop of `keys` keeps the order of the scan.
pub scan_loop-append :
    (p : Option Text) (items : List (Result Text Text)) (acc : List Text) {ks : List Text}
    → scan_loop p items acc ≡ ok ks
    → ks ≡ acc ++ map (strip_key p) (found items)
unfolding scan_loop
scan_loop-append p [] acc h = ground (arith, append-nil acc)
scan_loop-append p (ok k ∷ items) acc h =
    scan_loop-append p items (acc ++ strip_key p k ∷ []) h
    ∙ append_assoc acc (strip_key p k ∷ []) (map (strip_key p) (found items))
scan_loop-append p (err e ∷ items) acc h = cc

pub member-map-strip_key :
    (p : Option Text) (xs : List Text) (j : Text)
    → AllPrefixed p xs
    → member text_eq j (map (strip_key p) xs) ≡ member text_eq (format_key p j) xs
member-map-strip_key p [] j h = refl
member-map-strip_key p (x ∷ xs) j h =
    cc (member-map-strip_key p xs j h.1, h.0, text_eq-format_key p j (strip_key p x))

-- What a scan is asked for with a prefix begins with it, and then the prefix comes off and on again.
pub format_key-strip_key :
    (p : Text) (k : Text)
    → starts_with (key_prefix p) k ≡ true
    → format_key (some p) (strip_key (some p) k) ≡ k
unfolding strip_key format_key starts_with
format_key-strip_key p k h = elim (Option-cases (strip_prefix (key_prefix p) k)) [
  | inl e ↦ ground arith
  | inr (r, e) ↦ ground (arith, strip_prefix-some (key_prefix p) k {r = r} e)
]

pub AllPrefixed-of_member :
    (p : Option Text) (xs : List Text)
    → ((x : Text) → member text_eq x xs ≡ true → format_key p (strip_key p x) ≡ x)
    → AllPrefixed p xs
AllPrefixed-of_member p [] h = tt
AllPrefixed-of_member p (x ∷ xs) h = (
  h x (ground (arith, text_eq_refl x)),
  AllPrefixed-of_member p xs (λ y m. h y (ground (arith, m))),
)
