-- ===== src/Cache/Mongo/Server.antt =====
-- cache.rs, `MongoCache`: over a Mongo server that does what is documented, it meets the contract.
use push_cache.Base.{
  ◌≡◌, ap, ◌∙◌, ◌⊎◌, inl, inr, ltb, none, some, List, [], ◌∷◌, ◌++◌, Text, Bytes, codes, arith,
  text_eq, text_eq_iff, text_eq_refl, is_some, Option-cases, Bool-cases, refl, sym, Option, true, ℕ,
  length,
}
use mathlib.Core.Path.{subst}
use mathlib.Core.List.{append-nil, append_assoc}
use push_cache.Base.Distinct.{member}
use push_cache.Error.{MyError, Result, ok, err, map_err, continue, lift, message_of}
use push_cache.Cache.Contract.{
  View, IsStore, Same, Written, Outcome, Outcome-of_ok, Outcome-map_err, after_read, after_write,
}
use push_cache.Cache.Selected.{
  every_row, key_is, holds, Rows, keys_of, IsSelected, nothing-selected, first-selected,
  member-selected,
}
use push_cache.Cache.Mongo.{
  Mongo, MongoCache, mongo_cache, filter_of, update_of, value_of, cursor_loop, get, insert, remove,
  keys, contains_key,
}
use push_cache.Cache.Mongo.Documents.{named, ShowsFirst, Yields, Takes, MongoServer}

module _ {W : Type 0} (mongo : Mongo W) where
  -- The loop of `keys` keeps the order of the cursor, and passes over a document without a key.
  cursor_loop-append :
      (items : List (Result Text mongo.Document)) (acc : List Text) {ks : List Text}
      → cursor_loop mongo items acc ≡ ok ks
      → ks ≡ acc ++ named mongo items
  unfolding cursor_loop
  cursor_loop-append [] acc {ks} = λ h. ground (arith, append-nil acc)
  cursor_loop-append (ok d ∷ items) acc {ks} = elim (Option-cases (mongo.get_str d (codes "key"))) [
    | inl e ↦ rw (e, cursor_loop, named) (λ h. cursor_loop-append items acc h)
    | inr (k, e) ↦
        rw (e, cursor_loop, named)
          (λ h.
            cursor_loop-append items (acc ++ k ∷ []) h
            ∙ append_assoc acc (k ∷ []) (named mongo items))
  ]
  cursor_loop-append (err e ∷ items) acc {ks} = λ h. cc

module _ {W : Type 0} (mongo : Mongo W) (rows : Rows) where
  value_of-first :
      (k : Text) (o : Option mongo.Document)
      → (selected : List (Text × Bytes)) × IsSelected (key_is k) rows selected
        × ShowsFirst mongo selected o
      → value_of mongo o ≡ rows k
  value_of-first k none ([], i, s) = sym (nothing-selected rows k i.1)
  value_of-first k (some d) ([], i, s) = absurd s
  value_of-first k none (r ∷ rs, i, s) = absurd s
  value_of-first k (some d) ((j, v) ∷ rs, ((e, same, a), all), s) =
      s.1 ∙ sym (first-selected rows k j v e same)

  counted :
      (k : Text) (n : ℕ)
      → (selected : List (Text × Bytes)) × IsSelected (key_is k) rows selected
        × (n ≡ length selected)
      → ltb 0 n ≡ is_some (rows k)
  counted k n ([], i, s) = rw (s, nothing-selected rows k i.1) refl
  counted k n ((j, v) ∷ rs, ((e, same, a), all), s) =
      rw (s, first-selected rows k j v e same) (ground arith)

  -- The names of what a cursor yields are the keys, if it does not fail and the loop ends well.
  named-Yields :
      (selected : List (Text × Bytes)) (items : List (Result Text mongo.Document)) (acc : List Text)
      {ks : List Text}
      → Yields mongo selected items
      → cursor_loop mongo items acc ≡ ok ks
      → named mongo items ≡ keys_of selected
  unfolding cursor_loop
  named-Yields rs (err e ∷ items) acc y = λ h. cc
  named-Yields [] [] acc y = λ h. refl
  named-Yields [] (ok d ∷ items) acc y = λ h. absurd y
  named-Yields (r ∷ rs) [] acc y = λ h. absurd y
  named-Yields ((k, v) ∷ rs) (ok d ∷ items) acc {ks} ((has_key, has_value), y) =
      rw (has_key, cursor_loop, named)
        (λ h. ap (k ∷◌) (named-Yields rs items (acc ++ k ∷ []) {ks = ks} y h))

module _ {W : Type 0} (mongo : Mongo W) (stored : View W) where
  -- What was taken out for a key is its value, and the key has none behind it.
  value_of-Takes :
      (k : Text) (w w' : W) (o : Option mongo.Document)
      → Takes mongo stored (key_is k) w w' o
      → (value_of mongo o ≡ stored w k) × Written stored k none w w'
  value_of-Takes k w w' none (same, nothing) =
      let gone : stored w k ≡ none = nothing k (text_eq_refl k) in
      (
        sym gone,
        λ j. elim (Bool-cases (text_eq k j)) [
          | inl e ↦ rw e (same j ∙ ap (stored w) (sym ((text_eq_iff k j).0 e)) ∙ gone)
          | inr e ↦ rw e (same j)
        ],
      )
  value_of-Takes k w w' (some d) (j, v, e, h, (has_key, has_value), written) =
      let is_k : j ≡ k = sym ((text_eq_iff k j).0 h) in
      (
        has_value ∙ sym (ap (stored w) (sym is_k) ∙ e),
        subst (λ i. Written stored i none w w') is_k written,
      )

  tried-Takes :
      (k : Text) (w w' : W)
      → Same stored w w' ⊎ ((j : Text) × (holds (key_is k) j ≡ true) × Written stored j none w w')
      → Same stored w w' ⊎ Written stored k none w w'
  tried-Takes k w w' (inl same) = inl same
  tried-Takes k w w' (inr (j, h, written)) =
      inr (subst (λ i. Written stored i none w w') (sym ((text_eq_iff k j).0 h)) written)

Outcome-both {ℓ} :
    {A : Type ℓ} {P P' : A → Type 0} {Q Q' : Type 0}
    → ((a : A) → P a → P' a)
    → (Q → Q')
    → (r : Result Text A) → Outcome P Q r
    → Outcome P' Q' r
Outcome-both p q (ok a) h = p a h
Outcome-both p q (err e) h = q h

module _ {W : Type 0} (mongo : Mongo W) (c : MongoCache mongo)
    (server : MongoServer mongo c.collection) where
  open server use {stored}

  abbrev IsKeys : W → List Text → Type 0
  IsKeys w ks = (k : Text) → member text_eq k ks ≡ is_some (stored w k)

  IsKeys-after_find :
      (f : Text → MyError) (r : Result Text (List (Result Text mongo.Document))) (w w' : W)
      → Same stored w w'
        × Outcome
            (λ items.
              (selected : List (Text × Bytes)) × IsSelected every_row (stored w) selected
              × Yields mongo selected items)
            (Unit {0})
            r
      → let (answer, after) =
          continue (map_err f r) (λ items. lift (cursor_loop mongo items [])) w' in
        Same stored w after × Outcome (IsKeys w) (Unit {0}) answer
  IsKeys-after_find f (ok items) w w' (same, (selected, i, y)) = (
    same,
    Outcome-of_ok (cursor_loop mongo items []) (λ ks e k.
        ap (member text_eq k) (
          cursor_loop-append mongo items [] e
          ∙ named-Yields mongo (stored w) selected items [] {ks = ks} y e)
        ∙ member-selected (stored w) k selected i),
  )
  IsKeys-after_find f (err e) w w' h = h

  -- If the Mongo server does, with a collection in which a key has one document, what is documented
  -- for its operations with a filter that is empty or asks for one value of the field key, and for
  -- an upsert that sets the fields key and value, then the Mongo store meets the contract of a
  -- store; its view is the field value of the document of each key.
  pub mongo_cache-IsStore : IsStore (mongo_cache mongo c) stored (λ w. Unit)
  unfolding get insert remove keys contains_key
  mongo_cache-IsStore = record {
    get_Inv = λ k w h. tt;
    get_lem = λ k w h.
        after_read stored (message_of "Mongo get error: ") (value_of mongo) (λ o. o ≡ stored w k) _
          w _ (value_of-first mongo (stored w) k) (server.find_one_lem (key_is k) w);
    insert_Inv = λ k v w h. tt;
    insert_lem = λ k v w h.
        let w' = (mongo.upsert_one c.collection (filter_of mongo k) (update_of mongo k v) w).1 in
        Outcome-map_err {P = λ _. Written stored k (some v) w w'}
          {P' = λ _. Written stored k (some v) w w'}
          {Q' = Same stored w w' ⊎ Written stored k (some v) w w'}
          (message_of "Mongo insert error: ") _ (λ a p. p) (λ q. q) (server.upsert_lem k v w);
    remove_Inv = λ k w h. tt;
    remove_lem = λ k w h.
        let w' = (mongo.find_one_and_delete c.collection (filter_of mongo k) w).1 in
        after_write stored (message_of "Mongo remove error: ") (value_of mongo)
          (λ v o. (value_of mongo o ≡ stored w k) × Written stored k none w v)
          (λ v o. (o ≡ stored w k) × Written stored k none w v)
          (λ v. Same stored w v ⊎ Written stored k none w v) _ w' (λ v o p. p)
          (Outcome-both (value_of-Takes mongo stored k w w') (tried-Takes mongo stored k w w') _
            (server.delete_lem (key_is k) w));
    keys_Inv = λ w h. tt;
    keys_lem = λ w h.
        IsKeys-after_find (message_of "Mongo keys error: ") _ w _ (server.find_lem every_row w);
    contains_key_Inv = λ k w h. tt;
    contains_key_lem = λ k w h.
        after_read stored (message_of "Mongo contains_key error: ") (λ n. ltb 0 n)
          (λ b. b ≡ is_some (stored w k)) _ w _ (counted mongo (stored w) k)
          (server.count_lem (key_is k) w);
  }
