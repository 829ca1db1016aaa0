-- ===== src/Cache/Mongo/Documents.antt =====
-- cache.rs, `MongoCache`: what the Mongo server is documented to do with the documents of a collection.
use push_cache.Base.{◌≡◌, ◌⊎◌, none, some, List, [], ◌∷◌, Text, Bytes, codes, Option, true, length}
use push_cache.Error.{Result, ok, err}
use push_cache.Cache.Contract.{View, Same, Written, Outcome}
use push_cache.Cache.Selected.{Condition, every_row, key_is, holds, IsSelected}
use push_cache.Cache.Mongo.{Mongo}

-- The keys of the documents among the items of a cursor.
abbrev pub named : {W : Type 0} (mongo : Mongo W) → List (Result Text mongo.Document) → List Text
named mongo [] = []
named mongo (ok d ∷ items) = elim (mongo.get_str d (codes "key")) [
  | some k ↦ k ∷ named mongo items
  | none ↦ named mongo items
]
named mongo (err e ∷ items) = named mongo items

-- The filter of a condition.
abbrev pub filter_for : {W : Type 0} (mongo : Mongo W) → Condition → mongo.Document
filter_for mongo every_row = mongo.doc []
filter_for mongo (key_is k) = mongo.doc ((codes "key", mongo.string k) ∷ [])

module _ {W : Type 0} (mongo : Mongo W) where
  -- A document has this key and this value.
  abbrev pub Shows : Text × Bytes → mongo.Document → Type 0
  Shows (k, v) d =
      (mongo.get_str d (codes "key") ≡ some k) × (mongo.get_binary d (codes "value") ≡ some v)

  abbrev pub ShowsFirst : List (Text × Bytes) → Option mongo.Document → Type 0
  ShowsFirst [] none = Unit
  ShowsFirst [] (some d) = ⊥
  ShowsFirst (r ∷ rs) none = ⊥
  ShowsFirst (r ∷ rs) (some d) = Shows r d

  -- A cursor yields the documents, unless it fails on the way.
  abbrev pub Yields : List (Text × Bytes) → List (Result Text mongo.Document) → Type 0
  Yields rs (err e ∷ items) = Unit
  Yields [] [] = Unit
  Yields [] (ok d ∷ items) = ⊥
  Yields (r ∷ rs) [] = ⊥
  Yields (r ∷ rs) (ok d ∷ items) = Shows r d × Yields rs items

  -- One document that meets the condition is taken out, or there is none.
  abbrev pub Takes : View W → Condition → W → W → Option mongo.Document → Type 0
  Takes stored condition w w' none =
      Same stored w w' × ((k : Text) → holds condition k ≡ true → stored w k ≡ none)
  Takes stored condition w w' (some d) =
      (k : Text) × (v : Bytes) × (stored w k ≡ some v)
      × (holds condition k ≡ true)
      × Shows (k, v) d
      × Written stored k none w w'

-- What the Mongo server does with a collection in which a key has one document, as documented. A
-- failed write may have been done.
pub record MongoServer {W : Type 0} (mongo : Mongo W) (collection : mongo.Collection) : Type 0 where
  -- The value in the document of each key.
  pub stored : View W
  pub find_one_lem :
      (condition : Condition) (w : W)
      → let (r, w') = mongo.find_one collection (filter_for mongo condition) w in
        Same stored w w'
        × Outcome
            (λ o.
              (selected : List (Text × Bytes)) × IsSelected condition (stored w) selected
              × ShowsFirst mongo selected o)
            (Unit {0})
            r
  pub find_lem :
      (condition : Condition) (w : W)
      → let (r, w') = mongo.find collection (filter_for mongo condition) w in
        Same stored w w'
        × Outcome
            (λ items.
              (selected : List (Text × Bytes)) × IsSelected condition (stored w) selected
              × Yields mongo selected items)
            (Unit {0})
            r
  pub count_lem :
      (condition : Condition) (w : W)
      → let (r, w') = mongo.count_documents collection (filter_for mongo condition) w in
        Same stored w w'
        × Outcome
            (λ n.
              (selected : List (Text × Bytes)) × IsSelected condition (stored w) selected
              × (n ≡ length selected))
            (Unit {0})
            r
  pub delete_lem :
      (condition : Condition) (w : W)
      → let (r, w') = mongo.find_one_and_delete collection (filter_for mongo condition) w in
        Outcome
          (Takes mongo stored condition w w')
          (Same stored w w'
            ⊎ ((k : Text) × (holds condition k ≡ true) × Written stored k none w w'))
          r
  -- The document of a key gets the fields that are set, and is made if there is none.
  pub upsert_lem :
      (k : Text) (v : Bytes) (w : W)
      → let fields =
          mongo.doc
            ((codes "key", mongo.string k) ∷ (codes "value", mongo.generic_binary v) ∷ []) in
        let (r, w') =
          mongo.upsert_one collection
            (filter_for mongo (key_is k))
            (mongo.doc ((codes "$set", mongo.document fields) ∷ []))
            w in
        Outcome
          (λ _. Written stored k (some v) w w')
          (Same stored w w' ⊎ Written stored k (some v) w w')
          r
