-- ===== src/Cache/Mongo.antt =====
-- rust-container/src/cache.rs, `MongoCache`, over the crates `mongodb` and `bson`.
pub mod Documents
pub mod Server
use push_cache.Base.{
  ℕ, Bool, Option, none, some, List, [], ◌∷◌, ◌++◌, Text, Bytes, codes, ltb, if◌then◌else◌,
}
use push_cache.Error.{
  MyError, Result, ok, err, Act, lift, call_err, message_of, map_err, ◌>>=◌, pure,
}
use push_cache.Cache.{Cache}

-- What the sources use of the crates. An error is the text that it displays as; `doc` is the macro
-- `doc!`, `get_binary` is `get_mut` with the pattern `Bson::Binary`, and the cursor of `find` is the
-- list of what its `next` yields.
pub record Mongo (W : Type 0) : Type 1 where
  pub Options : Type 0
  pub Client : Type 0
  pub Collection : Type 0
  pub Bson : Type 0
  pub Document : Type 0
  pub string : Text → Bson
  pub generic_binary : Bytes → Bson
  pub document : Document → Bson
  pub doc : List (Text × Bson) → Document
  pub get_binary : Document → Text → Option Bytes
  pub get_str : Document → Text → Option Text
  pub parse : Text → W → Result Text Options × W
  pub pool_sizes : Option ℕ → Option ℕ → Options → Options
  pub with_options : Options → Result Text Client
  pub collection : Client → Text → Text → Collection
  pub find_one : Collection → Document → W → Result Text (Option Document) × W
  -- `update_one` with the option `upsert`.
  pub upsert_one : Collection → Document → Document → W → Result Text (Unit {0}) × W
  pub find_one_and_delete : Collection → Document → W → Result Text (Option Document) × W
  pub find : Collection → Document → W → Result Text (List (Result Text Document)) × W
  pub count_documents : Collection → Document → W → Result Text ℕ × W

-- `config::MongoConfig`: the URL as `as_str` prints it.
pub record MongoConfig : Type 0 where
  pub url : Text
  pub database : Text
  pub collection : Text
  pub min_pool_size : Option ℕ
  pub max_pool_size : Option ℕ

module _ {W : Type 0} (mongo : Mongo W) where
  open mongo use {Document, doc}

  pub record MongoCache : Type 0 where
    pub collection : mongo.Collection

  unfoldable pub new : MongoConfig → Act W MongoCache
  new config = do
    options ← λ w. call_err (message_of "Mongo connect error: ") (mongo.parse config.url w)
    client ← lift (
        map_err (message_of "Mongo client error: ")
          (mongo.with_options (mongo.pool_sizes config.min_pool_size config.max_pool_size options)))
    pure (record { collection = mongo.collection client config.database config.collection })

  abbrev pub filter_of : Text → Document
  filter_of key = doc ((codes "key", mongo.string key) ∷ [])

  abbrev pub update_of : Text → Bytes → Document
  update_of key value = doc (
      (
        codes "$set",
        mongo.document (
            doc
              ((codes "key", mongo.string key) ∷ (codes "value", mongo.generic_binary value) ∷ [])),
      )
      ∷ [])

  -- The value of a document that was found: none where it has no binary value.
  abbrev pub value_of : Option Document → Option Bytes
  value_of none = none
  value_of (some d) = mongo.get_binary d (codes "value")

  unfoldable pub get : MongoCache → Text → Act W (Option Bytes)
  get c key = do
    found ← λ w.
        call_err (message_of "Mongo get error: ") (mongo.find_one c.collection (filter_of key) w)
    pure (value_of found)

  unfoldable pub insert : MongoCache → Text → Bytes → Act W (Unit {0})
  insert c key value w =
      call_err (message_of "Mongo insert error: ")
        (mongo.upsert_one c.collection (filter_of key) (update_of key value) w)

  unfoldable pub remove : MongoCache → Text → Act W (Option Bytes)
  remove c key = do
    found ← λ w.
        call_err (message_of "Mongo remove error: ")
          (mongo.find_one_and_delete c.collection (filter_of key) w)
    pure (value_of found)

  -- The loop of `keys`.
  unfoldable pub cursor_loop : List (Result Text Document) → List Text → Result MyError (List Text)
  cursor_loop [] keys = ok keys
  cursor_loop (ok d ∷ items) keys = elim (mongo.get_str d (codes "key")) [
    | some k ↦ cursor_loop items (keys ++ k ∷ [])
    | none ↦ cursor_loop items keys
  ]
  cursor_loop (err e ∷ items) keys = err (message_of "Mongo iter error: " e)

  unfoldable pub keys : MongoCache → Act W (List Text)
  keys c = do
    items ← λ w. call_err (message_of "Mongo keys error: ") (mongo.find c.collection (doc []) w)
    lift (cursor_loop items [])

  unfoldable pub contains_key : MongoCache → Text → Act W Bool
  contains_key c key = do
    count ← λ w.
        call_err (message_of "Mongo contains_key error: ")
          (mongo.count_documents c.collection (filter_of key) w)
    pure (ltb 0 count)

  -- `impl Cache for MongoCache`.
  abbrev pub mongo_cache : MongoCache → Cache W
  mongo_cache c = record {
    get = get c;
    insert = insert c;
    remove = remove c;
    keys = keys c;
    contains_key = contains_key c;
  }
