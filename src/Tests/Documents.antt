-- ===== src/Tests/Documents.antt =====
-- Mongo over an association list. A document is a key and a value, or it is empty.
use push_cache.Base.{
  ◌≡◌, refl, sym, inl, inr, Option, none, some, List, [], ◌∷◌, Text, Bytes, length, arith,
  Option-cases,
}
use mathlib.Core.Path.{subst}
use push_cache.Error.{Result, ok}
use push_cache.Crates.Models.{text_map}
use push_cache.Cache.Contract.{IsStore}
use push_cache.Cache.Selected.{Condition, every_row, key_is, IsSelected}
use push_cache.Cache.Mongo.{Mongo, MongoCache, mongo_cache}
use push_cache.Cache.Mongo.Documents.{MongoServer, filter_for, ShowsFirst, Yields, Takes}
use push_cache.Cache.Mongo.Server.{mongo_cache-IsStore}
use push_cache.Tests.Sql.{Table, selected, selected-IsSelected}
open text_map Bytes use {get, insert, remove, get-insert, get-remove}

abbrev Pair : Type 0
Pair = Option (Text × Bytes)

abbrev text_of : Pair → Option Text
text_of none = none
text_of (some (k, v)) = some k

abbrev bytes_of : Pair → Option Bytes
bytes_of none = none
bytes_of (some (k, v)) = some v

abbrev both : Pair → Pair → Pair
both (some (k, u)) (some (j, v)) = some (k, v)
both (some (k, u)) none = none
both none b = none

abbrev doc_of : List (Text × Pair) → Pair
doc_of [] = none
doc_of ((name, b) ∷ []) = b
doc_of ((name, b) ∷ (other, c) ∷ rest) = both b c

abbrev condition_at : Pair → Condition
condition_at none = every_row
condition_at (some (k, v)) = key_is k

abbrev first_doc : List (Text × Bytes) → Option Pair
first_doc [] = none
first_doc (r ∷ rs) = some (some r)

abbrev docs_of : List (Text × Bytes) → List (Result Text Pair)
docs_of [] = []
docs_of (r ∷ rs) = ok (some r) ∷ docs_of rs

abbrev behind : List (Text × Bytes) → Table → Table
behind [] w = w
behind ((k, v) ∷ rs) w = (remove w k).1

abbrev set_to : Pair → Table → Table
set_to none w = w
set_to (some (k, v)) w = (insert w k v).1

abbrev mongo : Mongo Table
mongo = record {
  Options = Unit {0};
  Client = Unit {0};
  Collection = Unit {0};
  Bson = Pair;
  Document = Pair;
  string = λ k. some (k, []);
  generic_binary = λ v. some ([], v);
  document = λ d. d;
  doc = doc_of;
  get_binary = λ d name. bytes_of d;
  get_str = λ d name. text_of d;
  parse = λ url w. (ok tt, w);
  pool_sizes = λ least most o. o;
  with_options = λ o. ok tt;
  collection = λ c database name. tt;
  find_one = λ c d w. (ok (first_doc (selected (condition_at d) w)), w);
  upsert_one = λ c d u w. (ok tt, set_to u w);
  find_one_and_delete =
      λ c d w. let found = selected (condition_at d) w in (ok (first_doc found), behind found w);
  find = λ c d w. (ok (docs_of (selected (condition_at d) w)), w);
  count_documents = λ c d w. (ok (length (selected (condition_at d) w)), w);
}

condition_at-filter_for :
    (condition : Condition) → condition_at (filter_for mongo condition) ≡ condition
condition_at-filter_for every_row = refl
condition_at-filter_for (key_is k) = refl

-- What the filter of a condition selects.
found-IsSelected :
    (condition : Condition) (w : Table)
    → IsSelected condition (get w) (selected (condition_at (filter_for mongo condition)) w)
found-IsSelected condition w =
    subst (λ d. IsSelected condition (get w) (selected d w))
      (sym (condition_at-filter_for condition)) (selected-IsSelected condition w)

first_doc-ShowsFirst : (rs : List (Text × Bytes)) → ShowsFirst mongo rs (first_doc rs)
first_doc-ShowsFirst [] = tt
first_doc-ShowsFirst ((k, v) ∷ rs) = (refl, refl)

docs_of-Yields : (rs : List (Text × Bytes)) → Yields mongo rs (docs_of rs)
docs_of-Yields [] = tt
docs_of-Yields ((k, v) ∷ rs) = ((refl, refl), docs_of-Yields rs)

behind-Takes :
    (condition : Condition) (w : Table) (rs : List (Text × Bytes))
    → IsSelected condition (get w) rs
    → Takes mongo get condition w (behind rs w) (first_doc rs)
behind-Takes condition w [] (sound, complete) = (
  λ j. refl,
  λ k h. elim (Option-cases (get w k)) [
    | inl e ↦ e
    | inr (v, e) ↦ absurd (ground (arith, complete k v e h))
  ],
)
behind-Takes condition w ((k, v) ∷ rs) ((e, h, a), complete) =
    (k, v, e, h, (refl, refl), λ j. get-remove w k j)

mongo_server : MongoServer mongo tt
mongo_server = record {
  stored = get;
  find_one_lem =
      λ condition w. (λ j. refl, (_, found-IsSelected condition w, first_doc-ShowsFirst _));
  find_lem = λ condition w. (λ j. refl, (_, found-IsSelected condition w, docs_of-Yields _));
  count_lem = λ condition w. (λ j. refl, (_, found-IsSelected condition w, refl));
  delete_lem = λ condition w. behind-Takes condition w _ (found-IsSelected condition w);
  upsert_lem = λ k v w j. get-insert w k v j;
}

abbrev documents : MongoCache mongo
documents = record { collection = tt }

mongo_cache-IsStore_example : IsStore (mongo_cache mongo documents) mongo_server.stored (λ w. Unit)
mongo_cache-IsStore_example = mongo_cache-IsStore mongo documents mongo_server
