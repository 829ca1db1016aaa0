-- ===== src/Tests/Sql.antt =====
-- Postgres over a table that is an association list.
use push_cache.Base.{
  ◌≡◌, refl, sym, ap, ◌∙◌, inl, inr, true, false, Option, none, some, List, [], ◌∷◌, Text, Bytes,
  codes, text_eq, text_eq_iff, text_eq_refl, is_some, if◌then◌else◌, ◌==◌, arith, Option-cases,
  Bool-cases,
}
use mathlib.Core.Path.{subst}
use push_cache.Base.Distinct.{member}
use push_cache.Error.{ok}
use push_cache.Crates.Models.{text_map}
use push_cache.Cache.Contract.{IsStore}
use push_cache.Cache.Postgres.{Bind, text, bytes, Sqlx, PostgresCache, postgres_cache}
use push_cache.Cache.Selected.{Condition, every_row, key_is, holds, AreIn, keys_of, IsSelected}
use push_cache.Cache.Postgres.Sql.{
  Column, key_column, value_column, number_one, delete_text, binds_of, ShowsFirst, ShowsAll,
  AnswersFirst, AnswersAll, Deleted,
}
use push_cache.Cache.Postgres.Server.{PostgresServer, postgres_cache-IsStore}

abbrev pub Table : Type 0
Table = List (Text × Bytes)

open text_map Bytes use {get, insert, remove, keys, member-keys, get-insert, get-remove}

abbrev table : Text
table = codes "cache"

abbrev condition_of : List Bind → Condition
condition_of (text k ∷ bs) = key_is k
condition_of (bytes v ∷ bs) = every_row
condition_of [] = every_row

-- The rows of some keys.
abbrev pub entries : Table → List Text → List (Text × Bytes)
entries w [] = []
entries w (k ∷ ks) = elim (get w k) [ none ↦ entries w ks | some v ↦ (k, v) ∷ entries w ks ]

abbrev pub candidates : Condition → Table → List Text
candidates every_row w = keys w
candidates (key_is k) w = k ∷ []

abbrev pub selected : Condition → Table → List (Text × Bytes)
selected condition w = entries w (candidates condition w)

abbrev first : List (Text × Bytes) → Option (Text × Bytes)
first [] = none
first (r ∷ rs) = some r

abbrev without : Condition → Table → Table
without every_row w = []
without (key_is k) w = (remove w k).1

-- A statement that starts with a D deletes.
abbrev after : Text → Condition → Table → Table
after [] condition w = w
after (c ∷ sql) condition w = if c == b'D' then without condition w else w

abbrev change : List Bind → Table → Table
change (text k ∷ bytes v ∷ []) w = (insert w k v).1
change (text k ∷ bytes v ∷ b ∷ bs) w = w
change (text k ∷ text v ∷ bs) w = w
change (text k ∷ []) w = w
change (bytes v ∷ bs) w = w
change [] w = w

abbrev pub sqlx : Sqlx Table
sqlx = record {
  Pool = Unit {0};
  Row = Text × Bytes;
  connect = λ url w. (ok tt, w);
  get_bytes = λ row. row.1;
  get_text = λ row. row.0;
  fetch_optional = λ pool sql binds w.
      (ok (first (selected (condition_of binds) w)), after sql (condition_of binds) w);
  fetch_all = λ pool sql binds w. (ok (selected (condition_of binds) w), w);
  execute = λ pool sql binds w. (ok tt, change binds w);
}

condition_of-binds_of : (condition : Condition) → condition_of (binds_of condition) ≡ condition
condition_of-binds_of every_row = refl
condition_of-binds_of (key_is k) = refl

candidates-holds :
    (condition : Condition) (w : Table) (k : Text)
    → is_some (get w k) ≡ true
    → holds condition k ≡ true
    → member text_eq k (candidates condition w) ≡ true
candidates-holds every_row w k i h = member-keys w k ∙ i
candidates-holds (key_is j) w k i h = ground (arith, text_eq_iff j k, text_eq_iff k j)

abbrev AllHold : Condition → List Text → Type 0
AllHold condition [] = Unit
AllHold condition (k ∷ ks) = (holds condition k ≡ true) × AllHold condition ks

all-hold : (ks : List Text) → AllHold every_row ks
all-hold [] = tt
all-hold (k ∷ ks) = (refl, all-hold ks)

candidates-AllHold :
    (condition : Condition) (w : Table) → AllHold condition (candidates condition w)
candidates-AllHold every_row w = all-hold (keys w)
candidates-AllHold (key_is k) w = (text_eq_refl k, tt)

entries-none :
    (w : Table) (ks : List Text) (k : Text) → get w k ≡ none → entries w (k ∷ ks) ≡ entries w ks
entries-none w ks k e = rw (e, entries) refl

entries-some :
    (w : Table) (ks : List Text) (k : Text) {v : Bytes}
    → get w k ≡ some v
    → entries w (k ∷ ks) ≡ (k, v) ∷ entries w ks
entries-some w ks k e = rw (e, entries) refl

entries-AreIn :
    (condition : Condition) (w : Table) (ks : List Text)
    → AllHold condition ks
    → AreIn condition (get w) (entries w ks)
entries-AreIn condition w [] h = tt
entries-AreIn condition w (k ∷ ks) h = elim (Option-cases (get w k)) [
  | inl e ↦
      subst (AreIn condition (get w)) (sym (entries-none w ks k e))
        (entries-AreIn condition w ks h.1)
  | inr (v, e) ↦
      subst (AreIn condition (get w)) (sym (entries-some w ks k e))
        (e, h.0, entries-AreIn condition w ks h.1)
]

member-entries :
    (w : Table) (ks : List Text) (k : Text) {v : Bytes}
    → get w k ≡ some v
    → member text_eq k ks ≡ true
    → member text_eq k (keys_of (entries w ks)) ≡ true
member-entries w [] k e m = cc
member-entries w (j ∷ ks) k {v} e m = elim (Option-cases (get w j)) [
  | inl e' ↦
      let other : text_eq k j ≡ false = elim (Bool-cases (text_eq k j)) [
        | inr differs ↦ differs
        | inl same ↦ let there = ap (get w) ((text_eq_iff k j).0 same) ∙ e' in cc
      ] in
      rw (entries-none w ks j e') (member-entries w ks k {v = v} e (ground arith))
  | inr (u, e') ↦ rw (entries-some w ks j e') (ground (arith, member-entries w ks k {v = v} e))
]

pub selected-IsSelected :
    (condition : Condition) (w : Table) → IsSelected condition (get w) (selected condition w)
selected-IsSelected condition w = (
  entries-AreIn condition w _ (candidates-AllHold condition w),
  λ k v e h. member-entries w _ k e (candidates-holds condition w k (ap is_some e) h),
)

first-ShowsFirst :
    (column : Column) (rs : List (Text × Bytes)) → ShowsFirst sqlx column rs (first rs)
first-ShowsFirst column [] = tt
first-ShowsFirst key_column (r ∷ rs) = refl
first-ShowsFirst value_column (r ∷ rs) = refl
first-ShowsFirst number_one (r ∷ rs) = tt

all-ShowsAll : (column : Column) (rs : List (Text × Bytes)) → ShowsAll sqlx column rs rs
all-ShowsAll column [] = tt
all-ShowsAll key_column (r ∷ rs) = (refl, all-ShowsAll key_column rs)
all-ShowsAll value_column (r ∷ rs) = (refl, all-ShowsAll value_column rs)
all-ShowsAll number_one (r ∷ rs) = (tt, all-ShowsAll number_one rs)

without-Deleted :
    (condition : Condition) (w : Table) → Deleted get condition w (without condition w)
without-Deleted every_row w = λ j. refl
without-Deleted (key_is k) w = λ j. get-remove w k j

answers_first :
    (column : Column) (condition : Condition) (w : Table)
    → AnswersFirst sqlx column condition
        (get w)
        (first (selected (condition_of (binds_of condition)) w))
answers_first column condition w =
    subst (λ d. AnswersFirst sqlx column condition (get w) (first (selected d w)))
      (sym (condition_of-binds_of condition))
      (
        selected condition w,
        selected-IsSelected condition w,
        first-ShowsFirst column (selected condition w),
      )

answers_all :
    (column : Column) (condition : Condition) (w : Table)
    → AnswersAll sqlx column condition (get w) (selected (condition_of (binds_of condition)) w)
answers_all column condition w =
    subst (λ d. AnswersAll sqlx column condition (get w) (selected d w))
      (sym (condition_of-binds_of condition))
      (
        selected condition w,
        selected-IsSelected condition w,
        all-ShowsAll column (selected condition w),
      )

after-delete_text :
    (condition : Condition) (w : Table)
    → Deleted get condition w
        (after (delete_text table condition) (condition_of (binds_of condition)) w)
after-delete_text every_row w = without-Deleted every_row w
after-delete_text (key_is k) w = without-Deleted (key_is k) w

sql_server : PostgresServer sqlx tt table
sql_server = record {
  stored = get;
  select_one_lem = λ column condition w. (λ j. refl, answers_first column condition w);
  select_all_lem = λ column condition w. (λ j. refl, answers_all column condition w);
  delete_lem =
      λ condition w. (answers_first value_column condition w, after-delete_text condition w);
  insert_lem = λ k v w j. get-insert w k v j;
}

abbrev sql_cache : PostgresCache sqlx
sql_cache = record { pool = tt; table_name = table }

postgres_cache-IsStore_example :
    IsStore (postgres_cache sqlx sql_cache) sql_server.stored (λ w. Unit)
postgres_cache-IsStore_example = postgres_cache-IsStore sqlx sql_cache sql_server
