-- ===== src/Cache/Postgres/Sql.antt =====
-- The statements of SQL that `PostgresCache` in cache.rs is made of, as text and as what Postgres documents
-- them to do with a table of two columns, `k`, its primary key, and `v`.
use push_cache.Base.{
  if◌then◌else◌, ◌≡◌, Option, none, some, List, [], ◌∷◌, ◌++◌, Text, Bytes, codes,
}
use push_cache.Cache.Contract.{View}
use push_cache.Cache.Selected.{Condition, every_row, key_is, holds, Rows, IsSelected}
use push_cache.Cache.Postgres.{Bind, text, Sqlx}

-- What is selected of a row.
pub data Column : Type 0 where
  key_column value_column number_one : Column

abbrev pub column_text : Column → Text
column_text key_column = codes "k"
column_text value_column = codes "v"
column_text number_one = codes "1"

-- The end of a statement: the table, and the condition.
abbrev pub from_text : Text → Condition → Text
from_text table every_row = codes " FROM " ++ table
from_text table (key_is k) = codes " FROM " ++ (table ++ codes " WHERE k = $1")

abbrev pub select_text : Text → Column → Condition → Text
select_text table column condition =
    codes "SELECT " ++ (column_text column ++ from_text table condition)

abbrev pub delete_text : Text → Condition → Text
delete_text table every_row = codes "DELETE FROM " ++ (table ++ codes " RETURNING v")
delete_text table (key_is k) = codes "DELETE FROM " ++ (table ++ codes " WHERE k = $1 RETURNING v")

abbrev pub insert_text : Text → Text
insert_text table =
    codes "INSERT INTO "
    ++ (table ++ codes " (k, v) VALUES ($1, $2) ON CONFLICT (k) DO UPDATE SET v = EXCLUDED.v")

-- The values for the parameters of the condition.
abbrev pub binds_of : Condition → List Bind
binds_of every_row = []
binds_of (key_is k) = text k ∷ []

module _ {W : Type 0} (sqlx : Sqlx W) where
  -- A row of the answer has the column of a row of the table.
  abbrev pub Shows : Column → Text × Bytes → sqlx.Row → Type 0
  Shows key_column (k, v) row = sqlx.get_text row ≡ k
  Shows value_column (k, v) row = sqlx.get_bytes row ≡ v
  Shows number_one (k, v) row = Unit

  -- An answer with the first row alone, and with all of them.
  abbrev pub ShowsFirst : Column → List (Text × Bytes) → Option sqlx.Row → Type 0
  ShowsFirst column [] none = Unit
  ShowsFirst column [] (some row) = ⊥
  ShowsFirst column (r ∷ rs) none = ⊥
  ShowsFirst column (r ∷ rs) (some row) = Shows column r row

  abbrev pub ShowsAll : Column → List (Text × Bytes) → List sqlx.Row → Type 0
  ShowsAll column [] [] = Unit
  ShowsAll column [] (row ∷ rows) = ⊥
  ShowsAll column (r ∷ rs) [] = ⊥
  ShowsAll column (r ∷ rs) (row ∷ rows) = Shows column r row × ShowsAll column rs rows

  -- The answer shows the rows of the table that the condition selects.
  abbrev pub AnswersFirst : Column → Condition → Rows → Option sqlx.Row → Type 0
  AnswersFirst column condition rows answer =
      (selected : List (Text × Bytes)) × IsSelected condition rows selected
      × ShowsFirst column selected answer

  abbrev pub AnswersAll : Column → Condition → Rows → List sqlx.Row → Type 0
  AnswersAll column condition rows answer =
      (selected : List (Text × Bytes)) × IsSelected condition rows selected
      × ShowsAll column selected answer

-- The table after the rows that meet a condition are deleted.
abbrev pub Deleted : {W : Type 0} → View W → Condition → W → W → Type 0
Deleted stored condition w w' =
    (j : Text) → stored w' j ≡ (if holds condition j then none else stored w j)
