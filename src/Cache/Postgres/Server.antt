-- ===== src/Cache/Postgres/Server.antt =====
-- cache.rs, `PostgresCache`: what the Postgres server does with its statements, and the contract.
use push_cache.Base.{
  ◌≡◌, refl, sym, ap, ◌∙◌, ◌⊎◌, Option, none, some, List, [], ◌∷◌, Text, Bytes, text_eq, is_some,
  map,
}
use push_cache.Base.Distinct.{member}
use push_cache.Error.{message_of}
use push_cache.Cache.Contract.{
  View, IsStore, Same, Written, Outcome, Outcome-map_err, after_read, after_write,
}
use push_cache.Cache.Postgres.{
  Sqlx, text, bytes, PostgresCache, row_bytes, postgres_cache, get, insert, remove, keys,
  contains_key, upsert_sql,
}
use push_cache.Cache.Selected.{
  Condition, every_row, key_is, Rows, keys_of, nothing-selected, first-selected, member-selected,
}
use push_cache.Cache.Postgres.Sql.{
  Column, key_column, value_column, number_one, select_text, delete_text, insert_text, binds_of,
  ShowsAll, AnswersFirst, AnswersAll, Deleted,
}

-- What the Postgres server does with statements on a table whose primary key is `k`, as SQL documents
-- them. A failed write may have been done.
pub record PostgresServer {W : Type 0} (sqlx : Sqlx W) (pool : sqlx.Pool) (table : Text)
    : Type 0 where
  -- The value in the row of each key.
  pub stored : View W
  pub select_one_lem :
      (column : Column) (condition : Condition) (w : W)
      → let (r, w') =
          sqlx.fetch_optional pool (select_text table column condition) (binds_of condition) w in
        Same stored w w' × Outcome (AnswersFirst sqlx column condition (stored w)) (Unit {0}) r
  pub select_all_lem :
      (column : Column) (condition : Condition) (w : W)
      → let (r, w') =
          sqlx.fetch_all pool (select_text table column condition) (binds_of condition) w in
        Same stored w w' × Outcome (AnswersAll sqlx column condition (stored w)) (Unit {0}) r
  pub delete_lem :
      (condition : Condition) (w : W)
      → let (r, w') =
          sqlx.fetch_optional pool (delete_text table condition) (binds_of condition) w in
        Outcome
          (λ o.
            AnswersFirst sqlx value_column condition (stored w) o × Deleted stored condition w w')
          (Same stored w w' ⊎ Deleted stored condition w w')
          r
  pub insert_lem :
      (k : Text) (v : Bytes) (w : W)
      → let (r, w') = sqlx.execute pool (insert_text table) (text k ∷ bytes v ∷ []) w in
        Outcome
          (λ _. Written stored k (some v) w w')
          (Same stored w w' ⊎ Written stored k (some v) w w')
          r

module _ (rows : Rows) where
  module _ {W : Type 0} (sqlx : Sqlx W) where
    names-keys_of :
        (selected : List (Text × Bytes)) (answer : List sqlx.Row)
        → ShowsAll sqlx key_column selected answer
        → map sqlx.get_text answer ≡ keys_of selected
    names-keys_of [] [] s = refl
    names-keys_of [] (row ∷ answer) s = absurd s
    names-keys_of (r ∷ rs) [] s = absurd s
    names-keys_of ((k, v) ∷ rs) (row ∷ answer) (here, s) = cc (here, names-keys_of rs answer s)

    -- The value of the first row of the answer, if there is one, is that of the key.
    row_bytes-AnswersFirst :
        (k : Text) (o : Option sqlx.Row)
        → AnswersFirst sqlx value_column (key_is k) rows o
        → row_bytes sqlx o ≡ rows k
    row_bytes-AnswersFirst k none ([], i, s) = sym (nothing-selected rows k i.1)
    row_bytes-AnswersFirst k (some row) ([], i, s) = absurd s
    row_bytes-AnswersFirst k none (r ∷ rs, i, s) = absurd s
    row_bytes-AnswersFirst k (some row) ((j, v) ∷ rs, ((e, same, a), all), s) =
        ap (λ b. some b) s ∙ sym (first-selected rows k j v e same)

    is_some-AnswersFirst :
        (k : Text) (o : Option sqlx.Row)
        → AnswersFirst sqlx number_one (key_is k) rows o
        → is_some o ≡ is_some (rows k)
    is_some-AnswersFirst k none ([], i, s) = sym (ap is_some (nothing-selected rows k i.1))
    is_some-AnswersFirst k (some row) ([], i, s) = absurd s
    is_some-AnswersFirst k none (r ∷ rs, i, s) = absurd s
    is_some-AnswersFirst k (some row) ((j, v) ∷ rs, ((e, same, a), all), s) =
        sym (ap is_some (first-selected rows k j v e same))

    -- The names in the answer are the keys of the table.
    names-AnswersAll :
        (answer : List sqlx.Row)
        → AnswersAll sqlx key_column every_row rows answer
        → (k : Text) → member text_eq k (map sqlx.get_text answer) ≡ is_some (rows k)
    names-AnswersAll answer (selected, i, s) k =
        ap (member text_eq k) (names-keys_of selected answer s) ∙ member-selected rows k selected i

module _ {W : Type 0} (sqlx : Sqlx W) (c : PostgresCache sqlx)
    (server : PostgresServer sqlx c.pool c.table_name) where
  open server use {stored}

  -- If the Postgres server does, with a table whose primary key is k, what SQL documents for
  -- statements that select a column, or delete rows and return their v, where k is a given value or
  -- in all rows, and for an insertion that replaces v on a conflict, then the Postgres store meets
  -- the contract of a store; its view is the value in the row of each key.
  pub postgres_cache-IsStore : IsStore (postgres_cache sqlx c) stored (λ w. Unit)
  unfolding get insert remove keys contains_key
  postgres_cache-IsStore = record {
    get_Inv = λ k w h. tt;
    get_lem = λ k w h.
        after_read stored (message_of "Postgres get error: ") (row_bytes sqlx) (λ o. o ≡ stored w k)
          _ w _ (row_bytes-AnswersFirst (stored w) sqlx k)
          (server.select_one_lem value_column (key_is k) w);
    insert_Inv = λ k v w h. tt;
    insert_lem = λ k v w h.
        let w' = (sqlx.execute c.pool (upsert_sql c.table_name) (text k ∷ bytes v ∷ []) w).1 in
        Outcome-map_err {P = λ _. Written stored k (some v) w w'}
          {P' = λ _. Written stored k (some v) w w'}
          {Q' = Same stored w w' ⊎ Written stored k (some v) w w'}
          (message_of "Postgres insert error: ") _ (λ a p. p) (λ q. q) (server.insert_lem k v w);
    remove_Inv = λ k w h. tt;
    remove_lem = λ k w h.
        after_write stored (message_of "Postgres remove error: ") (row_bytes sqlx)
          (λ w' o.
            AnswersFirst sqlx value_column (key_is k) (stored w) o × Written stored k none w w')
          (λ w' o. (o ≡ stored w k) × Written stored k none w w')
          (λ w'. Same stored w w' ⊎ Written stored k none w w') _ _
          (λ v o p. (row_bytes-AnswersFirst (stored w) sqlx k o p.0, p.1))
          (server.delete_lem (key_is k) w);
    keys_Inv = λ w h. tt;
    keys_lem = λ w h.
        after_read stored (message_of "Postgres keys error: ") (map sqlx.get_text)
          (λ ks. (k : Text) → member text_eq k ks ≡ is_some (stored w k)) _ w _
          (names-AnswersAll (stored w) sqlx) (server.select_all_lem key_column every_row w);
    contains_key_Inv = λ k w h. tt;
    contains_key_lem = λ k w h.
        after_read stored (message_of "Postgres contains_key error: ") is_some
          (λ b. b ≡ is_some (stored w k)) _ w _ (is_some-AnswersFirst (stored w) sqlx k)
          (server.select_one_lem number_one (key_is k) w);
  }
