-- ===== src/Cache/Oracle/Server.antt =====
-- cache.rs, `OracleCache`: what the Oracle server is documented to do, and the rows of `keys`.
use push_cache.Base.{
  ◌^◌, ◌≡◌, ◌∙◌, ◌⊎◌, inl, inr, ◌&&◌, ltb, Option, none, some, List, [], ◌∷◌, ◌++◌, Text, Bytes,
  text_eq, is_some, arith,
}
use mathlib.Core.List.{append-nil, append_assoc}
use push_cache.Base.Distinct.{member}
use push_cache.Error.{Result, ok, err, Result-cases}
use push_cache.Cache.Contract.{View, Same, Written, Outcome}
use push_cache.Cache.Oracle.{
  Oracle, OracleError, no_data_found, other, text, bytes, select_v, merge_sql, delete_row, select_k,
  count_sql, row_loop,
}

-- What a query for one row says of the value.
abbrev pub ValueOf : Option Bytes → Result OracleError Bytes → Type 0
ValueOf o (ok v) = o ≡ some v
ValueOf o (err no_data_found) = o ≡ none
ValueOf o (err (other e)) = Unit

-- The keys among the rows, when each can be read.
abbrev pub listed : {W : Type 0} (oracle : Oracle W) → List (Result Text oracle.Row) → List Text
listed oracle [] = []
listed oracle (ok row ∷ rows) = elim (oracle.row_text row) [
  | ok k ↦ k ∷ listed oracle rows
  | err e ↦ listed oracle rows
]
listed oracle (err e ∷ rows) = listed oracle rows

-- What the Oracle server does with the statements on a table whose primary key is `k`, as documented: a
-- write is pending on its connection until the commit, and no one else sees it before. A commit that
-- failed may have been done. A task of `spawn_blocking` runs, or is dropped before it starts.
pub record OracleServer {W : Type 0} (oracle : Oracle W) (pool : oracle.Pool) (table : Text)
    : Type 1 where
  -- The committed rows of the table.
  pub stored : View W
  pub pending : oracle.Conn → W → Option (Text × Option Bytes)
  -- A statement selects the keys, and its connection has nothing pending.
  pub IsListing : oracle.Statement → W → Type 0
  pub spawn_lem :
      {A : Type 0} (task : W → A × W) (w : W)
      → (oracle.spawn_blocking task w ≡ (ok (task w).0, (task w).1))
        ⊎ ((e : Text) × (oracle.spawn_blocking task w ≡ (err e, w)))
  pub connection_lem :
      (w : W)
      → let (r, w') = oracle.connection pool w in
        Same stored w w' × Outcome (λ conn. pending conn w' ≡ none) (Unit {0}) r
  pub select_lem :
      (conn : oracle.Conn) (k : Text) (w : W)
      → pending conn w ≡ none
      → let (r, w') = oracle.query_bytes conn (select_v table) (text k ∷ []) w in
        Same stored w w' × (pending conn w' ≡ none) × ValueOf (stored w k) r
  pub count_lem :
      (conn : oracle.Conn) (k : Text) (w : W)
      → pending conn w ≡ none
      → let (r, w') = oracle.query_i32 conn (count_sql table) (text k ∷ []) w in
        Same stored w w'
        × Outcome (λ n. (ltb 0 n && ltb n (2 ^ 31)) ≡ is_some (stored w k)) (Unit {0}) r
  pub merge_lem :
      (conn : oracle.Conn) (k : Text) (v : Bytes) (w : W)
      → pending conn w ≡ none
      → let (r, w') = oracle.execute conn (merge_sql table) (text k ∷ bytes v ∷ []) w in
        Same stored w w' × Outcome (λ _. pending conn w' ≡ some (k, some v)) (Unit {0}) r
  pub delete_lem :
      (conn : oracle.Conn) (k : Text) (w : W)
      → pending conn w ≡ none
      → let (r, w') = oracle.execute conn (delete_row table) (text k ∷ []) w in
        Same stored w w' × Outcome (λ _. pending conn w' ≡ some (k, none)) (Unit {0}) r
  pub commit_lem :
      (conn : oracle.Conn) (k : Text) (o : Option Bytes) (w : W)
      → pending conn w ≡ some (k, o)
      → let (r, w') = oracle.commit conn w in
        Outcome (λ _. Written stored k o w w') (Same stored w w' ⊎ Written stored k o w w') r
  pub statement_lem :
      (conn : oracle.Conn) (w : W)
      → pending conn w ≡ none
      → let (r, w') = oracle.build_statement conn (select_k table) w in
        Same stored w w' × Outcome (λ s. IsListing s w') (Unit {0}) r
  pub rows_lem :
      (s : oracle.Statement) (w : W)
      → IsListing s w
      → let (r, w') = oracle.query_rows s w in
        Same stored w w'
        × Outcome
            (λ rows. (k : Text) → member text_eq k (listed oracle rows) ≡ is_some (stored w k))
            (Unit {0})
            r

module _ {W : Type 0} (oracle : Oracle W) where
  -- The loop of `keys` keeps the order of the rows.
  pub row_loop-append :
      (rows : List (Result Text oracle.Row)) (acc : List Text) {ks : List Text}
      → row_loop oracle rows acc ≡ ok ks
      → ks ≡ acc ++ listed oracle rows
  unfolding row_loop
  row_loop-append [] acc {ks} = λ h. ground (arith, append-nil acc)
  row_loop-append (ok row ∷ rows) acc {ks} = elim (Result-cases (oracle.row_text row)) [
    | inl (k, e) ↦
        rw (e, row_loop, listed)
          (λ h.
            row_loop-append rows (acc ++ k ∷ []) h ∙ append_assoc acc (k ∷ []) (listed oracle rows))
    | inr (x, e) ↦ rw (e, row_loop, listed) (λ h. cc)
  ]
  row_loop-append (err e ∷ rows) acc {ks} = λ h. cc
