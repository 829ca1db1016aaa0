-- ===== src/Cache/Oracle/Laws.antt =====
-- cache.rs, `OracleCache`: its operations as tasks on a connection, and the contract.
use push_cache.Base.{◌≡◌, ◌⊎◌, Option, List, Text, Bytes, text_eq, is_some}
use push_cache.Base.Distinct.{member}
use push_cache.Error.{MyError, Result}
use push_cache.Cache.Contract.{Same, Written, Outcome}
use push_cache.Cache.Oracle.{Oracle, OracleCache}
use push_cache.Cache.Oracle.Server.{OracleServer}

module _ {W : Type 0} (oracle : Oracle W) (c : OracleCache oracle)
    (server : OracleServer oracle c.pool c.table_name) where
  open server use {stored, pending}

  abbrev Reads : {A : Type 0} → (A → Type 0) → W → Result MyError A × W → Type 0
  Reads P w r = Same stored w r.1 × Outcome P (Unit {0}) r.0

  abbrev Writes :
      {A : Type 0} → (A → Type 0) → Text → Option Bytes → W → Result MyError A × W → Type 0
  Writes P k o w r =
      Outcome (λ a. P a × Written stored k o w r.1) (Same stored w r.1 ⊎ Written stored k o w r.1)
        r.0

  abbrev IsKeys : W → List Text → Type 0
  IsKeys w ks = (k : Text) → member text_eq k ks ≡ is_some (stored w k)
