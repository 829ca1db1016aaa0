-- ===== src/Cache.antt =====
-- rust-container/src/cache.rs: the trait `Cache`, and what a component that uses a store relies on.
pub mod Contract
pub mod Selected
pub mod Memory
pub mod Redis
pub mod Postgres
pub mod Mongo
pub mod Oracle
use push_cache.Base.{Bool, Option, List, Text, Bytes}
use push_cache.Error.{Act}

-- The trait `Cache`, over the world `W` that a store lives in: the process's memory for an in-memory
-- store, the server and the connections to it for the others.
pub record Cache (W : Type 0) : Type 0 where
  pub get : Text → Act W (Option Bytes)
  pub insert : Text → Bytes → Act W (Unit {0})
  pub remove : Text → Act W (Option Bytes)
  pub keys : Act W (List Text)
  pub contains_key : Text → Act W Bool
