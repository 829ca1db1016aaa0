-- ===== src/State.antt =====
-- rust-container/src/lib.rs, `MyState`: what it is made of, and the part of it that changes. Clones
-- of a `MyState` are handles on one state.
pub mod Stores
pub mod Build
pub mod Routed
pub mod Kinds
pub mod Settings
pub mod Clients
pub mod New
pub mod Ready
pub mod InMemory
pub mod Apart
use push_cache.Base.{ℕ, Bool, Option, none, some, List, [], ◌∷◌, Text, text_eq, if◌then◌else◌}
use push_cache.Error.{Act}
use push_cache.Crates.{DashMap, Metrics}
use push_cache.Crates.Wire.{Avro, Env}
use push_cache.Cache.{Cache}
use push_cache.Config.{RouteDefinition}

-- `std::collections::HashMap`, its entries in the order that its iterator happens to have.
module _ {ℓ} {V : Type ℓ} where
  unfoldable pub lookup : Text → List (Text × V) → Option V
  lookup k [] = none
  lookup k ((j, v) ∷ m) = if text_eq j k then some v else lookup k m

-- The fields of `MyState` that stay as `MyState::new` makes them, with what the consumer and the
-- handlers read of the configuration: the schema registry's URL, `cache_max_age` in seconds and
-- `force_reset_earliest`.
pub record MyState (W : Type 0) : Type 0 where
  pub stores : List (Text × Cache W)
  pub routes : List RouteDefinition
  pub schema_to_store : List (Text × Text)
  pub schema_registry_url : Text
  pub cache_max_age : ℕ
  pub force_reset_earliest : Bool
  pub base_path : Text

module _ {W : Type 0} (env : Env W) where
  open env use {metrics, avro, schemas}

  -- The fields that change, beside the world of the stores and of the other servers.
  pub record Shared : Type 0 where
    pub world : W
    pub schema_cache : schemas.Map
    pub requests_miss : metrics.Counter
    pub tombstones_processed : metrics.Counter
    pub schema_unrouted_count : metrics.Counter
    pub consumer_lag : metrics.Gauge
    pub startup_lag_cleared : Bool

  -- An action on the world alone.
  abbrev pub on_world {ℓ} : {A : Type ℓ} → Act W A → Act Shared A
  on_world m s = let (r, w) = m s.world in (r, record s { world = w })
