-- ===== src/State/Settings.antt =====
-- rust-container/src/config.rs, `MyConfig`: what the start of the service reads of the configuration.
use push_cache.Base.{ℕ, Bool, Option, List, Text}
use push_cache.Config.{RouteDefinition}
use push_cache.Kafka.Offsets.{KafkaConfig}
use push_cache.Runtime.{ThreadRuntime}
use push_cache.Startup.{StartupCheckConfig}
use push_cache.State.Build.{StoreDefinition}

-- The fields of `runtime`, `kafka`, `startup_checks` and `cache`, a URL as `as_str` prints it, and the path of
-- the address of the web service.
pub record MyConfig : Type 0 where
  pub runtime : ThreadRuntime
  pub kafka : KafkaConfig
  pub schema_registry_url : Text
  pub preload_schemas : Option (List ℕ)
  pub cache_max_age : ℕ
  pub force_reset_earliest : Bool
  pub startup_checks : StartupCheckConfig
  pub stores : List StoreDefinition
  pub routes : List RouteDefinition
  pub base_path : Text
