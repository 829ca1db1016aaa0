-- ===== src/Config.antt =====
-- rust-container/src/config.rs: the configuration. A URL is what the code reads of a `url::Url`; the
-- deserialisation by `serde` is not modelled.
pub mod Layers
use push_cache.Base.{Bool, Option, none, some, Text, codes, if◌then◌else◌}
use push_cache.Error.{Result, ok, err}

-- The setters of `url::Url`, which fail on a URL that cannot have a user.
pub record UrlSetters (Url : Type 0) : Type 0 where
  pub set_password : Url → Text → Option Url
  pub set_username : Url → Text → Option Url

pub record UrlWithUsernamePassword (Url : Type 0) : Type 0 where
  pub url : Url
  pub username : Option Text
  pub password : Option Text

-- A setter with a value that may be missing.
abbrev set_if {ℓ} : {U : Type ℓ} → (U → Text → Option U) → Option Text → U → Option U
set_if set none url = some url
set_if set (some value) url = set url value

-- `From<UrlWithUsernamePassword> for Url`, or none where it panics.
unfoldable pub into_url : {U : Type 0} → UrlSetters U → UrlWithUsernamePassword U → Option U
into_url setters value = elim (set_if setters.set_password value.password value.url) [
  | none ↦ none
  | some url ↦ set_if setters.set_username value.username url
]

pub record RouteDefinition : Type 0 where
  pub path : Text
  pub store : Text
  pub key_from_body : Option Text

pub data GroupId : Type 0 where
  hostname : Bool → GroupId
  explicit : Text → GroupId

-- `MyKafkaConfig::get_group_id`; the environment variable `HOSTNAME` is an argument.
unfoldable pub get_group_id : GroupId → Option Text → Result Text Text
get_group_id (hostname use_hostname) env =
    if use_hostname
    then elim env [
      | some name ↦ ok name
      | none ↦ err (codes "HOSTNAME environment variable is required when use_hostname is true")
    ]
    else err (codes "use_hostname must be true if provided as an object")
get_group_id (explicit id) env = ok id

pub data KafkaOffsetReset : Type 0 where
  earliest latest : KafkaOffsetReset

-- `Display` of `KafkaOffsetReset`.
unfoldable pub offset_reset_text : KafkaOffsetReset → Text
offset_reset_text earliest = codes "earliest"
offset_reset_text latest = codes "latest"
