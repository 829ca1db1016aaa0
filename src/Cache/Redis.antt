-- ===== src/Cache/Redis.antt =====
-- cache.rs, `RedisCache`, over the crate `redis`.
pub mod Laws
pub mod Keys
use push_cache.Base.{
  Bool, Option, none, some, List, [], ◌∷◌, ◌++◌, Text, Bytes, String, codes, strip_prefix,
}
use push_cache.Error.{
  MyError, Result, ok, err, Act, lift, call_err, message_of, map_err, ◌>>=◌, pure,
}
use push_cache.Cache.{Cache}

-- What the sources use of the crate `redis`. An error is the text that it displays as. The iterator
-- of `scan_match` is the list of what its `next_item` yields.
pub record Redis (W : Type 0) : Type 1 where
  pub Client : Type 0
  pub Manager : Type 0
  pub open_client : Text → Result Text Client
  pub get_connection_manager : Client → W → Result Text Manager × W
  pub get : Manager → Text → W → Result Text (Option Bytes) × W
  pub set : Manager → Text → Bytes → W → Result Text (Unit {0}) × W
  pub get_del : Manager → Text → W → Result Text (Option Bytes) × W
  pub exists : Manager → Text → W → Result Text Bool × W
  pub scan_match : Manager → Text → W → Result Text (List (Result Text Text)) × W

-- `config::RedisConfig`: the URL as `as_str` prints it.
pub record RedisConfig : Type 0 where
  pub url : Text
  pub prefix : Option Text

-- `format!("{p}:")`, which stands in front of every key of a store with a prefix.
abbrev pub key_prefix : Text → Text
key_prefix p = p ++ codes ":"

unfoldable pub format_key : Option Text → Text → Text
format_key (some p) key = key_prefix p ++ key
format_key none key = key

unfoldable pub match_pattern : Option Text → Text
match_pattern (some p) = key_prefix p ++ codes "*"
match_pattern none = codes "*"

-- The body of the loop of `keys` for an item that is a key.
unfoldable pub strip_key : Option Text → Text → Text
strip_key (some p) k = elim (strip_prefix (key_prefix p) k) [ some stripped ↦ stripped | none ↦ k ]
strip_key none k = k

-- The loop of `keys`.
unfoldable pub scan_loop :
    Option Text → List (Result Text Text) → List Text → Result MyError (List Text)
scan_loop prefix [] keys = ok keys
scan_loop prefix (ok k ∷ items) keys = scan_loop prefix items (keys ++ strip_key prefix k ∷ [])
scan_loop prefix (err e ∷ items) keys = err (message_of "Redis scan error during iteration: " e)

module _ {W : Type 0} (redis : Redis W) where
  open redis use {Manager}

  pub record RedisCache : Type 0 where
    pub manager : Manager
    pub prefix : Option Text

  unfoldable pub new : RedisConfig → Act W RedisCache
  new config = do
    client ← lift (map_err (message_of "Redis connect error: ") (redis.open_client config.url))
    manager ← λ w.
        call_err (message_of "Redis connection manager error: ")
          (redis.get_connection_manager client w)
    pure (record { manager = manager; prefix = config.prefix })

  unfoldable pub get : RedisCache → Text → Act W (Option Bytes)
  get c key w =
      call_err (message_of "Redis get error: ") (redis.get c.manager (format_key c.prefix key) w)

  unfoldable pub insert : RedisCache → Text → Bytes → Act W (Unit {0})
  insert c key value w =
      call_err (message_of "Redis set error: ")
        (redis.set c.manager (format_key c.prefix key) value w)

  unfoldable pub remove : RedisCache → Text → Act W (Option Bytes)
  remove c key w =
      call_err (message_of "Redis get_del error: ")
        (redis.get_del c.manager (format_key c.prefix key) w)

  unfoldable pub keys : RedisCache → Act W (List Text)
  keys c = do
    items ← λ w.
        call_err (message_of "Redis scan error: ")
          (redis.scan_match c.manager (match_pattern c.prefix) w)
    lift (scan_loop c.prefix items [])

  unfoldable pub contains_key : RedisCache → Text → Act W Bool
  contains_key c key w =
      call_err (message_of "Redis exists error: ")
        (redis.exists c.manager (format_key c.prefix key) w)

  -- `impl Cache for RedisCache`.
  abbrev pub redis_cache : RedisCache → Cache W
  redis_cache c = record {
    get = get c;
    insert = insert c;
    remove = remove c;
    keys = keys c;
    contains_key = contains_key c;
  }
