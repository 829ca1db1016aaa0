-- ===== src/Cache/Redis/Laws.antt =====
-- cache.rs, `RedisCache`: what the Redis server is documented to do, and the contract.
use push_cache.Base.{
  ◌≡◌, ◌⊎◌, Bool, true, ◌&&◌, Option, none, some, List, Text, Bytes, codes, text_eq, starts_with,
  is_some,
}
use push_cache.Base.Distinct.{member}
use push_cache.Cache.Contract.{View, Same, Written, Outcome}
use push_cache.Cache.Redis.{Redis, RedisCache, key_prefix, format_key, match_pattern, get}
use push_cache.Cache.Redis.Keys.{found}

-- What the Redis server does, as documented: `GET`, `SET`, `GETDEL` and `EXISTS` on its keys, and
-- `SCAN MATCH`, whose items are the keys that the pattern matches. A failed write may have been done.
pub record RedisServer {W : Type 0} (redis : Redis W) : Type 0 where
  pub stored : View W
  pub glob : Text → Text → Bool
  pub get_lem :
      (m : redis.Manager) (k : Text) (w : W)
      → let (r, w') = redis.get m k w in
        Same stored w w' × Outcome (λ o. o ≡ stored w k) (Unit {0}) r
  pub set_lem :
      (m : redis.Manager) (k : Text) (v : Bytes) (w : W)
      → let (r, w') = redis.set m k v w in
        Outcome
          (λ _. Written stored k (some v) w w')
          (Same stored w w' ⊎ Written stored k (some v) w w')
          r
  pub get_del_lem :
      (m : redis.Manager) (k : Text) (w : W)
      → let (r, w') = redis.get_del m k w in
        Outcome
          (λ o. (o ≡ stored w k) × Written stored k none w w')
          (Same stored w w' ⊎ Written stored k none w w')
          r
  pub exists_lem :
      (m : redis.Manager) (k : Text) (w : W)
      → let (r, w') = redis.exists m k w in
        Same stored w w' × Outcome (λ b. b ≡ is_some (stored w k)) (Unit {0}) r
  pub scan_lem :
      (m : redis.Manager) (pattern : Text) (w : W)
      → let (r, w') = redis.scan_match m pattern w in
        Same stored w w'
        × Outcome
            (λ items.
              (k : Text)
              → member text_eq k (found items) ≡ (is_some (stored w k) && glob pattern k))
            (Unit {0})
            r
  pub glob_all : (k : Text) → glob (codes "*") k ≡ true

module _ {W : Type 0} (redis : Redis W) (server : RedisServer redis) (c : RedisCache redis) where
  open server use {stored, glob}

  -- The store's own keys, without the prefix.
  abbrev pub view : View W
  view w k = stored w (format_key c.prefix k)

  -- The pattern of a prefix asks for exactly the keys that begin with it. A prefix with a glob
  -- character in it may not be literal.
  abbrev pub IsLiteral : Option Text → Type 0
  IsLiteral none = Unit
  IsLiteral (some p) = (k : Text) → glob (match_pattern (some p)) k ≡ starts_with (key_prefix p) k

  abbrev IsKeys : W → List Text → Type 0
  IsKeys w ks = (k : Text) → member text_eq k ks ≡ is_some (view w k)
