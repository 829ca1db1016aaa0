-- ===== src/Cache/Memory.antt =====
-- cache.rs, `InMemoryCache`. The world of the in-memory stores is one map for each of them and the
-- gauge `push_cache_records_total`, which `MyState::new` clones into every one: the clones are
-- handles on one gauge.
pub mod Size
pub mod Gauge
pub mod Threads
pub mod Balance
pub mod Laws
pub mod Process
use push_cache.Base.{
  ℕ, Bool, true, false, Option, none, some, List, Text, Bytes, text_eq, ◌==◌, if◌then◌else◌,
}
use push_cache.Error.{Act, ok}
use push_cache.Crates.{DashMap, Metrics}
use push_cache.Cache.{Cache}

module _ (dash : DashMap Text Bytes text_eq) (metrics : Metrics) where
  open dash use {Map}
  open metrics use {Gauge}

  -- The store with number `i` has the map `maps i`.
  pub record Memory : Type 0 where
    pub maps : ℕ → Map
    pub cache_size : Gauge

  abbrev pub set_map : Memory → ℕ → Map → Memory
  set_map w i m = record w { maps = λ j. if i == j then m else w.maps j }

  -- `InMemoryCache::new`: an empty map; the gauge is the one that is there.
  abbrev pub new : ℕ → Memory → Memory
  new i w = set_map w i dash.new

  unfoldable pub get : ℕ → Text → Act Memory (Option Bytes)
  get i key w = (ok (dash.get (w.maps i) key), w)

  unfoldable pub insert : ℕ → Text → Bytes → Act Memory (Unit {0})
  insert i key value w =
      let (old, m) = dash.insert (w.maps i) key value in
      let w' = set_map w i m in
      elim old [
        | none ↦ (ok tt, record w' { cache_size = metrics.inc w'.cache_size })
        | some v ↦ (ok tt, w')
      ]

  unfoldable pub remove : ℕ → Text → Act Memory (Option Bytes)
  remove i key w =
      let (old, m) = dash.remove (w.maps i) key in
      let w' = set_map w i m in
      elim old [
        | some (k, v) ↦ (ok (some v), record w' { cache_size = metrics.dec w'.cache_size })
        | none ↦ (ok none, w')
      ]

  unfoldable pub keys : ℕ → Act Memory (List Text)
  keys i w = (ok (dash.keys (w.maps i)), w)

  pub contains_key : ℕ → Text → Act Memory Bool
  contains_key i key w = (ok (dash.contains_key (w.maps i) key), w)

  -- `impl Cache for InMemoryCache`.
  abbrev pub in_memory_cache : ℕ → Cache Memory
  in_memory_cache i = record {
    get = get i;
    insert = insert i;
    remove = remove i;
    keys = keys i;
    contains_key = contains_key i;
  }
