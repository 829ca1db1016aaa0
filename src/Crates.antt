-- ===== src/Crates.antt =====
-- What the sources use of the crates `dashmap` and `prometheus`, with the documented laws that the
-- proofs rely on. The crates are parameters: no definition of theirs is given here.
pub mod Models
pub mod Wire
use push_cache.Base.{
  ℕ, ◌+◌, ◌%◌, ◌^◌, ◌-◌, ◌≡◌, Bool, Option, none, some, true, List, if◌then◌else◌, is_some,
}
use push_cache.Base.Distinct.{IsEquality, member, distinct}

-- A value with its key.
abbrev pub entry {ℓ κ} : {K : Type ℓ} {V : Type κ} → K → Option V → Option (K × V)
entry k none = none
entry k (some v) = some (k, v)

-- `dashmap::DashMap<K, V>`, its values handed out as clones.
pub record DashMap (K V : Type 0) (eq : K → K → Bool) : Type 1 where
  pub Map : Type 0
  pub new : Map
  pub get : Map → K → Option V
  pub insert : Map → K → V → Option V × Map
  pub remove : Map → K → Option (K × V) × Map
  pub keys : Map → List K
  pub contains_key : Map → K → Bool
  pub eq_lem : IsEquality eq
  pub get-new : (k : K) → get new k ≡ none
  -- `insert` returns the old value.
  pub insert_old : (m : Map) (k : K) (v : V) → (insert m k v).0 ≡ get m k
  pub get-insert :
      (m : Map) (k : K) (v : V) (j : K)
      → get (insert m k v).1 j ≡ (if eq k j then some v else get m j)
  -- `remove` returns the entry that it took out.
  pub remove_old : (m : Map) (k : K) → (remove m k).0 ≡ entry k (get m k)
  pub get-remove : (m : Map) (k j : K) → get (remove m k).1 j ≡ (if eq k j then none else get m j)
  pub contains_lem : (m : Map) (k : K) → contains_key m k ≡ is_some (get m k)
  -- The iterator visits each entry once.
  pub member-keys : (m : Map) (k : K) → member eq k (keys m) ≡ is_some (get m k)
  pub distinct-keys : (m : Map) → distinct eq (keys m) ≡ true

-- `prometheus::IntCounter`, over an atomic `u64`, and `prometheus::IntGauge`, over an atomic `i64`,
-- whose value is given as its bit pattern. Both wrap around.
pub record Metrics : Type 1 where
  pub Counter : Type 0
  pub count : Counter → ℕ
  pub count_up : Counter → Counter
  pub count-count_up : (c : Counter) → count (count_up c) ≡ (count c + 1) % 2 ^ 64
  pub Gauge : Type 0
  pub gauge : Gauge → ℕ
  pub inc : Gauge → Gauge
  pub dec : Gauge → Gauge
  pub set : ℕ → Gauge → Gauge
  pub gauge-inc : (g : Gauge) → gauge (inc g) ≡ (gauge g + 1) % 2 ^ 64
  pub gauge-dec : (g : Gauge) → gauge (dec g) ≡ (gauge g + (2 ^ 64 - 1)) % 2 ^ 64
  pub gauge-set : (n : ℕ) (g : Gauge) → gauge (set n g) ≡ n % 2 ^ 64
