-- ===== src/Cache/Memory/Gauge.antt =====
-- cache.rs, `InMemoryCache`: the gauge `push_cache_records_total` and the number of entries.
use push_cache.Base.{
  ℕ, zero, suc, ◌+◌, ◌%◌, ◌^◌, ◌<◌, ◌≤◌, ◌≡◌, refl, ap, inl, inr, List, [], ◌∷◌, Text, Bytes,
  text_eq, ◌==◌, if◌then◌else◌, is_some, arith, Option-cases, ◌≢◌, dec_lt,
}
use push_cache.Crates.{DashMap, Metrics}
use push_cache.Cache.Memory.Size.{
  size, size-insert_new, size-insert_old, size-remove_new, size-remove_old,
}
use push_cache.Cache.Memory.{Memory, get, insert, remove, keys, contains_key}

module _ (dash : DashMap Text Bytes text_eq) where
  -- The entries of the stores with the numbers below `n`.
  abbrev pub total : (ℕ → dash.Map) → ℕ → ℕ
  total maps zero = 0
  total maps (suc n) = total maps n + size dash (maps n)

  total_above :
      (maps maps' : ℕ → dash.Map) (i n : ℕ)
      → ((j : ℕ) → i ≢ j → maps' j ≡ maps j)
      → n ≤ i
      → total maps' n ≡ total maps n
  total_above maps maps' i zero same h = refl
  total_above maps maps' i (suc n) same h =
      omega (
        arith,
        total_above maps maps' i n same (omega arith),
        ap (size dash) (same n (omega arith)),
      )

  -- A change of one store changes the total by as much.
  pub total_update :
      (maps maps' : ℕ → dash.Map) (i n : ℕ)
      → ((j : ℕ) → i ≢ j → maps' j ≡ maps j)
      → i < n
      → total maps' n + size dash (maps i) ≡ total maps n + size dash (maps' i)
  total_update maps maps' i zero same h = elim h [ ]
  total_update maps maps' i (suc n) same h = elim (dec_lt i n) [
    | yes below ↦
        omega (arith, total_update maps maps' i n same below, ap (size dash) (same n (omega arith)))
    | no above ↦
        let here : n ≡ i = omega arith in
        rw here (omega (arith, total_above maps maps' i i same (omega arith)))
  ]

-- A call of any operation of the in-memory store `i`.
pub data Call : Type 0 where
  inserts : Text → Bytes → Call
  removes : Text → Call
  reads : Text → Call
  lists : Call
  checks : Text → Call

-- Calls of stores below `n` alone.
abbrev pub AllBelow : ℕ → List (ℕ × Call) → Type 0
AllBelow n [] = Unit
AllBelow n (c ∷ cs) = (c.0 < n) × AllBelow n cs

module _ (dash : DashMap Text Bytes text_eq) (metrics : Metrics) where
  -- The gauge is the number of entries of the first `n` in-memory stores, modulo 2^64.
  pub record IsCounted (n : ℕ) (w : Memory dash metrics) : Type 0 where
    pub counted : metrics.gauge w.cache_size ≡ total dash w.maps n % 2 ^ 64

  -- What an operation on the store `i` did: it changed that map alone, and the gauge by as much.
  record Counts (i : ℕ) (w w' : Memory dash metrics) : Type 0 where
    others : (j : ℕ) → i ≢ j → w'.maps j ≡ w.maps j
    moved :
        (metrics.gauge w'.cache_size + size dash (w.maps i)) % 2 ^ 64
        ≡ (metrics.gauge w.cache_size + size dash (w'.maps i)) % 2 ^ 64
    reduced : metrics.gauge w'.cache_size % 2 ^ 64 ≡ metrics.gauge w'.cache_size

  Counts-IsCounted :
      (i n : ℕ) (w w' : Memory dash metrics)
      → i < n
      → Counts i w w'
      → IsCounted n w
      → IsCounted n w'
  Counts-IsCounted i n w w' below c h = record {
    counted = omega (arith, total_update dash w.maps w'.maps i n c.others below);
  }

  module _ (i n : ℕ) (w : Memory dash metrics) (k : Text) (v : Bytes) where
    cache_size-insert :
        (insert dash metrics i k v w).1.cache_size
        ≡ (if is_some (dash.get (w.maps i) k) then w.cache_size else metrics.inc w.cache_size)
    unfolding insert
    cache_size-insert = ground (arith, dash.insert_old (w.maps i) k v)

    cache_size-remove :
        (remove dash metrics i k w).1.cache_size
        ≡ (if is_some (dash.get (w.maps i) k) then metrics.dec w.cache_size else w.cache_size)
    unfolding remove
    cache_size-remove = ground (arith, dash.remove_old (w.maps i) k)

    maps-insert :
        (j : ℕ)
        → (insert dash metrics i k v w).1.maps j
          ≡ (if i == j then (dash.insert (w.maps i) k v).1 else w.maps j)
    unfolding insert
    maps-insert j = ground arith

    maps-remove :
        (j : ℕ)
        → (remove dash metrics i k w).1.maps j
          ≡ (if i == j then (dash.remove (w.maps i) k).1 else w.maps j)
    unfolding remove
    maps-remove j = ground arith

    insert-Counts : IsCounted n w → Counts i w (insert dash metrics i k v w).1
    insert-Counts h = elim (Option-cases (dash.get (w.maps i) k)) [
      | inl absent ↦ record {
        others = λ j ne. ground (arith, maps-insert j);
        moved = ground (
          arith,
          h.counted,
          maps-insert i,
          cache_size-insert,
          metrics.gauge-inc w.cache_size,
          size-insert_new dash (w.maps i) k v absent,
        );
        reduced = ground (arith, h.counted, cache_size-insert, metrics.gauge-inc w.cache_size);
      }
      | inr (old, present) ↦ record {
        others = λ j ne. ground (arith, maps-insert j);
        moved =
            ground (
              arith,
              maps-insert i,
              cache_size-insert,
              size-insert_old dash (w.maps i) k v present,
            );
        reduced = ground (arith, h.counted, cache_size-insert);
      }
    ]

    remove-Counts : IsCounted n w → Counts i w (remove dash metrics i k w).1
    remove-Counts h = elim (Option-cases (dash.get (w.maps i) k)) [
      | inl absent ↦ record {
        others = λ j ne. ground (arith, maps-remove j);
        moved =
            ground
              (arith, maps-remove i, cache_size-remove, size-remove_new dash (w.maps i) k absent);
        reduced = ground (arith, h.counted, cache_size-remove);
      }
      | inr (old, present) ↦ record {
        others = λ j ne. ground (arith, maps-remove j);
        moved = ground (
          arith,
          h.counted,
          maps-remove i,
          cache_size-remove,
          metrics.gauge-dec w.cache_size,
          size-remove_old dash (w.maps i) k present,
        );
        reduced = ground (arith, h.counted, cache_size-remove, metrics.gauge-dec w.cache_size);
      }
    ]

  pub step : ℕ × Call → Memory dash metrics → Memory dash metrics
  unfolding get keys contains_key
  step (i, inserts k v) w = (insert dash metrics i k v w).1
  step (i, removes k) w = (remove dash metrics i k w).1
  step (i, reads k) w = (get dash metrics i k w).1
  step (i, lists) w = (keys dash metrics i w).1
  step (i, checks k) w = (contains_key dash metrics i k w).1

  pub run : List (ℕ × Call) → Memory dash metrics → Memory dash metrics
  unfolding step
  run [] w = w
  run (c ∷ cs) w = run cs (step c w)

  step-IsCounted :
      (n : ℕ) (c : ℕ × Call) (w : Memory dash metrics)
      → c.0 < n
      → IsCounted n w
      → IsCounted n (step c w)
  unfolding step
  step-IsCounted n (i, inserts k v) w b h = Counts-IsCounted i n w _ b (insert-Counts i n w k v h) h
  step-IsCounted n (i, removes k) w b h = Counts-IsCounted i n w _ b (remove-Counts i n w k [] h) h
  step-IsCounted n (i, reads k) w b h = h
  step-IsCounted n (i, lists) w b h = h
  step-IsCounted n (i, checks k) w b h = h

  -- If the gauge shared by the in-memory stores is the number of entries of the first n stores,
  -- modulo 2^64, then it is so again after any sequence of calls of the operations of these stores.
  pub run-IsCounted :
      (n : ℕ) (cs : List (ℕ × Call)) (w : Memory dash metrics)
      → AllBelow n cs
      → IsCounted n w
      → IsCounted n (run cs w)
  unfolding run
  run-IsCounted n [] w b h = h
  run-IsCounted n (c ∷ cs) w b h = run-IsCounted n cs (step c w) b.1 (step-IsCounted n c w b.0 h)
