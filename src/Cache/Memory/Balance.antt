-- ===== src/Cache/Memory/Balance.antt =====
-- cache.rs, `InMemoryCache`: the gauge and the number of entries while several threads write.
use push_cache.Base.{
  ℕ, suc, ◌+◌, ◌%◌, ◌^◌, ◌<◌, ◌≡◌, ◌≢◌, refl, ap, ◌∙◌, inl, inr, List, [], ◌∷◌, Text, Bytes,
  text_eq, arith, Option-cases,
}
use mathlib.Core.Path.{subst}
use push_cache.Crates.{DashMap, Metrics, entry}
use push_cache.Cache.Memory.Size.{
  size, size-insert_new, size-insert_old, size-remove_new, size-remove_old,
}
use push_cache.Cache.Memory.{Memory, set_map}
use push_cache.Cache.Memory.Gauge.{total, total_update, IsCounted}
use push_cache.Cache.Memory.Threads.{
  Owed, nothing, up, down, insert_map, remove_map, settle, Move, inserts_half, removes_half,
  settles, other_thread, Moves, done, then_move,
}

abbrev pub ups : List Owed → ℕ
ups [] = 0
ups (up ∷ ts) = suc (ups ts)
ups (nothing ∷ ts) = ups ts
ups (down ∷ ts) = ups ts

abbrev pub downs : List Owed → ℕ
downs [] = 0
downs (down ∷ ts) = suc (downs ts)
downs (nothing ∷ ts) = downs ts
downs (up ∷ ts) = downs ts

-- No thread is in the middle of a write.
abbrev pub AllIdle : List Owed → Type 0
AllIdle [] = Unit
AllIdle (t ∷ ts) = (t ≡ nothing) × AllIdle ts

ups_cons : (o : Owed) (ts : List Owed) → ups (o ∷ ts) ≡ ups (o ∷ []) + ups ts
ups_cons nothing ts = omega arith
ups_cons up ts = omega arith
ups_cons down ts = omega arith

downs_cons : (o : Owed) (ts : List Owed) → downs (o ∷ ts) ≡ downs (o ∷ []) + downs ts
downs_cons nothing ts = omega arith
downs_cons up ts = omega arith
downs_cons down ts = omega arith

ups_idle : (ts : List Owed) → AllIdle ts → ups ts ≡ 0
ups_idle [] h = refl
ups_idle (nothing ∷ ts) h = ups_idle ts h.1
ups_idle (up ∷ ts) h = cc
ups_idle (down ∷ ts) h = ups_idle ts h.1

downs_idle : (ts : List Owed) → AllIdle ts → downs ts ≡ 0
downs_idle [] h = refl
downs_idle (nothing ∷ ts) h = downs_idle ts h.1
downs_idle (up ∷ ts) h = downs_idle ts h.1
downs_idle (down ∷ ts) h = cc

module _ (dash : DashMap Text Bytes text_eq) (metrics : Metrics) where
  -- The gauge with the increments that are owed is the number of entries with the decrements that are
  -- owed, modulo 2^64.
  pub record IsOwed (n : ℕ) (ts : List Owed) (w : Memory dash metrics) : Type 0 where
    pub balance :
        (metrics.gauge w.cache_size + ups ts) % 2 ^ 64 ≡ (total dash w.maps n + downs ts) % 2 ^ 64

  -- What a half of a write does to the balance.
  abbrev Balanced : ℕ → Owed → Owed → Memory dash metrics → Memory dash metrics → Type 0
  Balanced n o o' w w' =
      (x y : ℕ)
      → (metrics.gauge w.cache_size + (ups (o ∷ []) + x)) % 2 ^ 64
        ≡ (total dash w.maps n + (downs (o ∷ []) + y)) % 2 ^ 64
      → (metrics.gauge w'.cache_size + (ups (o' ∷ []) + x)) % 2 ^ 64
        ≡ (total dash w'.maps n + (downs (o' ∷ []) + y)) % 2 ^ 64

  -- How the total changes when the map of one store is replaced.
  total-set_map :
      (n i : ℕ) (w : Memory dash metrics) (m : dash.Map)
      → i < n
      → total dash (set_map dash metrics w i m).maps n + size dash (w.maps i)
        ≡ total dash w.maps n + size dash m
  total-set_map n i w m below =
      let w' = set_map dash metrics w i m in
      let same : (j : ℕ) → i ≢ j → w'.maps j ≡ w.maps j = λ j ne. ground arith in
      let here : w'.maps i ≡ m = ground arith in
      total_update dash w.maps w'.maps i n same below
      ∙ ap (λ k. total dash w.maps n + size dash k) here

  insert_map-Balanced :
      (n i : ℕ) (key : Text) (value : Bytes) (w : Memory dash metrics)
      → i < n
      → let (o, w') = insert_map dash metrics i key value w in Balanced n nothing o w w'
  unfolding insert_map
  insert_map-Balanced n i key value w below =
      let t = total-set_map n i w (dash.insert (w.maps i) key value).1 below in
      elim (Option-cases (dash.get (w.maps i) key)) [
        | inl absent ↦
            rw (dash.insert_old (w.maps i) key value ∙ absent)
              (λ x y h. omega (arith, t, h, size-insert_new dash (w.maps i) key value absent))
        | inr (old, present) ↦
            rw (dash.insert_old (w.maps i) key value ∙ present)
              (λ x y h. omega (arith, t, h, size-insert_old dash (w.maps i) key value present))
      ]

  remove_map-Balanced :
      (n i : ℕ) (key : Text) (w : Memory dash metrics)
      → i < n
      → let (o, w') = remove_map dash metrics i key w in Balanced n nothing o w w'
  unfolding remove_map
  remove_map-Balanced n i key w below =
      let t = total-set_map n i w (dash.remove (w.maps i) key).1 below in
      elim (Option-cases (dash.get (w.maps i) key)) [
        | inl absent ↦
            rw (dash.remove_old (w.maps i) key ∙ ap (entry key) absent)
              (λ x y h. omega (arith, t, h, size-remove_new dash (w.maps i) key absent))
        | inr (old, present) ↦
            rw (dash.remove_old (w.maps i) key ∙ ap (entry key) present)
              (λ x y h. omega (arith, t, h, size-remove_old dash (w.maps i) key present))
      ]

  settle-Balanced :
      (n : ℕ) (o : Owed) (w : Memory dash metrics)
      → Balanced n o nothing w (settle dash metrics o w)
  unfolding settle
  settle-Balanced n nothing w x y h = h
  settle-Balanced n up w x y h = omega (arith, h, metrics.gauge-inc w.cache_size)
  settle-Balanced n down w x y h = omega (arith, h, metrics.gauge-dec w.cache_size)

  -- What a move does to the balance, whatever else is owed.
  abbrev AllBalanced :
      ℕ → List Owed → List Owed → Memory dash metrics → Memory dash metrics → Type 0
  AllBalanced n ts ts' w w' =
      (x y : ℕ)
      → (metrics.gauge w.cache_size + (ups ts + x)) % 2 ^ 64
        ≡ (total dash w.maps n + (downs ts + y)) % 2 ^ 64
      → (metrics.gauge w'.cache_size + (ups ts' + x)) % 2 ^ 64
        ≡ (total dash w'.maps n + (downs ts' + y)) % 2 ^ 64

  first-AllBalanced :
      (n : ℕ) (o o' : Owed) (ts : List Owed) (w w' : Memory dash metrics)
      → Balanced n o o' w w'
      → AllBalanced n (o ∷ ts) (o' ∷ ts) w w'
  first-AllBalanced n o o' ts w w' b x y h = omega (
    arith,
    b (ups ts + x) (downs ts + y) (omega (arith, h, ups_cons o ts, downs_cons o ts)),
    ups_cons o' ts,
    downs_cons o' ts,
  )

  Move-AllBalanced :
      (n : ℕ) {ts ts' : List Owed} {w w' : Memory dash metrics}
      → Move dash metrics n ts w ts' w'
      → AllBalanced n ts ts' w w'
  Move-AllBalanced n (inserts_half i key value {o} {ts} {w} {w'} below e) =
      first-AllBalanced n nothing o ts w w'
        (subst (λ r. Balanced n nothing r.0 w r.1) e (insert_map-Balanced n i key value w below))
  Move-AllBalanced n (removes_half i key {o} {ts} {w} {w'} below e) =
      first-AllBalanced n nothing o ts w w'
        (subst (λ r. Balanced n nothing r.0 w r.1) e (remove_map-Balanced n i key w below))
  Move-AllBalanced n (settles {o} {ts} {w} {w'} e) =
      first-AllBalanced n o nothing ts w w'
        (subst (λ r. Balanced n o nothing w r) e (settle-Balanced n o w))
  Move-AllBalanced n (other_thread {t} {ts} {ts'} m) = λ x y h. omega (
    arith,
    Move-AllBalanced n m (ups (t ∷ []) + x) (downs (t ∷ []) + y)
        (omega (arith, h, ups_cons t ts, downs_cons t ts)),
    ups_cons t ts',
    downs_cons t ts',
  )

  Move-IsOwed :
      (n : ℕ) {ts ts' : List Owed} {w w' : Memory dash metrics}
      → Move dash metrics n ts w ts' w'
      → IsOwed n ts w
      → IsOwed n ts' w'
  Move-IsOwed n m h = record {
    balance = omega (arith, Move-AllBalanced n m 0 0 (omega (arith, h.balance)));
  }

  Moves-IsOwed :
      (n : ℕ) (ts ts' : List Owed) (w w' : Memory dash metrics)
      → Moves dash metrics n ts w ts' w'
      → IsOwed n ts w
      → IsOwed n ts' w'
  Moves-IsOwed n ts ts' w w' done h = h
  Moves-IsOwed n ts ts' w w' (then_move m ms) h = Moves-IsOwed n _ ts' _ w' ms (Move-IsOwed n m h)

  -- If no write is under way and the gauge is the number of entries of the first n in-memory
  -- stores, modulo 2^64, then after any interleaving of insertions and removals by several threads
  -- on these stores, each a change of a map followed later by a change of the gauge, the gauge with
  -- the increments that are still owed is the number of entries with the decrements that are still
  -- owed, modulo 2^64.
  pub threads-IsOwed :
      (n : ℕ) (ts ts' : List Owed) (w w' : Memory dash metrics)
      → AllIdle ts
      → IsCounted dash metrics n w
      → Moves dash metrics n ts w ts' w'
      → IsOwed n ts' w'
  threads-IsOwed n ts ts' w w' idle c ms =
      Moves-IsOwed n ts ts' w w' ms
        (record { balance = omega (arith, c.counted, ups_idle ts idle, downs_idle ts idle) })

  -- When no write is under way any more, the gauge counts the entries.
  IsOwed-IsCounted :
      (n : ℕ) (ts : List Owed) (w : Memory dash metrics)
      → AllIdle ts
      → metrics.gauge w.cache_size < 2 ^ 64
      → IsOwed n ts w
      → IsCounted dash metrics n w
  IsOwed-IsCounted n ts w idle small h = record {
    counted = omega (arith, h.balance, ups_idle ts idle, downs_idle ts idle);
  }
