-- ===== src/Cache/Memory/Threads.antt =====
-- cache.rs, `InMemoryCache`: writes from several threads. A write changes a map and then the shared
-- gauge; between the two any other thread may be at work.
use push_cache.Base.{
  ℕ, ◌<◌, ◌≡◌, refl, inl, inr, Option, none, some, List, ◌∷◌, Text, Bytes, text_eq, Option-cases,
}
use push_cache.Crates.{DashMap, Metrics}
use push_cache.Cache.Memory.{Memory, set_map, insert, remove}

-- What a thread still has to do to the gauge.
pub data Owed : Type 0 where
  nothing : Owed
  up : Owed
  down : Owed

-- What is owed after an insertion, by the value before, and after a removal, by the entry.
abbrev pub owed_insert : Option Bytes → Owed
owed_insert none = up
owed_insert (some old) = nothing

abbrev pub owed_remove : Option (Text × Bytes) → Owed
owed_remove none = nothing
owed_remove (some old) = down

module _ (dash : DashMap Text Bytes text_eq) (metrics : Metrics) where
  -- The first half of `insert` and of `remove`.
  unfoldable pub insert_map : ℕ → Text → Bytes → Memory dash metrics → Owed × Memory dash metrics
  insert_map i key value w =
      let (old, m) = dash.insert (w.maps i) key value in
      (owed_insert old, set_map dash metrics w i m)

  unfoldable pub remove_map : ℕ → Text → Memory dash metrics → Owed × Memory dash metrics
  remove_map i key w =
      let (old, m) = dash.remove (w.maps i) key in (owed_remove old, set_map dash metrics w i m)

  -- The second half.
  unfoldable pub settle : Owed → Memory dash metrics → Memory dash metrics
  settle nothing w = w
  settle up w = record w { cache_size = metrics.inc w.cache_size }
  settle down w = record w { cache_size = metrics.dec w.cache_size }

  -- The two halves make the operation.
  insert-settle :
      (i : ℕ) (key : Text) (value : Bytes) (w : Memory dash metrics)
      → (insert dash metrics i key value w).1
        ≡ let (o, w') = insert_map i key value w in settle o w'
  unfolding insert insert_map settle
  insert-settle i key value w = elim (Option-cases (dash.insert (w.maps i) key value).0) [
    | inl e ↦ rw (e, insert, settle) refl
    | inr (old, e) ↦ rw (e, insert, settle) refl
  ]

  remove-settle :
      (i : ℕ) (key : Text) (w : Memory dash metrics)
      → (remove dash metrics i key w).1 ≡ let (o, w') = remove_map i key w in settle o w'
  unfolding remove remove_map settle
  remove-settle i key w = elim (Option-cases (dash.remove (w.maps i) key).0) [
    | inl e ↦ rw (e, remove, settle) refl
    | inr (old, e) ↦ rw (e, remove, settle) refl
  ]

  -- One of the threads makes one half of a write, on a store below `n`.
  pub data Move (n : ℕ)
      : List Owed → Memory dash metrics → List Owed → Memory dash metrics → Type 0 where
    inserts_half :
        (i : ℕ) (key : Text) (value : Bytes) {o : Owed} {ts : List Owed}
        {w w' : Memory dash metrics}
        → i < n
        → insert_map i key value w ≡ (o, w')
        → Move n (nothing ∷ ts) w (o ∷ ts) w'
    removes_half :
        (i : ℕ) (key : Text) {o : Owed} {ts : List Owed} {w w' : Memory dash metrics}
        → i < n
        → remove_map i key w ≡ (o, w')
        → Move n (nothing ∷ ts) w (o ∷ ts) w'
    settles :
        {o : Owed} {ts : List Owed} {w w' : Memory dash metrics}
        → settle o w ≡ w'
        → Move n (o ∷ ts) w (nothing ∷ ts) w'
    other_thread :
        {t : Owed} {ts ts' : List Owed} {w w' : Memory dash metrics}
        → Move n ts w ts' w'
        → Move n (t ∷ ts) w (t ∷ ts') w'

  pub data Moves (n : ℕ)
      : List Owed → Memory dash metrics → List Owed → Memory dash metrics → Type 0 where
    done : {ts : List Owed} {w : Memory dash metrics} → Moves n ts w ts w
    then_move :
        {ts ts' ts'' : List Owed} {w w' w'' : Memory dash metrics}
        → Move n ts w ts' w'
        → Moves n ts' w' ts'' w''
        → Moves n ts w ts'' w''
