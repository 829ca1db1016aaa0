-- ===== src/Cache/Memory/Laws.antt =====
-- cache.rs, `InMemoryCache`: the view of an in-memory store, and the contract.
use push_cache.Base.{
  ℕ, ◌≡◌, refl, ◌≢◌, none, some, Text, Bytes, text_eq, ◌==◌, if◌then◌else◌, arith,
}
use push_cache.Error.{ok}
use push_cache.Crates.{DashMap, Metrics}
use push_cache.Cache.Contract.{View, IsStore, Written}
use push_cache.Cache.Memory.{Memory, get, insert, remove, keys, contains_key, in_memory_cache}

module _ (dash : DashMap Text Bytes text_eq) (metrics : Metrics) where
  abbrev pub contents : ℕ → View (Memory dash metrics)
  contents i w k = dash.get (w.maps i) k

  module _ (i : ℕ) (w : Memory dash metrics) (k : Text) where
    pub insert-ok : (v : Bytes) → (insert dash metrics i k v w).0 ≡ ok tt
    unfolding insert
    insert-ok v = ground arith

    pub remove-ok : (remove dash metrics i k w).0 ≡ ok (contents i w k)
    unfolding remove
    remove-ok = ground (arith, dash.remove_old (w.maps i) k)

    pub get-ok : (get dash metrics i k w).0 ≡ ok (contents i w k)
    unfolding get
    get-ok = refl

    maps-insert :
        (v : Bytes) (j : ℕ)
        → (insert dash metrics i k v w).1.maps j
          ≡ (if i == j then (dash.insert (w.maps i) k v).1 else w.maps j)
    unfolding insert
    maps-insert v j = ground arith

    maps-remove :
        (j : ℕ)
        → (remove dash metrics i k w).1.maps j
          ≡ (if i == j then (dash.remove (w.maps i) k).1 else w.maps j)
    unfolding remove
    maps-remove j = ground arith

    insert-Written : (v : Bytes) → Written (contents i) k (some v) w (insert dash metrics i k v w).1
    insert-Written v j = ground (arith, maps-insert v i, dash.get-insert (w.maps i) k v j)

    remove-Written : Written (contents i) k none w (remove dash metrics i k w).1
    remove-Written j = ground (arith, maps-remove i, dash.get-remove (w.maps i) k j)

    -- An insertion into one in-memory store, or a removal from it, changes nothing that another
    -- in-memory store shows.
    pub other_stores :
        (v : Bytes) (j : ℕ) (key : Text)
        → i ≢ j
        → (contents j (insert dash metrics i k v w).1 key ≡ contents j w key)
          × (contents j (remove dash metrics i k w).1 key ≡ contents j w key)
    other_stores v j key n = (ground (arith, maps-insert v j), ground (arith, maps-remove j))

  pub keys-ok :
      (i : ℕ) (w : Memory dash metrics) → (keys dash metrics i w).0 ≡ ok (dash.keys (w.maps i))
  unfolding keys
  keys-ok i w = refl

  -- The in-memory store with number i meets the contract of a store, over any concurrent map and
  -- gauge that satisfy their laws; its view is what its map holds.
  pub in_memory_cache-IsStore :
      (i : ℕ) → IsStore (in_memory_cache dash metrics i) (contents i) (λ w. Unit)
  unfolding get keys contains_key
  in_memory_cache-IsStore i = record {
    get_Inv = λ k w h. tt;
    get_lem = λ k w h. (λ j. refl, refl);
    insert_Inv = λ k v w h. tt;
    insert_lem = λ k v w h. rw (insert-ok i w k v) (insert-Written i w k v);
    remove_Inv = λ k w h. tt;
    remove_lem = λ k w h. rw (remove-ok i w k) (refl, remove-Written i w k);
    keys_Inv = λ w h. tt;
    keys_lem = λ w h. (λ j. refl, λ k. dash.member-keys (w.maps i) k);
    contains_key_Inv = λ k w h. tt;
    contains_key_lem = λ k w h. (λ j. refl, dash.contains_lem (w.maps i) k);
  }
