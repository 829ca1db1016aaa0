-- ===== src/Cache/Memory/Process.antt =====
-- cache.rs, `InMemoryCache::new`, as `MyState::new` calls it: each new store has a map of its own. The
-- process knows which number is free.
use push_cache.Base.{ℕ, suc, Text, Bytes, text_eq}
use push_cache.Error.{Act, ok}
use push_cache.Crates.{DashMap, Metrics}
use push_cache.Cache.{Cache}
use push_cache.Cache.Contract.{View, IsStore}
use push_cache.Cache.Memory.{Memory, new, in_memory_cache}
use push_cache.Cache.Memory.Laws.{contents, in_memory_cache-IsStore}

module _ (dash : DashMap Text Bytes text_eq) (metrics : Metrics) where
  pub record Process : Type 0 where
    pub memory : Memory dash metrics
    pub next : ℕ

  abbrev on_memory {ℓ} : {A : Type ℓ} → Act (Memory dash metrics) A → Act Process A
  on_memory m w = let (r, memory) = m w.memory in (r, record w { memory = memory })

  -- The store with number `i`.
  abbrev pub in_process : ℕ → Cache Process
  in_process i =
      let c = in_memory_cache dash metrics i in
      record {
        get = λ k. on_memory (c.get k);
        insert = λ k v. on_memory (c.insert k v);
        remove = λ k. on_memory (c.remove k);
        keys = on_memory c.keys;
        contains_key = λ k. on_memory (c.contains_key k);
      }

  unfoldable pub new_in_memory : Act Process (Cache Process)
  new_in_memory w = (
    ok (in_process w.next),
    record { memory = new dash metrics w.next w.memory; next = suc w.next },
  )

  abbrev pub shows : ℕ → View Process
  shows i w k = contents dash metrics i w.memory k

  pub in_process-IsStore : (i : ℕ) → IsStore (in_process i) (shows i) (λ w. Unit)
  in_process-IsStore i =
      let c = in_memory_cache-IsStore dash metrics i in
      record {
        get_Inv = λ k w h. tt;
        get_lem = λ k w h. c.get_lem k w.memory tt;
        insert_Inv = λ k v w h. tt;
        insert_lem = λ k v w h. c.insert_lem k v w.memory tt;
        remove_Inv = λ k w h. tt;
        remove_lem = λ k w h. c.remove_lem k w.memory tt;
        keys_Inv = λ w h. tt;
        keys_lem = λ w h. c.keys_lem w.memory tt;
        contains_key_Inv = λ k w h. tt;
        contains_key_lem = λ k w h. c.contains_key_lem k w.memory tt;
      }
