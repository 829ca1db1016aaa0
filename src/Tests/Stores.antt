-- ===== src/Tests/Stores.antt =====
-- The in-memory stores on a few calls.
use push_cache.Base.{ℕ, refl, List, [], ◌∷◌, Bytes, arith, text_eq}
use push_cache.Crates.Models.{plain_metrics, text_map}
use push_cache.Cache.Contract.{IsStore}
use push_cache.Cache.Memory.{Memory, in_memory_cache}
use push_cache.Cache.Memory.Laws.{contents, in_memory_cache-IsStore}
use push_cache.Cache.Memory.Gauge.{IsCounted, Call, inserts, removes, lists, run, run-IsCounted}
use push_cache.Cache.Memory.Size.{size}
use push_cache.Cache.Memory.Threads.{
  nothing, up, down, insert_map, remove_map, settle, Moves, done, then_move, inserts_half,
  removes_half, settles, other_thread,
}
use push_cache.Cache.Memory.Balance.{IsOwed, threads-IsOwed}
use push_cache.Tests.Fixtures.{empty_world, ada, body}

in_memory_cache-IsStore_example :
    IsStore
      (in_memory_cache (text_map Bytes) plain_metrics 0)
      (contents (text_map Bytes) plain_metrics 0)
      (λ w. Unit)
in_memory_cache-IsStore_example = in_memory_cache-IsStore (text_map Bytes) plain_metrics 0

abbrev calls : List (ℕ × Call)
calls = (0, inserts ada body) ∷ (1, inserts ada body) ∷ (0, removes ada) ∷ (1, lists) ∷ []

empty-IsCounted : IsCounted (text_map Bytes) plain_metrics 2 empty_world
unfolding size
empty-IsCounted = record { counted = refl }

run-IsCounted_example :
    IsCounted
      (text_map Bytes)
      plain_metrics
      2
      (run (text_map Bytes) plain_metrics calls empty_world)
run-IsCounted_example =
    run-IsCounted (text_map Bytes) plain_metrics 2 calls empty_world
      (omega arith, (omega arith, (omega arith, (omega arith, tt)))) empty-IsCounted

-- The first thread inserts, and before it has counted the record, the second one removes it.
abbrev inserted : Memory (text_map Bytes) plain_metrics
inserted = (insert_map (text_map Bytes) plain_metrics 0 ada body empty_world).1

abbrev removed : Memory (text_map Bytes) plain_metrics
removed = (remove_map (text_map Bytes) plain_metrics 0 ada inserted).1

abbrev counted_late : Memory (text_map Bytes) plain_metrics
counted_late = settle (text_map Bytes) plain_metrics up removed

crossed :
    Moves
      (text_map Bytes)
      plain_metrics
      2
      (nothing ∷ nothing ∷ [])
      empty_world
      (nothing ∷ down ∷ [])
      counted_late
unfolding insert_map remove_map text_eq
crossed = then_move (inserts_half 0 ada body (omega arith) refl) (
    then_move (other_thread (removes_half 0 ada (omega arith) refl))
      (then_move (settles refl) done))

threads-IsOwed_example : IsOwed (text_map Bytes) plain_metrics 2 (nothing ∷ down ∷ []) counted_late
threads-IsOwed_example =
    threads-IsOwed (text_map Bytes) plain_metrics 2 (nothing ∷ nothing ∷ []) (nothing ∷ down ∷ [])
      empty_world counted_late (refl, (refl, tt)) empty-IsCounted crossed
