-- ===== src/Tests/Streams.antt =====
-- The consumer on short streams.
use push_cache.Base.{
  ℕ, ◌≡◌, refl, false, List, [], ◌∷◌, Text, Bytes, text_eq, arith, Bool-cases, inl, inr,
}
use push_cache.Error.{ok}
use push_cache.Crates.Models.{plain_metrics, text_map}
use push_cache.Cache.Memory.Laws.{in_memory_cache-IsStore, other_stores, insert-ok, remove-ok}
use push_cache.State.Stores.{AllNamed, text_eq-sym}
use push_cache.Consumer.{Message, consume}
use push_cache.Consumer.Replay.{Agree, replayed, consume-replayed}
use push_cache.Consumer.Routing.{shown}
use push_cache.Consumer.Faults.{IsReliable, AllReliable, messages, consume-ok}
use push_cache.Tests.Fixtures.{
  World, env, users, orders, store, state, start, put_ada, drop_ada, views,
}

abbrev pub Holds : World → Type 0
Holds w = Unit {0}

module _ (w : World) (k : Text) (v : Bytes) (other key : Text) where
  others-users :
      text_eq users other ≡ false
      → (views other ((store 0).insert k v w).1 key ≡ views other w key)
        × (views other ((store 0).remove k w).1 key ≡ views other w key)
  others-users n =
      let frame = other_stores (text_map Bytes) plain_metrics 0 w k v 1 key (λ e. omega arith) in
      let at = text_eq-sym users other n in
      elim (Bool-cases (text_eq other orders)) [
        | inl e ↦ rw (at, e) frame
        | inr e ↦ rw (at, e) (refl, refl)
      ]

  others-orders :
      text_eq orders other ≡ false
      → (views other ((store 1).insert k v w).1 key ≡ views other w key)
        × (views other ((store 1).remove k w).1 key ≡ views other w key)
  others-orders n =
      let frame = other_stores (text_map Bytes) plain_metrics 1 w k v 0 key (λ e. omega arith) in
      let at = text_eq-sym orders other n in
      elim (Bool-cases (text_eq other users)) [
        | inl e ↦ rw e frame
        | inr e ↦ rw (e, at) (refl, refl)
      ]

pub both-AllNamed : AllNamed views Holds state.stores
unfolding text_eq
both-AllNamed = (
  record {
    store = in_memory_cache-IsStore (text_map Bytes) plain_metrics 0;
    insert_frame = λ k v w other i n key. (others-users w k v other key n).0;
    remove_frame = λ k w other i n key. (others-users w k [] other key n).1;
  },
  (
    record {
      store = in_memory_cache-IsStore (text_map Bytes) plain_metrics 1;
      insert_frame = λ k v w other i n key. (others-orders w k v other key n).0;
      remove_frame = λ k w other i n key. (others-orders w k [] other key n).1;
    },
    tt,
  ),
)

store-IsReliable : (i : ℕ) → IsReliable (store i)
store-IsReliable i = record {
  insert_ok = λ k v w. insert-ok (text_map Bytes) plain_metrics i w k v;
  remove_ok = λ k w. (_, remove-ok (text_map Bytes) plain_metrics i w k);
}

pub both-AllReliable : AllReliable state.stores
both-AllReliable = (store-IsReliable 0, (store-IsReliable 1, tt))

abbrev sent : List Message
sent = put_ada ∷ drop_ada ∷ put_ada ∷ []

consume-ok_example : (consume env state (messages sent) start).0 ≡ ok tt
consume-ok_example = consume-ok env state sent start both-AllReliable

sent-consumed : (consume env state (messages sent) start).0 ≡ ok tt
sent-consumed = consume-ok env state sent start both-AllReliable

consume-replayed_example :
    Agree env state
      (shown env state views Holds (consume env state (messages sent) start).1)
      (replayed env state start.schema_cache (messages sent) (shown env state views Holds start))
consume-replayed_example =
    consume-replayed env state views Holds (messages sent) start both-AllNamed tt
      (refl, (tt, (refl, tt))) sent-consumed
