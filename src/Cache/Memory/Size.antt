-- ===== src/Cache/Memory/Size.antt =====
-- The number of entries of an in-memory store, and how the writes change it.
use push_cache.Base.{ℕ, suc, ◌≡◌, ap, none, some, ◌∷◌, Text, Bytes, text_eq, arith, length}
use push_cache.Base.Distinct.{length_of_same_members}
use push_cache.Crates.{DashMap}

module _ (dash : DashMap Text Bytes text_eq) where
  unfoldable pub size : dash.Map → ℕ
  size m = length (dash.keys m)

  module _ (m : dash.Map) (k : Text) where
    pub size-insert_new :
        (v : Bytes) → dash.get m k ≡ none → size (dash.insert m k v).1 ≡ suc (size m)
    unfolding size
    size-insert_new v h =
        length_of_same_members dash.eq_lem (dash.keys (dash.insert m k v).1) (k ∷ dash.keys m)
          (dash.distinct-keys _) (ground (arith, dash.distinct-keys m, dash.member-keys m k))
          λ j. ground (
            arith,
            dash.member-keys (dash.insert m k v).1 j,
            dash.member-keys m j,
            dash.get-insert m k v j,
            dash.eq_lem.iff k j,
            dash.eq_lem.iff j k,
          )

    pub size-insert_old :
        (v : Bytes) {old : Bytes} → dash.get m k ≡ some old → size (dash.insert m k v).1 ≡ size m
    unfolding size
    size-insert_old v h =
        length_of_same_members dash.eq_lem _ _ (dash.distinct-keys _) (dash.distinct-keys m) λ j.
          ground (
            arith,
            dash.member-keys (dash.insert m k v).1 j,
            dash.member-keys m j,
            dash.get-insert m k v j,
            dash.eq_lem.iff k j,
            ap (dash.get m) {x = k} {y = j},
          )

    pub size-remove_new : dash.get m k ≡ none → size (dash.remove m k).1 ≡ size m
    unfolding size
    size-remove_new h =
        length_of_same_members dash.eq_lem _ _ (dash.distinct-keys _) (dash.distinct-keys m) λ j.
          ground (
            arith,
            dash.member-keys (dash.remove m k).1 j,
            dash.member-keys m j,
            dash.get-remove m k j,
            dash.eq_lem.iff k j,
            ap (dash.get m) {x = k} {y = j},
          )

    pub size-remove_old :
        {old : Bytes} → dash.get m k ≡ some old → suc (size (dash.remove m k).1) ≡ size m
    unfolding size
    size-remove_old h =
        length_of_same_members dash.eq_lem (k ∷ dash.keys (dash.remove m k).1) (dash.keys m)
          (ground (
            arith,
            dash.distinct-keys (dash.remove m k).1,
            dash.member-keys (dash.remove m k).1 k,
            dash.get-remove m k k,
            dash.eq_lem.iff k k,
          ))
          (dash.distinct-keys m)
          λ j. ground (
            arith,
            dash.member-keys (dash.remove m k).1 j,
            dash.member-keys m j,
            dash.get-remove m k j,
            dash.eq_lem.iff k j,
            dash.eq_lem.iff j k,
            ap (dash.get m) {x = k} {y = j},
          )
