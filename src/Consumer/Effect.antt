-- ===== src/Consumer/Effect.antt =====
-- What a message means for the stores, told without the consumer: maps by name of the store and key.
use push_cache.Base.{
  ℕ, ◌≡◌, refl, true, ◌&&◌, Option, none, some, Text, Bytes, text_eq, is_some, if◌then◌else◌,
}
use push_cache.Crates.Wire.{Env, null, valid, invalid}
use push_cache.State.{MyState, lookup}
use push_cache.Consumer.{Message, full_name, key_text}

abbrev pub Shows : Type 0
Shows = Text → Text → Option Bytes

-- The write of `v` under the key of a message in the store `target`, if there is such a key.
abbrev pub written : Option Text → Text → Option Bytes → Shows → Shows
written none target v before name k = before name k
written (some key) target v before name k =
    if text_eq name target && text_eq key k then v else before name k

-- Where a name of a schema leads, and what the message does there.
abbrev pub routed : Option Text → Option Text → Bytes → Shows → Shows
routed none key payload before = before
routed (some target) key payload before = written key target (some payload) before

-- The removal of the key of a tombstone from every store.
abbrev pub emptied : Option Text → Shows → Shows
emptied none before name k = before name k
emptied (some key) before name k = if text_eq key k then none else before name k

-- What is done to the entry of a name and a key depends on this entry alone.
pub routed_cell :
    (name k : Text) (target key : Option Text) (payload : Bytes) (f before : Shows)
    → f name k ≡ before name k
    → routed target key payload f name k ≡ routed target key payload before name k
routed_cell name k none key payload f before e = e
routed_cell name k (some target) none payload f before e = e
routed_cell name k (some target) (some j) payload f before e = rw e refl

module _ {W : Type 0} (env : Env W) (state : MyState W) where
  open env use {avro, schemas}

  -- The store that a schema is routed to, by the schemas in the cache.
  abbrev pub target_of : schemas.Map → ℕ → Option Text
  target_of cache id = elim (schemas.get cache id) [
    | none ↦ none
    | some schema ↦ lookup (full_name env state schema) state.schema_to_store
  ]

  -- The schema of the message, if it names one, is in the cache.
  abbrev pub IsCached : schemas.Map → Message → Type 0
  IsCached cache m = elim m.payload [
    | none ↦ Unit {0}
    | some payload ↦ elim (avro.get_bytes_result (some payload)) [
      | valid id rest ↦ is_some (schemas.get cache id) ≡ true
      | null ↦ Unit {0}
      | invalid b ↦ Unit {0}
    ]
  ]

  -- What a message does to the stores: a tombstone empties its key in every store; a payload in the
  -- wire format is put whole under its key in the store that its schema is routed to.
  abbrev pub effect : schemas.Map → Message → Shows → Shows
  effect cache m before = elim m.payload [
    | none ↦ emptied (key_text env state m.key) before
    | some payload ↦ elim (avro.get_bytes_result (some payload)) [
      | valid id rest ↦ routed (target_of cache id) (key_text env state m.key) payload before
      | null ↦ before
      | invalid b ↦ before
    ]
  ]
