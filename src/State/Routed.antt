-- ===== src/State/Routed.antt =====
-- lib.rs, `MyState::new`: what the loops over the definitions of the stores and over the schemas to be
-- loaded leave in the maps.
use push_cache.Base.{
  ℕ, ◌≡◌, refl, sym, ◌∙◌, inl, inr, Bool, true, ◌||◌, Option, none, some, List, [], ◌∷◌, Text,
  text_eq, text_eq_iff, is_some, if◌then◌else◌, arith, Option-cases,
}
use push_cache.Base.Distinct.{member}
use push_cache.Error.{ok, Act, >>=-rest}
use push_cache.Cache.{Cache}
use push_cache.Cache.Redis.{Redis}
use push_cache.Cache.Mongo.{Mongo}
use push_cache.Cache.Oracle.{Oracle}
use push_cache.Cache.Postgres.{Sqlx}
use push_cache.Crates.{DashMap}
use push_cache.Crates.Wire.{Http, Avro}
use push_cache.Kafka.{fetch_schema_by_id}
use push_cache.State.{lookup}
use push_cache.State.Build.{
  StoreDefinition, insert, add_schemas, schemas_of, schema_loop, create_store, store_loop,
  preload_loop,
}

pub lookup-insert {ℓ} :
    {V : Type ℓ} (k : Text) (v : V) (m : List (Text × V)) (j : Text)
    → lookup j (insert k v m) ≡ (if text_eq k j then some v else lookup j m)
unfolding lookup insert
lookup-insert k v [] j = refl
lookup-insert k v ((i, w) ∷ m) j =
    ground (arith, lookup-insert k v m j, text_eq_iff i k, text_eq_iff i j, text_eq_iff k j)

-- The store of a schema: of the definitions that list it, the last one has it.
abbrev pub owner : Text → List StoreDefinition → Option Text
owner s [] = none
owner s (d ∷ ds) = elim (owner s ds) [
  | some n ↦ some n
  | none ↦ if member text_eq s (schemas_of d) then some d.name else none
]

abbrev pub names_of : List StoreDefinition → List Text
names_of [] = []
names_of (d ∷ ds) = d.name ∷ names_of ds

lookup-add_schemas :
    (name : Text) (ss : List Text) (m : List (Text × Text)) (s : Text)
    → lookup s (add_schemas name ss m) ≡ (if member text_eq s ss then some name else lookup s m)
unfolding add_schemas
lookup-add_schemas name [] m s = refl
lookup-add_schemas name (x ∷ ss) m s = ground (
  arith,
  lookup-add_schemas name ss (insert x name m) s,
  lookup-insert x name m s,
  text_eq_iff x s,
  text_eq_iff s x,
)

lookup-schema_loop :
    (ds : List StoreDefinition) (m : List (Text × Text)) (s : Text)
    → lookup s (schema_loop ds m) ≡ elim (owner s ds) [ some n ↦ some n | none ↦ lookup s m ]
unfolding schema_loop
lookup-schema_loop [] m s = refl
lookup-schema_loop (d ∷ ds) m s = ground (
  arith,
  lookup-schema_loop ds (add_schemas d.name (schemas_of d) m) s,
  lookup-add_schemas d.name (schemas_of d) m s,
)

module _ {W : Type 0} (redis : Redis W) (mongo : Mongo W) (oracle : Oracle W) (sqlx : Sqlx W)
    (new_in_memory : Act W (Cache W)) where
  pub lookup-store_loop :
      (ds : List StoreDefinition) (m stores : List (Text × Cache W)) (w : W) (n : Text)
      → (store_loop redis mongo oracle sqlx new_in_memory ds m w).0 ≡ ok stores
      → is_some (lookup n stores) ≡ (member text_eq n (names_of ds) || is_some (lookup n m))
  unfolding store_loop
  lookup-store_loop [] m stores w n h = ground arith
  lookup-store_loop (d ∷ ds) m stores w n h =
      let next : Cache W → Act W (List (Text × Cache W)) =
        λ cache. store_loop redis mongo oracle sqlx new_in_memory ds (insert d.name cache m) in
      let (cache, made, h') =
        >>=-rest (create_store redis mongo oracle sqlx new_in_memory d.store_type) next w h in
      lookup-store_loop ds (insert d.name cache m) stores
        (create_store redis mongo oracle sqlx new_in_memory d.store_type w).1 n h'
      ∙ ground (arith, lookup-insert d.name cache m n, text_eq_iff d.name n, text_eq_iff n d.name)

owner-names_of :
    (s : Text) (ds : List StoreDefinition) {n : Text}
    → owner s ds ≡ some n
    → member text_eq n (names_of ds) ≡ true
owner-names_of s [] {n} = λ h. cc
owner-names_of s (d ∷ ds) {n} = elim (Option-cases (owner s ds)) [
  | inl e ↦ rw e (λ h. ground (arith, text_eq_iff n d.name))
  | inr (o, e) ↦ rw e (λ h. ground (arith, owner-names_of s ds {n = n} (e ∙ h)))
]

-- A schema is routed to the store of the last definition that lists it, and is not routed if none
-- does.
pub schema_loop-owner :
    (ds : List StoreDefinition) (s : Text) → lookup s (schema_loop ds []) ≡ owner s ds
schema_loop-owner ds s = elim (Option-cases (owner s ds)) [
  | inl e ↦ lookup-schema_loop ds [] s ∙ rw e (unfold lookup in refl)
  | inr (n, e) ↦ lookup-schema_loop ds [] s ∙ rw e refl
]

module _ {W : Type 0} (redis : Redis W) (mongo : Mongo W) (oracle : Oracle W) (sqlx : Sqlx W)
    (new_in_memory : Act W (Cache W)) where
  -- If the stores of the definitions could all be created, then the store that a schema is routed
  -- to is among them: the routing never names a store that is not there.
  pub store_loop-routed :
      (ds : List StoreDefinition) (stores : List (Text × Cache W)) (w : W) (s n : Text)
      → (store_loop redis mongo oracle sqlx new_in_memory ds [] w).0 ≡ ok stores
      → lookup s (schema_loop ds []) ≡ some n
      → is_some (lookup n stores) ≡ true
  store_loop-routed ds stores w s n h r =
      let named = owner-names_of s ds (sym (schema_loop-owner ds s) ∙ r) in
      lookup-store_loop redis mongo oracle sqlx new_in_memory ds [] stores w n h ∙ rw named refl

module _ {W : Type 0} (http : Http W) (avro : Avro) {eq : ℕ → ℕ → Bool}
    (cache : DashMap ℕ avro.Schema eq) where
  -- If the schemas to be loaded beforehand could all be fetched, then each of them, and each that
  -- was in the schema cache before, is in the schema cache.
  pub preload_loop-get :
      (url : Text) (ids : List ℕ) (m m' : cache.Map) (w : W) (j : ℕ)
      → (member eq j ids || is_some (cache.get m j)) ≡ true
      → (preload_loop http avro cache url ids m w).0 ≡ ok m'
      → is_some (cache.get m' j) ≡ true
  unfolding preload_loop
  preload_loop-get url [] m m' w j i h = ground arith
  preload_loop-get url (id ∷ ids) m m' w j i h =
      let next : avro.Schema → Act W cache.Map =
        λ schema. preload_loop http avro cache url ids (cache.insert m id schema).1 in
      let (schema, fetched, h') = >>=-rest (fetch_schema_by_id http avro url id) next w h in
      preload_loop-get url ids (cache.insert m id schema).1 m'
        (fetch_schema_by_id http avro url id w).1 j
        (ground
          (arith, i, cache.get-insert m id schema j, cache.eq_lem.iff id j, cache.eq_lem.iff j id))
        h'
