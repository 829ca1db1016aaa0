-- ===== src/Consumer/Registry.antt =====
-- kafka_utils.rs, `fetch_schema_by_id`, and consumer.rs: a schema registry that answers, and what is in the
-- schema cache after a schema was asked for.
use push_cache.Base.{ℕ, ◌≡◌, refl, ap, ◌∙◌, inl, inr, true, some, Text, arith, Option-cases, ==_iff}
use push_cache.Error.{ok}
use push_cache.Crates.Wire.{Env, is_success}
use push_cache.Cache.Contract.{View, Same}
use push_cache.State.{MyState, Shared}
use push_cache.Kafka.{fetch_schema_by_id, schema_url}
use push_cache.Consumer.{ensure_schema}

-- The schemas in a cache are those of a registry.
module _ {W : Type 0} (env : Env W) (registry : ℕ → env.avro.Schema) where
  abbrev pub IsOf : env.schemas.Map → Type 0
  IsOf cache =
      (id : ℕ) (schema : env.avro.Schema)
      → env.schemas.get cache id ≡ some schema
      → schema ≡ registry id

module _ {W : Type 0} (env : Env W) (state : MyState W) (views : Text → View W)
    (Inv : W → Type 0) where
  open env use {avro, schemas, http}

  -- A schema registry that answers every request for a schema with the one schema of that number, and
  -- whose calls do not touch the stores.
  pub record IsRegistry (registry : ℕ → avro.Schema) : Type 0 where
    pub reply : ℕ → http.Response
    pub body : ℕ → Text
    pub sends :
        (id : ℕ) (w : W)
        → Inv w
        → (http.send (schema_url http avro state.schema_registry_url id) w).0 ≡ ok (reply id)
    pub succeeds : (id : ℕ) → is_success (http.status (reply id)) ≡ true
    pub reads : (id : ℕ) (w : W) → Inv w → (http.json_schema (reply id) w).0 ≡ ok (body id)
    pub parses : (id : ℕ) → avro.parse_str (body id) ≡ ok (registry id)
    pub send_Inv : (url : Text) (w : W) → Inv w → Inv (http.send url w).1
    pub json_Inv : (r : http.Response) (w : W) → Inv w → Inv (http.json_schema r w).1
    pub send_frame : (url name : Text) (w : W) → Inv w → Same (views name) w (http.send url w).1
    pub json_frame :
        (r : http.Response) (name : Text) (w : W)
        → Inv w
        → Same (views name) w (http.json_schema r w).1

  module _ (registry : ℕ → avro.Schema) (law : IsRegistry registry) where
    -- The world behind a fetch.
    abbrev behind : ℕ → W → W
    behind id w =
        (http.json_schema (law.reply id)
          (http.send (schema_url http avro state.schema_registry_url id) w).1).1

    fetch-ok :
        (id : ℕ) (w : W)
        → Inv w
        → fetch_schema_by_id http avro state.schema_registry_url id w
          ≡ (ok (registry id), behind id w)
    unfolding fetch_schema_by_id
    fetch-ok id w i =
        let url = schema_url http avro state.schema_registry_url id in
        rw (law.sends id w i, law.succeeds id)
          (rw (law.reads id (http.send url w).1 (law.send_Inv url w i), law.parses id) refl)

    behind-Inv : (id : ℕ) (w : W) → Inv w → Inv (behind id w)
    behind-Inv id w i = law.json_Inv (law.reply id) _ (law.send_Inv _ w i)

    behind-Same : (id : ℕ) (name : Text) (w : W) → Inv w → Same (views name) w (behind id w)
    behind-Same id name w i k =
        law.json_frame (law.reply id) name _ (law.send_Inv _ w i) k ∙ law.send_frame _ name w i k

    insert-IsOf :
        (cache : schemas.Map) (id : ℕ)
        → IsOf env registry cache
        → IsOf env registry (schemas.insert cache id (registry id)).1
    insert-IsOf cache id c j schema h = ground (
      arith,
      schemas.get-insert cache id (registry id) j,
      c j schema,
      h,
      ==_iff id j,
      ap registry {x = id} {y = j},
    )

    -- What is so after the schema was asked for.
    pub record Ensured (id : ℕ) (s s' : Shared env) : Type 0 where
      pub inv : Inv s'.world
      pub kept : (name : Text) → Same (views name) s.world s'.world
      pub known : IsOf env registry s'.schema_cache
      pub there : schemas.get s'.schema_cache id ≡ some (registry id)

    pub ensure_schema-Ensured :
        (id : ℕ) (s : Shared env)
        → Inv s.world
        → IsOf env registry s.schema_cache
        → ((ensure_schema env state id s).0 ≡ ok tt) × Ensured id s (ensure_schema env state id s).1
    unfolding ensure_schema
    ensure_schema-Ensured id s i c = elim (Option-cases (schemas.get s.schema_cache id)) [
      | inr (schema, e) ↦
          rw (schemas.contains_lem s.schema_cache id, e)
            (
              refl,
              record {
                inv = i;
                kept = λ name k. refl;
                known = c;
                there = e ∙ ap some (c id schema e);
              },
            )
      | inl e ↦
          rw
            (
              schemas.contains_lem s.schema_cache id,
              e,
              ap (λ r. r.0) (fetch-ok id s.world i),
              ap (λ r. r.1) (fetch-ok id s.world i),
            )
            (
              refl,
              record {
                inv = behind-Inv id s.world i;
                kept = λ name. behind-Same id name s.world i;
                known = insert-IsOf s.schema_cache id c;
                there =
                    ground
                      (arith, schemas.get-insert s.schema_cache id (registry id) id, ==_iff id id);
              },
            )
    ]
