-- ===== src/Web/ByBody.antt =====
-- webserver/mod.rs, `get_record_by_body`: the key that a JSON body names.
use push_cache.Base.{◌≡◌, refl, ◌⊎◌, inl, inr, none, some, Text, codes, ◌++◌, Option-cases}
use push_cache.Error.{MyError, bad_request, err}
use push_cache.Crates.Wire.{Env, JsonKind, string, number, other}
use push_cache.State.{Shared}
use push_cache.Web.{RouteState, body_key, get_record, get_record_by_body}
use push_cache.Web.Response.{error_status}

JsonKind-cases : (j : JsonKind) → ((t : Text) × ((j ≡ string t) ⊎ (j ≡ number t))) ⊎ (j ≡ other)
JsonKind-cases (string t) = inl (t, inl refl)
JsonKind-cases (number t) = inl (t, inr refl)
JsonKind-cases other = inr refl

module _ {W : Type 0} (env : Env W) (state : RouteState env) where
  open env use {avro}

  -- The field of the body is this text, or a number that prints as it.
  abbrev pub Names : Text → avro.Json → Text → Type 0
  Names key_field body key =
      (value : avro.Json) × (avro.json_get body key_field ≡ some value)
      × ((avro.json_kind value ≡ string key) ⊎ (avro.json_kind value ≡ number key))

  -- There is no such field, or it is something else.
  abbrev pub NamesNone : Text → avro.Json → Type 0
  NamesNone key_field body =
      (avro.json_get body key_field ≡ none)
      ⊎ ((value : avro.Json) × (avro.json_get body key_field ≡ some value)
          × (avro.json_kind value ≡ other))

  -- A GET by a JSON body does what a GET does of the key that the field of the body names, as a
  -- text or as a number; if the field is missing or something else, it changes nothing and fails
  -- with an error whose status is 400.
  pub by_body_lem :
      (key_field : Text) (body : avro.Json) (s : Shared env)
      → let r = get_record_by_body env state key_field body s in
        ((key : Text) × Names key_field body key × (r ≡ get_record env state key s))
        ⊎ (NamesNone key_field body
            × ((e : MyError) × (r ≡ (err e, s)) × ((error_status e).0 ≡ 400)))
  unfolding get_record_by_body get_record body_key error_status
  by_body_lem key_field body s = elim (Option-cases (avro.json_get body key_field)) [
    | inl e ↦ inr (
      inl e,
      (
        bad_request (codes "Missing key '" ++ (key_field ++ codes "' in body")),
        rw (get_record_by_body, body_key, e) refl,
        refl,
      ),
    )
    | inr (value, e) ↦ elim (JsonKind-cases (avro.json_kind value)) [
      | inr o ↦ inr (
        inr (value, e, o),
        (
          bad_request (codes "Key '" ++ (key_field ++ codes "' must be a string or number")),
          rw (get_record_by_body, body_key, e, o) refl,
          refl,
        ),
      )
      | inl (key, inl o) ↦
          inl (key, (value, e, inl o), rw (get_record_by_body, body_key, e, o) refl)
      | inl (key, inr o) ↦
          inl (key, (value, e, inr o), rw (get_record_by_body, body_key, e, o) refl)
    ]
  ]
