-- ===== src/State/Ready.antt =====
-- lib.rs, `MyState::new`: what a new state can be relied on for.
use push_cache.Base.{
  ℕ, ◌≡◌, refl, ◌∙◌, inl, inr, Bool, true, false, Option, none, some, List, [], ◌∷◌, Text, is_some,
  ◌==◌, ==_iff, arith, Option-cases,
}
use mathlib.Core.Path.{subst}
use push_cache.Base.Distinct.{member}
use push_cache.Error.{MyError, Result, ok, >>=-rest}
use push_cache.Startup.Checks.{futures}
use push_cache.Startup.Passed.{Joins, joined_attempts, Answered, run_startup_checks-ok}
use push_cache.State.{lookup}
use push_cache.State.Build.{store_loop}
use push_cache.State.Kinds.{last_type, Gets, store_loop-Gets}
use push_cache.State.Routed.{owner, schema_loop-owner, store_loop-routed, preload_loop-get}
use push_cache.State.Settings.{MyConfig}
use push_cache.State.Clients.{Clients}
use push_cache.State.New.{
  AppMetrics, NewState, make_metrics, make_handle, perform, make_schema_cache, assemble, new,
}

ok_injective {ℓ} : {A : Type ℓ} {a b : A} → Path (Result MyError A) (ok a) (ok b) → a ≡ b
ok_injective h = cc

lookup-nothing {ℓ} : {V : Type ℓ} (n : Text) → Path (Option V) (lookup n []) none
unfolding lookup
lookup-nothing n = refl

module _ {W : Type 0} (clients : Clients W) where
  open clients use {env}

  -- A store that a schema is routed to is there.
  abbrev pub IsThere : NewState clients → Option Text → Type 0
  IsThere s none = Unit
  IsThere s (some n) = is_some (lookup n s.state.stores) ≡ true

  abbrev pub AllLoaded : env.schemas.Map → List ℕ → Type 0
  AllLoaded m [] = Unit
  AllLoaded m (id ∷ ids) = (is_some (env.schemas.get m id) ≡ true) × AllLoaded m ids

  abbrev pub ArePreloaded : env.schemas.Map → Option (List ℕ) → Type 0
  ArePreloaded m none = Unit
  ArePreloaded m (some ids) = AllLoaded m ids

  -- Every name has a store of the type that it is defined with, and no other name has a store;
  -- each schema is routed to the store that lists it, which is there; and the schemas to be loaded
  -- beforehand are there.
  abbrev pub IsAssembled : MyConfig → NewState clients → Type 0
  IsAssembled config s =
      ((n : Text)
        → Gets clients.redis clients.mongo clients.oracle clients.sqlx
            (clients.new_in_memory s.metrics.cache_size) (last_type n config.stores) none
            (lookup n s.state.stores))
      × ((schema : Text)
          → (lookup schema s.state.schema_to_store ≡ owner schema config.stores)
            × IsThere s (owner schema config.stores))
      × ArePreloaded s.schema_cache config.preload_schemas

  -- The servers have answered, if they had to, while the checks were joined.
  abbrev pub IsChecked : Bool → MyConfig → Type 0
  IsChecked false config = Unit
  IsChecked true config =
      let checks =
        futures env.http clients.broker clients.redis clients.pings clients.set_path config in
      (v : W) × (j : Joins clients.sleep clients.try_join_all config.startup_checks checks v)
      × Answered env.http clients.broker clients.redis clients.pings clients.set_path config
          (joined_attempts clients.sleep clients.try_join_all config.startup_checks checks v j)

  all-AllLoaded :
      (m : env.schemas.Map) (ids : List ℕ)
      → ((id : ℕ) → member ◌==◌ id ids ≡ true → is_some (env.schemas.get m id) ≡ true)
      → AllLoaded m ids
  all-AllLoaded m [] f = tt
  all-AllLoaded m (id ∷ ids) f =
      (f id (ground (arith, ==_iff id id)), all-AllLoaded m ids (λ j h. f j (ground arith)))

  make_schema_cache-ArePreloaded :
      (config : MyConfig) (m : env.schemas.Map) (w : W)
      → (make_schema_cache clients config w).0 ≡ ok m
      → ArePreloaded m config.preload_schemas
  unfolding make_schema_cache
  make_schema_cache-ArePreloaded config m w = elim (Option-cases config.preload_schemas) [
    | inl e ↦ rw (e, make_schema_cache) (λ h. tt)
    | inr (listed, e) ↦
        rw (e, make_schema_cache)
          (λ h. all-AllLoaded m listed (λ id i.
            preload_loop-get env.http env.avro env.schemas config.schema_registry_url listed
              env.schemas.new m w id (ground (arith, i)) h))
  ]

  assemble-IsAssembled :
      (config : MyConfig) (metrics : AppMetrics clients)
      (handle : clients.prometheus.PrometheusHandle) (s : NewState clients) (w : W)
      → (assemble clients config metrics handle w).0 ≡ ok s
      → IsAssembled config s
  unfolding assemble
  assemble-IsAssembled config metrics handle s w h =
      let make =
        store_loop clients.redis clients.mongo clients.oracle clients.sqlx
          (clients.new_in_memory metrics.cache_size) config.stores [] in
      let (stores, made, h') = >>=-rest make _ w h in
      let w' = (make w).1 in
      let (m, loaded, h'') = >>=-rest (make_schema_cache clients config) _ w' h' in
      let is_s = ok_injective h'' in
      let to_owner = schema_loop-owner config.stores in
      subst (IsAssembled config) is_s (
        λ n.
            subst
              (λ o.
                Gets clients.redis clients.mongo clients.oracle clients.sqlx
                  (clients.new_in_memory metrics.cache_size) (last_type n config.stores) o
                  (lookup n stores))
              (lookup-nothing n)
              (store_loop-Gets clients.redis clients.mongo clients.oracle clients.sqlx _
                config.stores [] stores w n made),
        λ schema. (
          to_owner schema,
          elim (Option-cases (owner schema config.stores)) [
            | inl none_there ↦ rw none_there tt
            | inr (n, to_n) ↦ rw to_n (
                store_loop-routed clients.redis clients.mongo clients.oracle clients.sqlx _
                  config.stores stores w schema n made (to_owner schema ∙ to_n))
          ],
        ),
        make_schema_cache-ArePreloaded config m w' loaded,
      )

  perform-IsChecked :
      (perform_checks : Bool) (config : MyConfig) (w : W)
      → Joins clients.sleep clients.try_join_all config.startup_checks
          (futures env.http clients.broker clients.redis clients.pings clients.set_path config)
          w
      → (perform clients perform_checks config w).0 ≡ ok tt
      → IsChecked perform_checks config
  unfolding perform
  perform-IsChecked false config w j h = tt
  perform-IsChecked true config w j h = (
    w,
    j,
    run_startup_checks-ok env.http clients.broker clients.redis clients.pings clients.set_path
        clients.sleep clients.try_join_all config w j h,
  )

  -- If the futures of the startup checks are joined by polling them in some order until one has
  -- failed or all have passed, and a new state can be made, then every name that the configuration
  -- defines has a store of the type of its last definition, made from its configuration, and no
  -- other name has a store; each schema is routed to the store of the last definition that lists
  -- it, which is there, or not at all if none does; every schema to be loaded beforehand is in the
  -- schema cache; and if the checks are enabled, the servers have given the answers that the
  -- startup checks ask for.
  pub new-ready :
      (config : MyConfig) (s : NewState clients) (w : W)
      → ((v : W)
          → Joins clients.sleep clients.try_join_all config.startup_checks
              (futures env.http clients.broker clients.redis clients.pings clients.set_path config)
              v)
      → (new clients config w).0 ≡ ok s
      → IsAssembled config s × IsChecked config.startup_checks.enabled config
  unfolding new
  new-ready config s w j h =
      let enabled = config.startup_checks.enabled in
      let (metrics, made, h1) = >>=-rest (make_metrics clients) _ w h in
      let w1 = (make_metrics clients w).1 in
      let (handle, built, h2) = >>=-rest (make_handle clients enabled) _ w1 h1 in
      let w2 = (make_handle clients enabled w1).1 in
      let (u, checked, h3) = >>=-rest (perform clients enabled config) _ w2 h2 in
      (
        assemble-IsAssembled config metrics handle s _ h3,
        perform-IsChecked enabled config w2 (j w2) checked,
      )
