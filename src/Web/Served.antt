-- ===== src/Web/Served.antt =====
-- webserver/mod.rs, `start_app_api`: the paths and the stores of what is mounted.
use push_cache.Base.{
  ◌≡◌, refl, inl, inr, true, some, List, [], ◌∷◌, ◌++◌, Text, codes, starts_with,
  strip_prefix-append, collapse_slashes, arith, Bool-cases, Option-cases,
}
use push_cache.Cache.{Cache}
use push_cache.Config.{RouteDefinition}
use push_cache.State.{MyState, lookup}
use push_cache.Web.Mounts.{normalize_path, Mount, records, by_body, mount_route, mount_routes}

normalize_path-rooted : (raw : Text) → starts_with (codes "/") (normalize_path raw) ≡ true
unfolding normalize_path
normalize_path-rooted raw = elim (Bool-cases (starts_with (codes "/") (collapse_slashes raw))) [
  | inl e ↦ rw (e, e) refl
  | inr e ↦
      rw e (
        unfold starts_with in
        ground (arith, strip_prefix-append (codes "/") (collapse_slashes raw)))
]

module _ {W : Type 0} where
  abbrev pub path_of : Mount W → Text
  path_of (records path store) = path
  path_of (by_body path store field) = path

  abbrev pub store_of : Mount W → Cache W
  store_of (records path store) = store
  store_of (by_body path store field) = store

  abbrev pub IsServed : MyState W → Mount W → Type 0
  IsServed state m =
      (starts_with (codes "/") (path_of m) ≡ true)
      × ((name : Text) × (lookup name state.stores ≡ some (store_of m)))

  abbrev pub AllServed : MyState W → List (Mount W) → Type 0
  AllServed state [] = Unit
  AllServed state (m ∷ ms) = IsServed state m × AllServed state ms

  AllServed-append :
      (state : MyState W) (ms ns : List (Mount W))
      → AllServed state ms
      → AllServed state ns
      → AllServed state (ms ++ ns)
  AllServed-append state [] ns a b = b
  AllServed-append state (m ∷ ms) ns a b = (a.0, AllServed-append state ms ns a.1 b)

  mount_route-AllServed :
      (state : MyState W) (r : RouteDefinition) (store : Cache W)
      → lookup r.store state.stores ≡ some store
      → AllServed state (mount_route state.base_path r store)
  unfolding mount_route
  mount_route-AllServed state r store h = elim (Option-cases r.key_from_body) [
    | inl e ↦ rw e ((normalize_path-rooted _, (r.store, h)), tt)
    | inr (field, e) ↦
        rw e
          ((normalize_path-rooted _, (r.store, h)), ((normalize_path-rooted _, (r.store, h)), tt))
  ]

  -- Every router that is mounted for a list of routes has a path that begins with a slash, and a
  -- store that the state has under some name.
  pub mount_routes-AllServed :
      (state : MyState W) (routes : List RouteDefinition)
      → AllServed state (mount_routes state routes)
  unfolding mount_routes
  mount_routes-AllServed state [] = tt
  mount_routes-AllServed state (r ∷ rest) = elim (Option-cases (lookup r.store state.stores)) [
    | inl e ↦ rw (e, mount_routes) (mount_routes-AllServed state rest)
    | inr (store, e) ↦
        rw (e, mount_routes)
          (AllServed-append state _ _ (mount_route-AllServed state r store e)
            (mount_routes-AllServed state rest))
  ]
