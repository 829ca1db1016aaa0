-- ===== src/Web/Mounted.antt =====
-- webserver/mod.rs, `start_app_api`: that each route is mounted.
use push_cache.Base.{inl, inr, Option, none, some, List, [], ◌∷◌, ◌++◌, Text, codes, Option-cases}
use mathlib.Core.List.{Mem, mem-append_right, mem-cons_self, mem-cons_of_mem}
use push_cache.Cache.{Cache}
use push_cache.Config.{RouteDefinition}
use push_cache.State.{MyState, lookup}
use push_cache.Web.Mounts.{normalize_path, Mount, records, by_body, mount_route, mount_routes}
use push_cache.Web.Served.{AllServed, mount_routes-AllServed}

module _ {W : Type 0} where
  -- The router that takes the key from the body is mounted, if the route asks for it.
  abbrev pub HasByBody : Text → RouteDefinition → Cache W → List (Mount W) → Option Text → Type 0
  HasByBody base_path r store ms none = Unit
  HasByBody base_path r store ms (some field) =
      Mem (by_body (normalize_path (base_path ++ (r.path ++ codes "_by_body"))) store field) ms

  -- The store of the route is there, and its routers are mounted; or it is not there.
  abbrev pub IsMounted : Text → RouteDefinition → List (Mount W) → Option (Cache W) → Type 0
  IsMounted base_path r ms none = Unit
  IsMounted base_path r ms (some store) =
      Mem (records (normalize_path (base_path ++ r.path)) store) ms
      × HasByBody base_path r store ms r.key_from_body

  abbrev pub AllMounted : MyState W → List (Mount W) → List RouteDefinition → Type 0
  AllMounted state ms [] = Unit
  AllMounted state ms (r ∷ rest) =
      IsMounted state.base_path r ms (lookup r.store state.stores) × AllMounted state ms rest

  HasByBody-append_right :
      (base_path : Text) (r : RouteDefinition) (store : Cache W) (ms ns : List (Mount W))
      (o : Option Text)
      → HasByBody base_path r store ns o
      → HasByBody base_path r store (ms ++ ns) o
  HasByBody-append_right base_path r store ms ns none h = tt
  HasByBody-append_right base_path r store ms ns (some field) h = mem-append_right ms h

  IsMounted-append_right :
      (base_path : Text) (r : RouteDefinition) (ms ns : List (Mount W)) (o : Option (Cache W))
      → IsMounted base_path r ns o
      → IsMounted base_path r (ms ++ ns) o
  IsMounted-append_right base_path r ms ns none h = tt
  IsMounted-append_right base_path r ms ns (some store) h =
      (mem-append_right ms h.0, HasByBody-append_right base_path r store ms ns r.key_from_body h.1)

  AllMounted-append_right :
      (state : MyState W) (ms ns : List (Mount W)) (rs : List RouteDefinition)
      → AllMounted state ns rs
      → AllMounted state (ms ++ ns) rs
  AllMounted-append_right state ms ns [] h = tt
  AllMounted-append_right state ms ns (r ∷ rs) h = (
    IsMounted-append_right state.base_path r ms ns (lookup r.store state.stores) h.0,
    AllMounted-append_right state ms ns rs h.1,
  )

  mount_route-IsMounted :
      (base_path : Text) (r : RouteDefinition) (store : Cache W) (ns : List (Mount W))
      → IsMounted base_path r (mount_route base_path r store ++ ns) (some store)
  unfolding mount_route
  mount_route-IsMounted base_path r store ns = elim (Option-cases r.key_from_body) [
    | inl e ↦ rw (e, mount_route) (mem-cons_self, tt)
    | inr (field, e) ↦ rw (e, mount_route) (mem-cons_self, mem-cons_of_mem _ mem-cons_self)
  ]

  -- What the body of the loop mounts.
  abbrev front : Text → RouteDefinition → Option (Cache W) → List (Mount W)
  front base_path r o = elim o [ some store ↦ mount_route base_path r store | none ↦ [] ]

  front-IsMounted :
      (base_path : Text) (r : RouteDefinition) (o : Option (Cache W)) (ns : List (Mount W))
      → IsMounted base_path r (front base_path r o ++ ns) o
  front-IsMounted base_path r none ns = tt
  front-IsMounted base_path r (some store) ns = mount_route-IsMounted base_path r store ns

  routes-AllMounted :
      (state : MyState W) (routes : List RouteDefinition)
      → AllMounted state (mount_routes state routes) routes
  unfolding mount_routes
  routes-AllMounted state [] = tt
  routes-AllMounted state (r ∷ rest) =
      let here = lookup r.store state.stores in
      let behind = mount_routes state rest in
      (
        front-IsMounted state.base_path r here behind,
        AllMounted-append_right state (front state.base_path r here) behind rest
            (routes-AllMounted state rest),
      )

  -- Every router that is mounted for a list of routes has a path that begins with a slash, and a
  -- store that the state has under some name; and for every route whose store the state has, the
  -- records' router is mounted with that store under the normalised base path and path, and, if the
  -- route names a key in the body, the router by body as well.
  pub mount_routes-mounted :
      (state : MyState W) (routes : List RouteDefinition)
      → AllServed state (mount_routes state routes)
        × AllMounted state (mount_routes state routes) routes
  mount_routes-mounted state routes =
      (mount_routes-AllServed state routes, routes-AllMounted state routes)
