-- ===== src/Web/Mounts.antt =====
-- webserver/mod.rs, `start_app_api`: the routes that are mounted, and under which paths.
use push_cache.Base.{
  none, some, List, [], ◌∷◌, ◌++◌, Text, codes, starts_with, collapse_slashes, if◌then◌else◌,
}
use push_cache.Cache.{Cache}
use push_cache.Config.{RouteDefinition}
use push_cache.State.{MyState, lookup}

-- The path of a route, with its slash in front.
unfoldable pub normalize_path : Text → Text
normalize_path raw =
    let full_path = collapse_slashes raw in
    if starts_with (codes "/") full_path then full_path else codes "/" ++ full_path

-- A router that is nested: the records' API of a store, or the one that takes the key from the body.
pub data Mount (W : Type 0) : Type 0 where
  records : Text → Cache W → Mount W
  by_body : Text → Cache W → Text → Mount W

module _ {W : Type 0} where
  unfoldable pub mount_route : Text → RouteDefinition → Cache W → List (Mount W)
  mount_route base_path route_def store =
      records (normalize_path (base_path ++ route_def.path)) store ∷ elim route_def.key_from_body [
        | none ↦ []
        | some key_field ↦
            by_body (normalize_path (base_path ++ (route_def.path ++ codes "_by_body"))) store
              key_field
            ∷ []
      ]

  -- The loop over the routes: one whose store is not there is logged and left out.
  unfoldable pub mount_routes : MyState W → List RouteDefinition → List (Mount W)
  mount_routes state [] = []
  mount_routes state (route_def ∷ rest) =
      elim (lookup route_def.store state.stores) [
        | some store ↦ mount_route state.base_path route_def store
        | none ↦ []
      ]
      ++ mount_routes state rest
