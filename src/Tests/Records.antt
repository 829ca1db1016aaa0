-- ===== src/Tests/Records.antt =====
-- The handlers on one of the in-memory stores.
use push_cache.Base.{
  ◌+◌, ◌%◌, ◌^◌, ◌≡◌, ◌≤◌, refl, ◌&&◌, ◌⊎◌, none, some, List, [], ◌∷◌, Text, Bytes, codes, text_eq,
  arith, is_some, length, retain, contains,
}
use push_cache.Base.Order.{IsSorted, sort}
use push_cache.Base.Distinct.{member}
use push_cache.Error.{MyError, message, not_found, ok, err}
use push_cache.Crates.Models.{plain_metrics, text_map}
use push_cache.Cache.Contract.{View, IsStore, Same, Written}
use push_cache.Cache.Memory.Laws.{
  contents, in_memory_cache-IsStore, insert-ok, remove-ok, get-ok, keys-ok,
}
use push_cache.Web.{
  ListUsersParams, usize_max, filtered, texts, id, create_record, delete_record, list_records,
  get_record, get_record_by_body,
}
use push_cache.Web.ByBody.{Names, NamesNone, by_body_lem}
use push_cache.Config.{RouteDefinition}
use push_cache.Web.Mounts.{mount_routes}
use push_cache.Web.Served.{AllServed}
use push_cache.Web.Mounted.{AllMounted, mount_routes-mounted}
use push_cache.Web.Response.{error_status}
use push_cache.Web.Records.{decoded, miss, get-create, create-refused}
use push_cache.Web.Misses.{answer, misses, deleted, get-delete, get_record_lem, delete_record_lem}
use push_cache.Web.Listing.{passes, list_records_lem}
use push_cache.Tests.Fixtures.{state, users, World, env, store, start, full, ada, body, route}

abbrev shows : View World
shows = contents (text_map Bytes) plain_metrics 0

abbrev law : IsStore (store 0) shows (λ w. Unit)
law = in_memory_cache-IsStore (text_map Bytes) plain_metrics 0

create-refused_example :
    ((create_record env route ada (1 ∷ []) start).1 ≡ start)
    × ((msg : Text) × ((create_record env route ada (1 ∷ []) start).0 ≡ err (message msg))
        × (error_status (message msg) ≡ (500, msg)))
create-refused_example = create-refused env route ada (1 ∷ []) start (λ f. omega (arith, f.0))

get-create_example :
    let s' = (create_record env route ada body start).1 in
    ((create_record env route ada body start).0
      ≡ ok (record { status = 201; headers = []; body = id ada }))
    × ((get_record env route ada s').0 ≡ decoded env route start.schema_cache body)
    × Written shows ada (some body) start.world s'.world
get-create_example =
    get-create env route shows (λ w. Unit) law ada body start tt (omega arith, refl)
      (insert-ok (text_map Bytes) plain_metrics 0 start.world ada body)
      (get-ok (text_map Bytes) plain_metrics 0 _ ada)

get_record_lem_example :
    let (r, s') = get_record env route ada full in
    (r ≡ answer env route full.schema_cache (shows full.world ada))
    × (s'.requests_miss ≡ misses env route (shows full.world ada) full.requests_miss)
    × Same shows full.world s'.world
    × (s'.schema_cache ≡ full.schema_cache)
get_record_lem_example =
    get_record_lem env route shows (λ w. Unit) law ada full tt
      (get-ok (text_map Bytes) plain_metrics 0 full.world ada)

delete_record_lem_example :
    let (r, s') = delete_record env route ada full in
    (r ≡ deleted env route (shows full.world ada)) × Written shows ada none full.world s'.world
delete_record_lem_example =
    delete_record_lem env route shows (λ w. Unit) law ada full tt
      (remove-ok (text_map Bytes) plain_metrics 0 full.world ada)

get-delete_example :
    let (r, s'') = get_record env route ada (delete_record env route ada full).1 in
    (r ≡ miss env route)
    × ((error_status (not_found (codes "User not found in dynamic cache"))).0 ≡ 404)
    × (plain_metrics.count s''.requests_miss
        ≡ (plain_metrics.count full.requests_miss + 1) % 2 ^ 64)
get-delete_example =
    get-delete env route shows (λ w. Unit) law ada full tt
      (remove-ok (text_map Bytes) plain_metrics 0 full.world ada)
      (get-ok (text_map Bytes) plain_metrics 0 _ ada)

abbrev every : ListUsersParams
every = record { limit = none; offset = none; filter = some (codes "a") }

few :
    length (sort (filtered (some (codes "a")) ((text_map Bytes).keys (full.world.maps 0))))
    ≤ usize_max
unfolding filtered sort retain contains
few = omega arith

list_records_lem_example :
    let (r, s') = list_records env route every full in
    Same shows full.world s'.world
    × ((listed : List Text) × (r ≡ ok (record { status = 200; headers = []; body = texts listed }))
        × IsSorted listed
        × ((k : Text)
            → member text_eq k listed
              ≡ (is_some (shows full.world k) && passes (some (codes "a")) k)))
list_records_lem_example =
    list_records_lem env route shows (λ w. Unit) law (some (codes "a")) full tt
      (keys-ok (text_map Bytes) plain_metrics 0 full.world) few

-- A route with its route by body, and one to a store that is not there.
abbrev table_of_routes : List RouteDefinition
table_of_routes =
    record { path = codes "users"; store = users; key_from_body = some (codes "id") }
    ∷ record { path = codes "//lost"; store = codes "lost"; key_from_body = none }
    ∷ []

mount_routes-mounted_example :
    AllServed state (mount_routes state table_of_routes)
    × AllMounted state (mount_routes state table_of_routes) table_of_routes
mount_routes-mounted_example = mount_routes-mounted state table_of_routes

by_body_lem_example :
    let r = get_record_by_body env route (codes "id") ada full in
    ((key : Text) × Names env route (codes "id") ada key × (r ≡ get_record env route key full))
    ⊎ (NamesNone env route (codes "id") ada
        × ((e : MyError) × (r ≡ (err e, full)) × ((error_status e).0 ≡ 400)))
by_body_lem_example = by_body_lem env route (codes "id") ada full
