-- ===== src/Web/Misses.antt =====
-- webserver/mod.rs: the replies of `get_record` and `delete_record`, and the counter of the misses.
use push_cache.Base.{
  ◌+◌, ◌%◌, ◌^◌, ◌≡◌, refl, ap, ◌∙◌, Option, none, some, [], Text, Bytes, codes, text_eq_refl,
  arith,
}
use push_cache.Error.{MyError, not_found, Result, ok, err}
use push_cache.Crates.Wire.{Env}
use push_cache.Cache.Contract.{View, IsStore, Same, Written}
use push_cache.State.{Shared}
use push_cache.Web.{RouteState, Reply, bytes, delete_record, retrieve_record_logic, get_record}
use push_cache.Web.Response.{error_status}
use push_cache.Web.Records.{decoded, miss, retrieve-ok, retrieve-miss, get-answer, remove-answer}

module _ {W : Type 0} (env : Env W) (state : RouteState env) where
  open env use {metrics, avro, schemas}

  -- What a GET answers of an entry of the store.
  abbrev pub answer : schemas.Map → Option Bytes → Result MyError (Reply avro.Json)
  answer cache none = miss env state
  answer cache (some payload) = decoded env state cache payload

  -- The counter of the misses after it.
  abbrev pub misses : Option Bytes → metrics.Counter → metrics.Counter
  misses none n = metrics.count_up n
  misses (some payload) n = n

  retrieve-state :
      (k : Text) (s : Shared env) (o : Option Bytes)
      → (state.store.get k s.world).0 ≡ ok o
      → (retrieve_record_logic env state k s).1 ≡ record s {
        world = (state.store.get k s.world).1;
        requests_miss = misses o s.requests_miss;
      }
  unfolding retrieve_record_logic
  retrieve-state k s none h = ground arith
  retrieve-state k s (some payload) h = ground arith

  retrieve-answer :
      (k : Text) (s : Shared env) (o : Option Bytes)
      → (state.store.get k s.world).0 ≡ ok o
      → (retrieve_record_logic env state k s).0 ≡ answer s.schema_cache o
  retrieve-answer k s none h = ap (λ r. r.0) (retrieve-miss env state k s h)
  retrieve-answer k s (some payload) h = retrieve-ok env state k s payload h

  abbrev pub deleted : Option Bytes → Result MyError (Reply avro.Json)
  deleted none = err (not_found (codes "User not found"))
  deleted (some v) = ok (record { status = 200; headers = []; body = bytes v })

  delete-whole :
      (k : Text) (s : Shared env) (o : Option Bytes)
      → (state.store.remove k s.world).0 ≡ ok o
      → delete_record env state k s
        ≡ (deleted o, record s { world = (state.store.remove k s.world).1 })
  unfolding delete_record
  delete-whole k s none h = ground arith
  delete-whole k s (some v) h = ground arith

  module _ (view : View W) (Inv : W → Type 0) (c : IsStore state.store view Inv) where
    -- For a store that meets the contract, a GET that the store answers without an error replies
    -- with the record as decoded, or with the error of a missing record if the view has none; the
    -- counter of misses goes up exactly in the second case, and neither the store's view nor the
    -- schema cache changes.
    pub get_record_lem :
        (k : Text) (s : Shared env) {o : Option Bytes}
        → Inv s.world
        → (state.store.get k s.world).0 ≡ ok o
        → let (r, s') = get_record env state k s in
          (r ≡ answer s.schema_cache (view s.world k))
          × (s'.requests_miss ≡ misses (view s.world k) s.requests_miss)
          × Same view s.world s'.world
          × (s'.schema_cache ≡ s.schema_cache)
    unfolding get_record
    get_record_lem k s {o} i h =
        let seen : o ≡ view s.world k = get-answer env state view Inv c k s.world i h in
        let whole = retrieve-state k s o h in
        rw (← seen, whole) (retrieve-answer k s o h, refl, (c.get_lem k s.world i).0, refl)

    -- For a store that meets the contract, a DELETE that the store answers without an error replies
    -- with 200 and the bytes that the view held under the key, or with the error of a missing
    -- record if there were none, and of the view only this key changes: it is empty afterwards.
    pub delete_record_lem :
        (k : Text) (s : Shared env) {o : Option Bytes}
        → Inv s.world
        → (state.store.remove k s.world).0 ≡ ok o
        → let (r, s') = delete_record env state k s in
          (r ≡ deleted (view s.world k)) × Written view k none s.world s'.world
    delete_record_lem k s {o} i h =
        let law = remove-answer env state view Inv c k s.world i h in
        rw (delete-whole k s o h) (ap deleted law.0, law.1)

    -- For a store that meets the contract, after a DELETE that the store answered without an error,
    -- a GET of the same key that the store answers replies with the error of a missing record,
    -- whose status is 404, and the counter of misses is one higher, modulo 2^64.
    pub get-delete :
        (k : Text) (s : Shared env) {o p : Option Bytes}
        → Inv s.world
        → (state.store.remove k s.world).0 ≡ ok o
        → (state.store.get k (delete_record env state k s).1.world).0 ≡ ok p
        → let (r, s'') = get_record env state k (delete_record env state k s).1 in
          (r ≡ miss env state)
          × ((error_status (not_found (codes "User not found in dynamic cache"))).0 ≡ 404)
          × (metrics.count s''.requests_miss ≡ (metrics.count s.requests_miss + 1) % 2 ^ 64)
    unfolding error_status
    get-delete k s {o} {p} i h g =
        let t : Shared env = record s { world = (state.store.remove k s.world).1 } in
        let law = remove-answer env state view Inv c k s.world i h in
        let got : (state.store.get k t.world).0 ≡ ok p = rw (delete-whole k s o h) at g in
        let gone : view t.world k ≡ none = law.1 k ∙ ground (arith, text_eq_refl k) in
        let reply = get_record_lem k t (c.remove_Inv k s.world i) got in
        rw (delete-whole k s o h) (
          reply.0 ∙ ap (answer t.schema_cache) gone,
          refl,
          ap metrics.count (reply.1 ∙ ap (λ q. misses q t.requests_miss) gone)
              ∙ metrics.count-count_up s.requests_miss,
        )
