-- ===== src/Traffic/Answering.antt =====
-- webserver/mod.rs, `get_record`: what the task of a GET answers, by the values of its cell.
use push_cache.Base.{◌≡◌, refl, Option, none, some, List, [], ◌∷◌, ◌++◌, Text, Bytes, codes}
use mathlib.Core.Path.{subst}
use push_cache.Base.Decimal.{decimal}
use push_cache.Error.{
  MyError, Result, ok, err, map_err, avro_error, invalid_header_value, ok_or, not_found,
}
use push_cache.Crates.Wire.{Env}
use push_cache.Cache.{Cache}
use push_cache.Cache.Contract.{View, Outcome-ok}
use push_cache.State.{MyState, Shared}
use push_cache.State.Stores.{IsApart}
use push_cache.Web.{RouteState, Reply, or_miss, wire_parts, schema_of}
use push_cache.Web.Records.{and_then, decoded}
use push_cache.Web.Misses.{answer}
use push_cache.Traffic.{Coroutine, finished, call, once, ◌>>=◌}
use push_cache.Traffic.Handlers.{Answer, payload_task, retrieve_task}
use push_cache.Traffic.Steps.{Call, calls, OneCall, here, later}
use push_cache.Traffic.Cell.{Good, cell, IsQuiet, Call-IsQuiet}

module _ {W : Type 0} (env : Env W) (views : Text → View W) (Inv : W → Type 0)
    (cache : env.schemas.Map) (name k : Text) (P : Option Bytes → Type 0) where
  module _ {A : Type 0} where
    -- While the cell has values with `P`, the task leaves it alone and ends with a result with `Q`.
    abbrev pub Answers : (Result MyError A → Type 0) → Coroutine (Shared env) A → Type 0
    Answers Q (finished r) = Q r
    Answers Q (call m rest) =
        (s : Shared env)
        → Good env Inv cache s
        → P (cell env views name k s)
        → Good env Inv cache (m s).1
          × (cell env views name k (m s).1 ≡ cell env views name k s)
          × Answers Q (rest (m s).0)

    pub Answers-map :
        (Q R : Result MyError A → Type 0) (t : Coroutine (Shared env) A)
        → ((r : Result MyError A) → Q r → R r)
        → Answers Q t
        → Answers R t
    Answers-map Q R (finished r) f h = f r h
    Answers-map Q R (call m next) f h =
        λ s g p. let (g', same, h') = h s g p in (g', same, Answers-map Q R (next (m s).0) f h')

    Call-Answers :
        (Q : Result MyError A → Type 0) {t t' : Coroutine (Shared env) A} {s s' : Shared env}
        → Call t s t' s'
        → Good env Inv cache s
        → P (cell env views name k s)
        → Answers Q t
        → Good env Inv cache s'
          × (cell env views name k s' ≡ cell env views name k s)
          × Answers Q t'
    Call-Answers Q {s} (calls {k = rest} e) g p h =
        subst
          (λ r.
            Good env Inv cache r.1
            × (cell env views name k r.1 ≡ cell env views name k s)
            × Answers Q (rest r.0))
          e (h s g p)

    -- The last of several tasks answers, and the others leave the cell alone.
    abbrev pub LastAnswers : (Result MyError A → Type 0) → List (Coroutine (Shared env) A) → Type 0
    LastAnswers Q [] = ⊥
    LastAnswers Q (t ∷ []) = Answers Q t
    LastAnswers Q (t ∷ u ∷ us) = IsQuiet env views Inv cache name k t × LastAnswers Q (u ∷ us)

    pub LastAnswers-cons :
        (Q : Result MyError A → Type 0) (t : Coroutine (Shared env) A)
        (ts : List (Coroutine (Shared env) A))
        → IsQuiet env views Inv cache name k t
        → LastAnswers Q ts
        → LastAnswers Q (t ∷ ts)
    LastAnswers-cons Q t [] q h = absurd h
    LastAnswers-cons Q t (u ∷ us) q h = (q, h)

    pub LastAnswers-last :
        (Q : Result MyError A → Type 0) (ts : List (Coroutine (Shared env) A))
        (r : Result MyError A)
        → LastAnswers Q (ts ++ finished r ∷ [])
        → Q r
    LastAnswers-last Q [] r h = h
    LastAnswers-last Q (t ∷ []) r h = h.1
    LastAnswers-last Q (t ∷ u ∷ us) r h = LastAnswers-last Q (u ∷ us) r h.1

    pub OneCall-LastAnswers :
        (Q : Result MyError A → Type 0) {ts ts' : List (Coroutine (Shared env) A)}
        {s s' : Shared env}
        → OneCall ts s ts' s'
        → Good env Inv cache s
        → P (cell env views name k s)
        → LastAnswers Q ts
        → Good env Inv cache s'
          × (cell env views name k s' ≡ cell env views name k s)
          × LastAnswers Q ts'
    OneCall-LastAnswers Q (here {ts = []} c) g p h = Call-Answers Q c g p h
    OneCall-LastAnswers Q (here {ts = u ∷ us} c) g p (q, h) =
        let (g', same, q') = Call-IsQuiet env views Inv cache name k c g q in (g', same, (q', h))
    OneCall-LastAnswers Q (later {ts = []} c) g p h = elim c [ ]
    OneCall-LastAnswers Q (later {t} {ts = u ∷ us} {ts'} c) g p (q, h) =
        let (g', same, h') = OneCall-LastAnswers Q c g p h in
        (g', same, LastAnswers-cons Q t ts' q h')

  -- A chain that goes on with a result.
  Answers-finished :
      {A B : Type 0} (r : Result MyError A) (f : A → Coroutine (Shared env) B)
      (g : A → Result MyError B)
      → ((a : A) → Answers (λ x. x ≡ g a) (f a))
      → Answers (λ x. x ≡ and_then r g) (finished r >>= f)
  Answers-finished (ok a) f g h = h a
  Answers-finished (err e) f g h = refl

module _ {W : Type 0} (env : Env W) (views : Text → View W) (Inv : W → Type 0)
    (cache : env.schemas.Map) (name k : Text) (P : Option Bytes → Type 0) (state : MyState W)
    (c : Cache W) where
  open env use {avro, schemas}

  abbrev route : RouteState env
  route = record { global = state; store = c }

  abbrev Ends : (Result MyError (Reply avro.Json) → Type 0) → Answer env → Type 0
  Ends Q t = Answers env views Inv cache name k P Q t

  chain :
      {A : Type 0} (r : Result MyError A) (f : A → Answer env)
      (g : A → Result MyError (Reply avro.Json))
      → ((a : A) → Ends (λ x. x ≡ g a) (f a))
      → Ends (λ x. x ≡ and_then r g) (finished r >>= f)
  chain r f g h = Answers-finished env views Inv cache name k P r f g h

  payload_task-Ends :
      (payload : Bytes)
      → Ends (λ r. r ≡ decoded env route cache payload) (payload_task env route payload)
  unfolding schema_of
  payload_task-Ends payload =
      chain (wire_parts env (avro.get_bytes_result (some payload))) _ _ λ parts s g p. (
        g,
        refl,
        rw g.1 (
            chain
              (ok_or (not_found (codes "Schema not found in cache")) (schemas.get cache parts.0)) _
              _
              λ schema.
                chain (map_err avro_error (avro.from_avro_datum schema parts.1)) _ _ λ value.
                  chain (map_err avro_error (avro.from_value value)) _ _ λ json_value.
                    chain
                      (map_err invalid_header_value (
                        env.parse_header (codes "public, max-age=" ++ decimal state.cache_max_age)))
                      _ _ (λ age. refl)),
      )

  -- An answer by one of the values of the cell.
  abbrev ByValue : Result MyError (Reply avro.Json) → Type 0
  ByValue r = (v : Option Bytes) × P v × (r ≡ answer env route cache v)

  found-Ends :
      (v : Option Bytes) → P v → Ends ByValue (once (or_miss env v) >>= payload_task env route)
  unfolding or_miss
  found-Ends none p = λ s g q. (g, refl, (none, p, refl))
  found-Ends (some payload) p = λ s g q. (
    g,
    refl,
    Answers-map env views Inv cache name k P (λ r. r ≡ decoded env route cache payload) ByValue
        (payload_task env route payload) (λ r e. (some payload, p, e)) (payload_task-Ends payload),
  )

  -- The task of a GET answers what a GET answers of one of the values of the cell.
  pub retrieve_task-Answers :
      IsApart views Inv name c
      → ((w : W) → (o : Option Bytes) × ((c.get k w).0 ≡ ok o))
      → Ends ByValue (retrieve_task env route k)
  unfolding retrieve_task
  retrieve_task-Answers apart answers = λ s g p.
      let store = apart.named.store in
      let (same, got) = store.get_lem k s.world g.0 in
      let (o, e) = answers s.world in
      let value = Outcome-ok (λ o. o ≡ views name s.world k) (Unit {0}) e got in
      (
        (store.get_Inv k s.world g.0, g.1),
        same k,
        rw (e, value) (found-Ends (views name s.world k) p),
      )
