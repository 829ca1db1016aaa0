-- ===== src/Traffic/Cell.antt =====
-- Tasks and what one store shows under one key, its cell, while other tasks leave the cell alone.
use push_cache.Base.{◌≡◌, refl, sym, Option, List, [], ◌∷◌, Text, Bytes}
use mathlib.Core.Path.{subst}
use push_cache.Error.{MyError, Result, ok, err, Act}
use push_cache.Crates.Wire.{Env}
use push_cache.Cache.Contract.{View}
use push_cache.State.{Shared}
use push_cache.Traffic.{Coroutine, finished, call, once, ◌>>=◌}
use push_cache.Traffic.Steps.{Call, calls, OneCall, here, later}

module _ {W : Type 0} (env : Env W) (Inv : W → Type 0) (cache : env.schemas.Map) where
  abbrev pub Good : Shared env → Type 0
  Good s = Inv s.world × (s.schema_cache ≡ cache)

module _ {W : Type 0} (env : Env W) (views : Text → View W) (name k : Text) where
  abbrev pub cell : Shared env → Option Bytes
  cell s = views name s.world k

module _ {W : Type 0} (env : Env W) (views : Text → View W) (Inv : W → Type 0)
    (cache : env.schemas.Map) (name k : Text) where
  module _ {A : Type 0} where
    -- The task, begun when the cell is `x`, ends with the cell `y`, or with an error, as long as no
    -- other task changes the cell.
    abbrev pub Leads : Coroutine (Shared env) A → Option Bytes → Option Bytes → Type 0
    Leads (finished (ok a)) x y = x ≡ y
    Leads (finished (err e)) x y = Unit
    Leads (call m rest) x y =
        (s : Shared env)
        → Good env Inv cache s
        → cell env views name k s ≡ x
        → Good env Inv cache (m s).1 × Leads (rest (m s).0) (cell env views name k (m s).1) y

    -- The task changes neither the cell nor what is good.
    abbrev pub IsQuiet : Coroutine (Shared env) A → Type 0
    IsQuiet (finished r) = Unit
    IsQuiet (call m rest) =
        (s : Shared env)
        → Good env Inv cache s
        → Good env Inv cache (m s).1
          × (cell env views name k (m s).1 ≡ cell env views name k s)
          × IsQuiet (rest (m s).0)

    abbrev pub AllQuiet : List (Coroutine (Shared env) A) → Type 0
    AllQuiet [] = Unit
    AllQuiet (t ∷ ts) = IsQuiet t × AllQuiet ts

    Leads-finished :
        (r : Result MyError A) (x y : Option Bytes)
        → ((a : A) → r ≡ ok a → x ≡ y)
        → Leads (finished r) x y
    Leads-finished (ok a) x y h = h a refl
    Leads-finished (err e) x y h = tt

    pub Leads-once :
        (m : Act (Shared env) A) (x y : Option Bytes)
        → ((s : Shared env)
            → Good env Inv cache s
            → cell env views name k s ≡ x
            → Good env Inv cache (m s).1)
        → ((s : Shared env)
            → Good env Inv cache s
            → cell env views name k s ≡ x
            → (a : A) → (m s).0 ≡ ok a
            → cell env views name k (m s).1 ≡ y)
        → Leads (once m) x y
    Leads-once m x y good end s g e =
        (good s g e, Leads-finished (m s).0 (cell env views name k (m s).1) y (end s g e))

    pub Call-Leads :
        {t t' : Coroutine (Shared env) A} {s s' : Shared env} (y : Option Bytes)
        → Call t s t' s'
        → Good env Inv cache s
        → Leads t (cell env views name k s) y
        → Good env Inv cache s' × Leads t' (cell env views name k s') y
    Call-Leads {s} y (calls {k = rest} e) g h =
        subst (λ r. Good env Inv cache r.1 × Leads (rest r.0) (cell env views name k r.1) y) e
          (h s g refl)

    pub Call-IsQuiet :
        {t t' : Coroutine (Shared env) A} {s s' : Shared env}
        → Call t s t' s'
        → Good env Inv cache s
        → IsQuiet t
        → Good env Inv cache s' × (cell env views name k s' ≡ cell env views name k s) × IsQuiet t'
    Call-IsQuiet {s} (calls {k = rest} e) g h =
        subst
          (λ r.
            Good env Inv cache r.1
            × (cell env views name k r.1 ≡ cell env views name k s)
            × IsQuiet (rest r.0))
          e (h s g)

    pub OneCall-AllQuiet :
        {ts ts' : List (Coroutine (Shared env) A)} {s s' : Shared env}
        → OneCall ts s ts' s'
        → Good env Inv cache s
        → AllQuiet ts
        → Good env Inv cache s'
          × (cell env views name k s' ≡ cell env views name k s)
          × AllQuiet ts'
    OneCall-AllQuiet (here c) g (q, qs) =
        let (g', same, q') = Call-IsQuiet c g q in (g', same, (q', qs))
    OneCall-AllQuiet (later c) g (q, qs) =
        let (g', same, qs') = OneCall-AllQuiet c g qs in (g', same, (q, qs'))

  module _ {A B : Type 0} where
    pub Leads-bind :
        (t : Coroutine (Shared env) A) (f : A → Coroutine (Shared env) B) (x z y : Option Bytes)
        → Leads t x z
        → ((a : A) → Leads (f a) z y)
        → Leads (t >>= f) x y
    Leads-bind (finished (ok a)) f x z y h rest = subst (λ x. Leads (f a) x y) (sym h) (rest a)
    Leads-bind (finished (err e)) f x z y h rest = tt
    Leads-bind (call m next) f x z y h rest = λ s g e.
        let (g', l) = h s g e in
        (g', Leads-bind (next (m s).0) f (cell env views name k (m s).1) z y l rest)

    pub IsQuiet-bind :
        (t : Coroutine (Shared env) A) (f : A → Coroutine (Shared env) B)
        → IsQuiet t
        → ((a : A) → IsQuiet (f a))
        → IsQuiet (t >>= f)
    IsQuiet-bind (finished (ok a)) f h rest = rest a
    IsQuiet-bind (finished (err e)) f h rest = tt
    IsQuiet-bind (call m next) f h rest =
        λ s g. let (g', same, q) = h s g in (g', same, IsQuiet-bind (next (m s).0) f q rest)
