-- ===== src/Traffic/Between.antt =====
-- Tasks and the values that a cell goes through on the way.
use push_cache.Base.{◌≡◌, refl, sym, Option, Text, Bytes}
use mathlib.Core.Path.{subst}
use push_cache.Error.{ok, err, Act}
use push_cache.Crates.Wire.{Env}
use push_cache.Cache.Contract.{View}
use push_cache.State.{Shared}
use push_cache.Traffic.{Coroutine, finished, call, once, ◌>>=◌}
use push_cache.Traffic.Steps.{Call, calls}
use push_cache.Traffic.Cell.{Good, cell, Leads}

module _ {W : Type 0} (env : Env W) (views : Text → View W) (Inv : W → Type 0)
    (cache : env.schemas.Map) (name k : Text) (P : Option Bytes → Type 0) where
  module _ {A : Type 0} where
    -- No call of the task takes the cell from a value with `P` to one without.
    abbrev pub Keeps : Coroutine (Shared env) A → Type 0
    Keeps (finished r) = Unit
    Keeps (call m rest) =
        (s : Shared env)
        → Good env Inv cache s
        → P (cell env views name k s)
        → Good env Inv cache (m s).1 × P (cell env views name k (m s).1) × Keeps (rest (m s).0)

    -- From the value `x` on, as long as no other task changes the cell, all values have `P`.
    abbrev pub Stays : Coroutine (Shared env) A → Option Bytes → Type 0
    Stays (finished r) x = P x
    Stays (call m rest) x =
        P x
        × ((s : Shared env)
            → Good env Inv cache s
            → cell env views name k s ≡ x
            → Good env Inv cache (m s).1 × Stays (rest (m s).0) (cell env views name k (m s).1))

    pub Keeps-once :
        (m : Act (Shared env) A)
        → ((s : Shared env)
            → Good env Inv cache s
            → P (cell env views name k s)
            → Good env Inv cache (m s).1 × P (cell env views name k (m s).1))
        → Keeps (once m)
    Keeps-once m h s g p = let (g', p') = h s g p in (g', p', tt)

    pub Stays-here : (t : Coroutine (Shared env) A) (x : Option Bytes) → Stays t x → P x
    Stays-here (finished r) x h = h
    Stays-here (call m rest) x h = h.0

    pub Call-Stays :
        {t t' : Coroutine (Shared env) A} {s s' : Shared env}
        → Call t s t' s'
        → Good env Inv cache s
        → Stays t (cell env views name k s)
        → Good env Inv cache s' × Stays t' (cell env views name k s')
    Call-Stays {s} (calls {k = rest} e) g h =
        subst (λ r. Good env Inv cache r.1 × Stays (rest r.0) (cell env views name k r.1)) e
          (h.1 s g refl)

  module _ {A B : Type 0} where
    pub Keeps-bind :
        (t : Coroutine (Shared env) A) (f : A → Coroutine (Shared env) B)
        → Keeps t
        → ((a : A) → Keeps (f a))
        → Keeps (t >>= f)
    Keeps-bind (finished (ok a)) f h rest = rest a
    Keeps-bind (finished (err e)) f h rest = tt
    Keeps-bind (call m next) f h rest =
        λ s g p. let (g', p', h') = h s g p in (g', p', Keeps-bind (next (m s).0) f h' rest)

    -- A task that leads the cell to `z`, and then another one.
    pub Stays-bind :
        (t : Coroutine (Shared env) A) (f : A → Coroutine (Shared env) B) (x z : Option Bytes)
        → Stays t x
        → Leads env views Inv cache name k t x z
        → ((a : A) → Stays (f a) z)
        → Stays (t >>= f) x
    Stays-bind (finished (ok a)) f x z h l rest = subst (Stays (f a)) (sym l) (rest a)
    Stays-bind (finished (err e)) f x z h l rest = h
    Stays-bind (call m next) f x z h l rest = (
      h.0,
      λ s g e.
          let (g', h') = h.1 s g e in
          let (g'', l') = l s g e in
          (g', Stays-bind (next (m s).0) f (cell env views name k (m s).1) z h' l' rest),
    )

module _ {W : Type 0} (env : Env W) (views : Text → View W) (Inv : W → Type 0)
    (cache : env.schemas.Map) (name k : Text) {A : Type 0} where
  pub Keeps-Stays :
      (P Q : Option Bytes → Type 0) (t : Coroutine (Shared env) A) (x : Option Bytes)
      → ((v : Option Bytes) → P v → Q v)
      → Keeps env views Inv cache name k P t
      → P x
      → Stays env views Inv cache name k Q t x
  Keeps-Stays P Q (finished r) x f h p = f x p
  Keeps-Stays P Q (call m next) x f h p = (
    f x p,
    λ s g e.
        let (g', p', h') = h s g (subst P (sym e) p) in
        (g', Keeps-Stays P Q (next (m s).0) (cell env views name k (m s).1) f h' p'),
  )
