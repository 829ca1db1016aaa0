-- ===== src/Consumer/Replay.antt =====
-- consumer.rs, `start_consumer`: the stream as a whole.
use push_cache.Base.{◌≡◌, refl, sym, ap, ◌∙◌, true, List, [], ◌∷◌, Text, text_eq, arith}
use mathlib.Core.Path.{subst}
use push_cache.Base.Distinct.{member}
use push_cache.Error.{Result, ok, err, >>=-ok}
use push_cache.Crates.Wire.{Env}
use push_cache.Cache.Contract.{View}
use push_cache.State.{MyState, Shared}
use push_cache.State.Stores.{AllNamed, names}
use push_cache.Consumer.{Message, process, consume}
use push_cache.Consumer.Effect.{Shows, IsCached, effect}
use push_cache.Consumer.Routing.{shown, process-Leaves}

module _ {W : Type 0} (env : Env W) (state : MyState W) where
  open env use {schemas}

  -- The effects of the messages, one after another.
  abbrev pub replayed : schemas.Map → List (Result Text Message) → Shows → Shows
  replayed cache [] before = before
  replayed cache (ok m ∷ stream) before = replayed cache stream (effect env state cache m before)
  replayed cache (err e ∷ stream) before = before

  abbrev pub AllCached : schemas.Map → List (Result Text Message) → Type 0
  AllCached cache [] = Unit
  AllCached cache (ok m ∷ stream) = IsCached env state cache m × AllCached cache stream
  AllCached cache (err e ∷ stream) = Unit

  -- Two states of the stores that agree on the stores that are configured.
  abbrev pub Agree : Shows → Shows → Type 0
  Agree f g =
      (name k : Text) → member text_eq name (names state.stores) ≡ true → f name k ≡ g name k

  effect-Agree :
      (cache : schemas.Map) (m : Message) (f g : Shows)
      → Agree f g
      → Agree (effect env state cache m f) (effect env state cache m g)
  effect-Agree cache m f g h name k e = ground (arith, h name k e)

  pub replayed-Agree :
      (cache : schemas.Map) (stream : List (Result Text Message)) (f g : Shows)
      → Agree f g
      → Agree (replayed cache stream f) (replayed cache stream g)
  replayed-Agree cache [] f g h = h
  replayed-Agree cache (ok m ∷ stream) f g h =
      replayed-Agree cache stream _ _ (effect-Agree cache m f g h)
  replayed-Agree cache (err e ∷ stream) f g h = h

module _ {W : Type 0} (env : Env W) (state : MyState W) (views : Text → View W)
    (Inv : W → Type 0) where
  -- If every store of the state meets the contract of a store and leaves the views of the others
  -- alone, the schemas that the messages name are in the schema cache, and the consumer takes the
  -- stream to its end without an error, then every store, looked up by its name, shows what the
  -- effects of the messages, applied one after another to what the stores showed before, leave: a
  -- tombstone empties its key in every store, a payload in the wire format is put whole under its
  -- key in the store that its schema is routed to, and any other message has no effect.
  pub consume-replayed :
      (stream : List (Result Text Message)) (s : Shared env)
      → AllNamed views Inv state.stores
      → Inv s.world
      → AllCached env state s.schema_cache stream
      → (consume env state stream s).0 ≡ ok tt
      → Agree env state
          (shown env state views Inv (consume env state stream s).1)
          (replayed env state s.schema_cache stream (shown env state views Inv s))
  unfolding consume
  consume-replayed [] s a i c h = λ name k m. refl
  consume-replayed (ok m ∷ stream) s a i c h =
      let (u, passed, after) = >>=-ok (process env state m) (λ _. consume env state stream) s h in
      let t = (process env state m s).1 in
      let law = process-Leaves env state views Inv m s a i c.0 passed in
      let ih =
        consume-replayed stream t a law.0
          (subst (λ cache. AllCached env state cache stream) (sym law.1) c.1)
          (sym (ap (λ r. r.0) after) ∙ h) in
      λ name k e.
        ap (λ r. shown env state views Inv r.1 name k) after
        ∙ ih name k e
        ∙ ap (λ cache. replayed env state cache stream (shown env state views Inv t) name k) law.1
        ∙ replayed-Agree env state s.schema_cache stream _ _ law.2 name k e
  consume-replayed (err x ∷ stream) s a i c h = cc
