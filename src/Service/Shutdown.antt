-- ===== src/Service/Shutdown.antt =====
-- lib.rs, `service_cancellable`: what is left running when it ends.
use push_cache.Base.{◌≡◌, refl, ◌∙◌, Bool, true, false, inl, inr, Text}
use push_cache.Error.{MyError, Result, ok, Result-cases}
use push_cache.Cache.Contract.{Outcome, Outcome-ok}
use push_cache.State.Settings.{MyConfig}
use push_cache.State.Clients.{Clients}
use push_cache.State.New.{NewState}
use push_cache.Service.{
  Address, Runner, returned, start_app_api, prepare, serve_and_stop, service_cancellable,
}

-- What the crates are documented to do: whether the health service runs, whether its metrics callback
-- is registered, and whether the token is cancelled.
pub record RunnerLaws {W : Type 0} {clients : Clients W} (runner : Runner clients) : Type 0 where
  pub running : runner.Hams → W → Bool
  pub registered : runner.Hams → W → Bool
  pub is_cancelled : W → Bool
  pub stop_lem :
      (h : runner.Hams) (w : W)
      → let (r, w') = runner.stop h w in
        (registered h w' ≡ registered h w) × Outcome (λ _. running h w' ≡ false) (Unit {0}) r
  pub deregister_lem :
      (h : runner.Hams) (w : W)
      → let (r, w') = runner.deregister_prometheus h w in
        (running h w' ≡ running h w) × Outcome (λ _. registered h w' ≡ false) (Unit {0}) r
  pub cancel_lem :
      (h : runner.Hams) (w : W)
      → let w' = runner.cancel w in
        (running h w' ≡ running h w) × (registered h w' ≡ registered h w) × (is_cancelled w' ≡ true)

returned_injective : {r r' : Result MyError (Unit {0})} → returned r ≡ returned r' → r ≡ r'
returned_injective h = cc

module _ {W : Type 0} (clients : Clients W) (runner : Runner clients) (address : Address)
    (crate_name version : Text) (laws : RunnerLaws runner) where
  open laws use {running, registered, is_cancelled}

  serve_and_stop-stopped :
      (h : runner.Hams) (s : NewState clients) (w : W)
      → let (r, w') = serve_and_stop clients runner address crate_name version s h w in
        r ≡ ok tt → (running h w' ≡ false) × (registered h w' ≡ false) × (is_cancelled w' ≡ true)
  unfolding serve_and_stop
  serve_and_stop-stopped h s w =
      let served = start_app_api clients runner address crate_name version s w in
      elim (Result-cases served.0) [
        | inr (x, e) ↦ rw (e, serve_and_stop) (λ p. cc)
        | inl (u, e) ↦
            let w1 = served.1 in
            let w2 = (runner.stop h w1).1 in
            let w3 = (runner.deregister_prometheus h w2).1 in
            elim (Result-cases (runner.stop h w1).0) [
              | inr (x, e') ↦ rw (e, serve_and_stop, e') (λ p. cc)
              | inl (u', e') ↦ elim (Result-cases (runner.deregister_prometheus h w2).0) [
                | inr (x, f) ↦ rw (e, serve_and_stop, e', f) (λ p. cc)
                | inl (u'', f) ↦
                    let stopped =
                      Outcome-ok (λ _. running h w2 ≡ false) Unit e' (laws.stop_lem h w1).1 in
                    let (same, gone) = laws.deregister_lem h w2 in
                    let removed = Outcome-ok (λ _. registered h w3 ≡ false) Unit f gone in
                    let (r, g, c) = laws.cancel_lem h w3 in
                    rw (e, serve_and_stop, e', f) (λ p. (r ∙ same ∙ stopped, g ∙ removed, c))
              ]
            ]
      ]

  -- The world in which the server is started.
  abbrev pub before_server : MyConfig → W → NewState clients → runner.Hams → runner.Probe → W
  before_server config w s h lag_probe =
      runner.spawn_consumer s lag_probe
        (runner.start h (prepare clients runner address crate_name version config w).1).1

  -- The preparation has succeeded, and so has the start of the health service.
  abbrev pub IsStarted : MyConfig → W → NewState clients → runner.Hams → runner.Probe → Type 0
  IsStarted config w s h lag_probe =
      ((prepare clients runner address crate_name version config w).0 ≡ ok (s, h, lag_probe))
      × ((runner.start h (prepare clients runner address crate_name version config w).1).0 ≡ ok tt)

  service-served :
      (config : MyConfig) (w : W) (s : NewState clients) (h : runner.Hams)
      (lag_probe : runner.Probe)
      → IsStarted config w s h lag_probe
      → service_cancellable clients runner address crate_name version config w
        ≡ let (r, w') =
            serve_and_stop clients runner address crate_name version s h
              (before_server config w s h lag_probe) in
          (returned r, w')
  unfolding service_cancellable
  service-served config w s h lag_probe (p, q) = rw (p, service_cancellable, q) refl

  -- If the crates do what they are documented to do, the preparation and the start of the health
  -- service have succeeded, and the service returns a success, then the health service no longer
  -- runs, its metrics callback is no longer registered, and the token is cancelled.
  pub service-stopped :
      (config : MyConfig) (w : W) (s : NewState clients) (h : runner.Hams)
      (lag_probe : runner.Probe)
      → IsStarted config w s h lag_probe
      → (service_cancellable clients runner address crate_name version config w).0
        ≡ returned (ok tt)
      → let w' = (service_cancellable clients runner address crate_name version config w).1 in
        (running h w' ≡ false) × (registered h w' ≡ false) × (is_cancelled w' ≡ true)
  service-stopped config w s h lag_probe started =
      rw (service-served config w s h lag_probe started) (λ e.
        serve_and_stop-stopped h s (before_server config w s h lag_probe) (returned_injective e))
