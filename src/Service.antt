-- ===== src/Service.antt =====
-- rust-container/src/lib.rs, `service_cancellable` and `service_start`, and webserver/mod.rs,
-- `start_app_api`. The crates `hams`, `axum` and `tokio` are parameters.
pub mod Shutdown
use push_cache.Base.{
  ℕ, Bool, true, false, Option, none, some, List, Text, String, ◌++◌, codes, if◌then◌else◌, ◌==◌,
}
use push_cache.Base.Decimal.{decimal}
use push_cache.Error.{
  MyError, io, hams_error, cancelled, Result, ok, err, Act, pure, map_err, call_err, message_of,
  ◌>>=◌, ◌>>◌,
}
use push_cache.Runtime.{Builder, rt_multithreaded}
use push_cache.State.{MyState}
use push_cache.State.Settings.{MyConfig}
use push_cache.State.Clients.{Clients}
use push_cache.State.New.{NewState, new}
use push_cache.Web.Mounts.{Mount, mount_routes}

-- What the code reads of the address of the web service.
pub record Address : Type 0 where
  pub host : Option Text
  pub port : Option ℕ

-- The address that the listener is bound to.
unfoldable pub listen_address : Address → Text
listen_address address =
    elim address.host [ some host ↦ host | none ↦ codes "0.0.0.0" ]
    ++ (codes ":" ++ decimal (elim address.port [ some port ↦ port | none ↦ 8080 ]))

-- What the sources use of the crates `hams`, `axum` and `tokio` to run the service. `select!` of the
-- server and its shutdown is in `serve`.
pub record Runner {W : Type 0} (clients : Clients W) : Type 1 where
  pub Hams : Type 0
  pub Probe : Type 0
  pub Listener : Type 0
  pub spawn_blocking : {A : Type 0} → (W → A × W) → W → Result Text A × W
  -- `Hams::new`, with the name and the version that are set in its configuration.
  pub new_hams : Text → Text → W → Hams × W
  pub manual : Text → Bool → W → Probe × W
  pub ready_insert : Hams → Probe → W → W
  pub startup_insert : Hams → Probe → W → W
  pub register_prometheus : Hams → NewState clients → W → Result Text (Unit {0}) × W
  pub start : Hams → W → Result Text (Unit {0}) × W
  pub stop : Hams → W → Result Text (Unit {0}) × W
  pub deregister_prometheus : Hams → W → Result Text (Unit {0}) × W
  -- `tokio::spawn` of `start_consumer`.
  pub spawn_consumer : NewState clients → Probe → W → W
  pub bind : Text → W → Result Text Listener × W
  -- `axum::serve` until the token is cancelled.
  pub serve : Listener → List (Mount W) → W → Result Text (Unit {0}) × W
  pub cancel : W → W

-- How a call ends: it returns, or an `unwrap` in it panics.
pub data Ending : Type 0 where
  returned : Result MyError (Unit {0}) → Ending
  panicked : Text → Ending

module _ {W : Type 0} (clients : Clients W) (runner : Runner clients) (address : Address)
    (crate_name version : Text) where
  open runner use {Hams, Probe}

  -- The routes are mounted, and served until the shutdown.
  unfoldable pub start_app_api : NewState clients → Act W (Unit {0})
  start_app_api state = do
    listener ← λ w. call_err io (runner.bind (listen_address address) w)
    λ w. call_err io (runner.serve listener (mount_routes state.state state.state.routes) w)

  -- The closure of `spawn_blocking`.
  abbrev pub make_hams : W → (Hams × Probe) × W
  make_hams w =
      let (hams, w1) = runner.new_hams crate_name version w in
      let (lag_probe, w2) = runner.manual (codes "lag-cleared") false w1 in
      (
        (hams, lag_probe),
        runner.startup_insert hams lag_probe (runner.ready_insert hams lag_probe w2),
      )

  -- Up to the start of `hams`.
  unfoldable pub prepare : MyConfig → Act W (NewState clients × Hams × Probe)
  prepare config = do
    state ← new clients config
    made ← λ w. call_err (message_of "Tokio join error: ") (runner.spawn_blocking make_hams w)
    (λ w. call_err hams_error (runner.register_prometheus made.0 state w))
    pure (state, made.0, made.1)

  -- From the start of the server on.
  unfoldable pub serve_and_stop : NewState clients → Hams → Act W (Unit {0})
  unfolding start_app_api
  serve_and_stop state hams = do
    start_app_api state
    (λ w. call_err hams_error (runner.stop hams w))
    (λ w. call_err hams_error (runner.deregister_prometheus hams w))
    λ w. (ok tt, runner.cancel w)

  unfoldable pub service_cancellable : MyConfig → W → Ending × W
  service_cancellable config w =
      let (r, w1) = prepare config w in
      elim r [
        | err e ↦ (returned (err e), w1)
        | ok (state, hams, lag_probe) ↦
            let (started, w2) = runner.start hams w1 in
            elim started [
              | err e ↦ (panicked e, w2)
              | ok u ↦
                  let (r', w3) =
                    serve_and_stop state hams (runner.spawn_consumer state lag_probe w2) in
                  (returned r', w3)
            ]
      ]

  -- The function is run in a new runtime.
  unfoldable pub service_start : Builder W → MyConfig → W → Ending × W
  service_start builder config w =
      let (r, w1) = rt_multithreaded builder config.runtime w in
      elim r [
        | err e ↦ (returned (err e), w1)
        | ok rt ↦ builder.block_on rt (service_cancellable config) w1
      ]
