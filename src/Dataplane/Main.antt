-- ===== src/Dataplane/Main.antt =====
-- dataplane/src/lib.rs: `serve`, and dataplane/src/main.rs: `main`. The servers are parameters:
-- what they do until one of them, or the wait for ctrl-c, is the first to end.
pub mod Ends
pub mod Laws
use ds_sql_dps_rs.Prelude.{
  String, ℕ, Option, none, some, List, [], ◌∷◌, ◌++◌, Result, ok, err, ◌>>=◌,
}
use ds_sql_dps_rs.Oxigraph.{Oxigraph}
use ds_sql_dps_rs.Dataplane.Config.{Config, Environment, from_env}
use ds_sql_dps_rs.Dataplane.Build.{Startup, App, build}

-- The branch of `tokio::select!` that ends first.
pub data FirstEnd : Type 0 where
  signaling_ended : Result String (Unit {0}) → FirstEnd
  public_ended : Result String (Unit {0}) → FirstEnd
  ctrl_c : FirstEnd

-- What `main` and `serve` log.
pub data Notice : Type 0 where
  signaling_listening : ℕ → Notice
  public_listening : ℕ → Notice
  no_control_plane : Notice
  shutting_down : Notice

unfoldable pub serve : FirstEnd → Result String (Unit {0}) × List Notice
serve (signaling_ended result) = (result, [])
serve (public_ended result) = (result, [])
serve ctrl_c = (ok tt, shutting_down ∷ [])

-- `if std::env::var("CONTROL_PLANE_URL").is_err()`
abbrev pub control_plane_notice : Option String → List Notice
control_plane_notice none = no_control_plane ∷ []
control_plane_notice (some url) = []

-- How the process ends: a panic of `Config::from_env`, or the result of `main`.
pub data Exit : Type 0 where
  panicked : Exit
  returned : Result String (Unit {0}) → List Notice → Exit

module _ (O : Oxigraph) where
  -- From the built application on.
  unfoldable pub run_app : Environment → (App O → FirstEnd) → App O → Exit
  unfolding serve
  run_app env first app = elim app.signaling_listener.local_port [
    | err e ↦ returned (err e) []
    | ok signaling ↦ elim app.public_listener.local_port [
      | err e ↦ returned (err e) []
      | ok public ↦
          let (result, notices) = serve (first app) in
          returned result (
            signaling_listening signaling
            ∷ public_listening public
            ∷ (control_plane_notice (env "CONTROL_PLANE_URL") ++ notices))
    ]
  ]

  unfoldable pub main : Environment → Startup → (App O → FirstEnd) → Exit
  main env startup first = elim (from_env env) [
    | none ↦ panicked
    | some config ↦ elim (build O startup config) [
      | err e ↦ returned (err e) []
      | ok app ↦ run_app env first app
    ]
  ]
