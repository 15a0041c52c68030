-- ===== src/Dataplane/Main/Ends.antt =====
-- How `main` of dataplane/src/main.rs ends, by what `build` and `serve` of dataplane/src/lib.rs do.
use ds_sql_dps_rs.Prelude.{
  String, ℕ, ◌≡◌, refl, Option, none, some, List, [], ◌∷◌, ◌++◌, Result, ok, err, Result-cases, inl,
  inr,
}
use ds_sql_dps_rs.Oxigraph.{Oxigraph}
use ds_sql_dps_rs.Dataplane.Config.{Config, Environment, from_env}
use ds_sql_dps_rs.Dataplane.Build.{Startup, App, build}
use ds_sql_dps_rs.Dataplane.Main.{
  FirstEnd, signaling_ended, public_ended, ctrl_c, Notice, no_control_plane, shutting_down, Exit,
  panicked, returned, signaling_listening, public_listening, control_plane_notice, serve, run_app,
  main,
}

-- The wait for ctrl-c is over, or a server has ended without an error.
abbrev pub EndsWell : FirstEnd → Type 0
EndsWell (signaling_ended result) = result ≡ ok tt
EndsWell (public_ended result) = result ≡ ok tt
EndsWell ctrl_c = Unit

-- What is logged after the addresses: that there is no control plane, if its URL is not set, and
-- that the process shuts down, on ctrl-c alone.
abbrev pub last_notices : Option String → FirstEnd → List Notice
last_notices none ctrl_c = no_control_plane ∷ shutting_down ∷ []
last_notices none (signaling_ended result) = no_control_plane ∷ []
last_notices none (public_ended result) = no_control_plane ∷ []
last_notices (some url) ctrl_c = shutting_down ∷ []
last_notices (some url) (signaling_ended result) = []
last_notices (some url) (public_ended result) = []

abbrev pub served : Option String → FirstEnd → ℕ → ℕ → Exit
served url end signaling public = returned (serve end).0 (
    signaling_listening signaling
    ∷ public_listening public
    ∷ (control_plane_notice url ++ (serve end).1))

abbrev pub result_of : Exit → Result String (Unit {0})
result_of (returned result log) = result
result_of panicked = err ""

abbrev pub log_of : Exit → List Notice
log_of (returned result log) = log
log_of panicked = []

-- An end that goes well is success with this log.
pub served-EndsWell :
    (url : Option String) (end : FirstEnd) (a b : ℕ)
    → EndsWell end
    → served url end a b
      ≡ returned (ok tt) (signaling_listening a ∷ public_listening b ∷ last_notices url end)
unfolding serve
served-EndsWell none ctrl_c a b h = refl
served-EndsWell none (signaling_ended result) a b h = rw h refl
served-EndsWell none (public_ended result) a b h = rw h refl
served-EndsWell (some url) ctrl_c a b h = refl
served-EndsWell (some url) (signaling_ended result) a b h = rw h refl
served-EndsWell (some url) (public_ended result) a b h = rw h refl

-- Success is the end of one that goes well.
pub EndsWell-served : (end : FirstEnd) → (serve end).0 ≡ ok tt → EndsWell end
unfolding serve
EndsWell-served (signaling_ended result) h = h
EndsWell-served (public_ended result) h = h
EndsWell-served ctrl_c h = tt

module _ (O : Oxigraph) where
  pub run_app-known :
      (env : Environment) (first : App O → FirstEnd) (app : App O) (a b : ℕ)
      → app.signaling_listener.local_port ≡ ok a
      → app.public_listener.local_port ≡ ok b
      → run_app O env first app ≡ served (env "CONTROL_PLANE_URL") (first app) a b
  unfolding run_app
  run_app-known env first app a b p q = simp (run_app, p, q)

  -- A run that succeeds knows both ports.
  pub run_app-ports :
      (env : Environment) (first : App O → FirstEnd) (app : App O) (log : List Notice)
      → run_app O env first app ≡ returned (ok tt) log
      → (a : ℕ) × (b : ℕ) × (app.signaling_listener.local_port ≡ ok a)
        × (app.public_listener.local_port ≡ ok b)
  unfolding run_app
  run_app-ports env first app log h = elim (Result-cases app.signaling_listener.local_port) [
    | inr (e, p) ↦ absurd (cc (rw p at h))
    | inl (a, p) ↦ elim (Result-cases app.public_listener.local_port) [
      | inr (e, q) ↦ absurd (cc (rw (p, q) at h))
      | inl (b, q) ↦ (a, b, p, q)
    ]
  ]

  pub main-built :
      (env : Environment) (s : Startup) (first : App O → FirstEnd) (c : Config) (app : App O)
      → from_env env ≡ some c
      → build O s c ≡ ok app
      → main O env s first ≡ run_app O env first app
  unfolding main
  main-built env s first c app e built = rw (main, e, built)

  pub main-unbuilt :
      (env : Environment) (s : Startup) (first : App O → FirstEnd) (c : Config) (e : String)
      → from_env env ≡ some c
      → build O s c ≡ err e
      → main O env s first ≡ returned (err e) []
  unfolding main
  main-unbuilt env s first c e configured failed = rw (main, configured, failed)
