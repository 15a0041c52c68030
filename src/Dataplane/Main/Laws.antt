-- ===== src/Dataplane/Main/Laws.antt =====
-- When the process ends in success: dataplane/src/main.rs over `build` and `serve` of
-- dataplane/src/lib.rs.
use ds_sql_dps_rs.Prelude.{
  ◌<>◌, ℕ, ◌≡◌, refl, ap, sym, ◌∙◌, subst, some, List, [], ◌∷◌, Result, ok, err, map_err, bind_ok,
  ok-injective, Result-cases, inl, inr, ◌↔◌,
}
use ds_sql_dps_rs.Prelude.Decimal.{to_string}
use ds_sql_dps_rs.Oxigraph.{Oxigraph, IsInMemory}
use ds_sql_dps_rs.ConfigGraph.Seed.Quads.{IsVocabulary, IsDatasetId}
use ds_sql_dps_rs.ConfigGraph.RoundTrip.{History}
use ds_sql_dps_rs.Dataplane.Config.{Config, Environment, from_env, file_offer}
use ds_sql_dps_rs.Dataplane.Build.{Startup, App, seeded_graph, base_url, try_register, build}
use ds_sql_dps_rs.Dataplane.Build.Laws.{IsReady, seeded_graph-total, started_app, build-ready}
use ds_sql_dps_rs.Dataplane.System.Laws.{build-Built}
use ds_sql_dps_rs.Dataplane.Main.{
  FirstEnd, Notice, returned, signaling_listening, public_listening, main,
}
use ds_sql_dps_rs.Dataplane.Main.Ends.{
  EndsWell, last_notices, result_of, log_of, served-EndsWell, EndsWell-served, run_app-known,
  run_app-ports, main-built, main-unbuilt,
}

map_err-ok : {E F A : Type 0} (f : E → F) (r : Result E A) (a : A) → map_err f r ≡ ok a → r ≡ ok a
map_err-ok f (ok x) a h = ap ok (ok-injective h)
map_err-ok f (err e) a h = absurd (cc (h))

module _ (O : Oxigraph) where
  -- The application is built, and its ports are known.
  pub record IsUp (s : Startup) (c : Config) (app : App O) : Type 0 where
    pub built : build O s c ≡ ok app
    pub signaling_port : ℕ
    pub signaling_port_known : app.signaling_listener.local_port ≡ ok signaling_port
    pub public_port : ℕ
    pub public_port_known : app.public_listener.local_port ≡ ok public_port

  -- An application whose ports are known was built with everything ready.
  build-IsReady :
      (s : Startup) (c : Config) (app : App O) (a b : ℕ)
      → build O s c ≡ ok app
      → app.signaling_listener.local_port ≡ ok a
      → app.public_listener.local_port ≡ ok b
      → (r : IsReady s c) × (r.signaling_port ≡ a) × (r.public_port ≡ b)
  unfolding build
  build-IsReady s c app a b h p q =
      let (g, seeded, h1) = bind_ok (seeded_graph O c) h in
      let (l, bound, h2) = bind_ok (s.bind 0 ("0.0.0.0:" <> to_string c.public_port)) h1 in
      let (url, based, h3) = bind_ok (base_url c.public_port l c.public_base_url) h2 in
      let (created, done, h4) = bind_ok s.create_control_plane h3 in
      let (sdk, made, h5) =
        bind_ok (map_err (λ e. "failed to build DataPlaneSdk: " <> e) s.build_sdk) h4 in
      let (l', bound', h6) = bind_ok (s.bind 1 ("0.0.0.0:" <> to_string c.signaling_port)) h5 in
      let (events, registered, h7) = bind_ok (try_register s.put c l') h6 in
      let same = ok-injective h7 in
      (
        record {
          public_listener = l;
          public_bound = bound;
          public_port = b;
          public_port_known = ap (λ x. x.public_listener.local_port) same ∙ q;
          signaling_listener = l';
          signaling_bound = bound';
          signaling_port = a;
          signaling_port_known = ap (λ x. x.signaling_listener.local_port) same ∙ p;
          created = done;
          sdk = map_err-ok _ s.build_sdk sdk made;
        },
        refl,
        refl,
      )

module _ (O : Oxigraph) (M : IsInMemory O) (V : IsVocabulary O) where
  -- The process has served an application over a graph that the configured offer was seeded into,
  -- with everything outside it ready, until it ended well, with this log.
  pub record HasServed (env : Environment) (s : Startup) (c : Config) (first : App O → FirstEnd)
      (log : List Notice) : Type 0 where
    pub ready : IsReady s c
    pub app : App O
    pub built : build O s c ≡ ok app
    pub history : History O M V app.world.graph (file_offer c ∷ [])
    pub ends_well : EndsWell (first app)
    pub logged :
        log
        ≡ signaling_listening ready.signaling_port
          ∷ public_listening ready.public_port
          ∷ last_notices (env "CONTROL_PLANE_URL") (first app)

  module _ (env : Environment) (s : Startup) (c : Config) (first : App O → FirstEnd)
      (log : List Notice) (configured : from_env env ≡ some c)
      (D : IsDatasetId O c.dataset_id) where
    main-HasServed : main O env s first ≡ returned (ok tt) log → HasServed env s c first log
    main-HasServed h = elim (Result-cases (build O s c)) [
      | inr (e, p) ↦ absurd (cc (main-unbuilt O env s first c e configured p, h))
      | inl (app, p) ↦
          let ran = sym (main-built O env s first c app configured p) ∙ h in
          let (a, b, sa, pb) = run_app-ports O env first app log ran in
          let ended = sym (run_app-known O env first app a b sa pb) ∙ ran in
          let well = EndsWell-served (first app) (ap result_of ended) in
          let (r, same_a, same_b) = build-IsReady O s c app a b p sa pb in
          let (g, seeded, history) = seeded_graph-total O M V c D in
          let same : g ≡ app.world.graph =
            ok-injective (sym seeded ∙ (build-Built O M V s c app p).graph) in
          record {
            ready = r;
            app = app;
            built = p;
            history = subst (λ x. History O M V x (file_offer c ∷ [])) same history;
            ends_well = well;
            logged =
                ap log_of
                  (sym ended ∙ served-EndsWell (env "CONTROL_PLANE_URL") (first app) a b well)
                ∙ rw (same_a, same_b) refl;
          }
    ]

    HasServed-main : HasServed env s c first log → main O env s first ≡ returned (ok tt) log
    HasServed-main done =
        let r = done.ready in
        let (g, url, events, built, history) = build-ready O M V s c D r in
        let same = ok-injective (sym done.built ∙ built) in
        main-built O env s first c done.app configured done.built
        ∙ run_app-known O env first done.app r.signaling_port r.public_port
            (ap (λ x. x.signaling_listener.local_port) same ∙ r.signaling_port_known)
            (ap (λ x. x.public_listener.local_port) same ∙ r.public_port_known)
        ∙ served-EndsWell (env "CONTROL_PLANE_URL") (first done.app) r.signaling_port r.public_port
            done.ends_well
        ∙ ap (returned (ok tt)) (sym done.logged)

    IsReady-IsUp : IsReady s c → (app : App O) × IsUp O s c app
    IsReady-IsUp r =
        let (g, url, events, built, history) = build-ready O M V s c D r in
        (
          started_app O M V s c r g url events,
          record {
            built = built;
            signaling_port = r.signaling_port;
            signaling_port_known = r.signaling_port_known;
            public_port = r.public_port;
            public_port_known = r.public_port_known;
          },
        )

    IsUp-IsReady : (app : App O) × IsUp O s c app → IsReady s c
    IsUp-IsReady (app, up) =
        (build-IsReady O s c app up.signaling_port up.public_port up.built up.signaling_port_known
          up.public_port_known).0

    -- On an in-memory store that takes the vocabulary's IRIs, if the environment gives a
    -- configuration with a valid dataset id: an application whose ports are known is built if and
    -- only if both sockets bind with known ports, and the repository and the SDK work, whatever the
    -- control plane answers to the registration; and the process ends in success, with a log, if and
    -- only if this is so, the application's graph is one that the configured offer was seeded into,
    -- the first to end is a server without an error or ctrl-c, and the log is the two ports, the
    -- missing control plane if its URL is not set, and the shutting down on ctrl-c.
    pub main-success :
        (IsReady s c ↔ (app : App O) × IsUp O s c app)
        × (main O env s first ≡ returned (ok tt) log ↔ HasServed env s c first log)
    main-success = ((IsReady-IsUp, IsUp-IsReady), (main-HasServed, HasServed-main))
