-- ===== src/Dataplane/Build/Laws.antt =====
-- What `build` starts with.
use ds_sql_dps_rs.Prelude.{
  String, ℕ, ◌<>◌, ◌≡◌, refl, List, [], ◌∷◌, ok, nat_eq, Bool-cases, Option-cases, inl, inr,
}
use ds_sql_dps_rs.Prelude.Decimal.{to_string}
use ds_sql_dps_rs.Oxigraph.{Oxigraph, IsInMemory}
use ds_sql_dps_rs.ConfigGraph.Store.{ConfigGraph, open_in_memory}
use ds_sql_dps_rs.ConfigGraph.Seed.Quads.{IsVocabulary, IsDatasetId}
use ds_sql_dps_rs.ConfigGraph.RoundTrip.{History, opened}
use ds_sql_dps_rs.ConfigGraph.RoundTrip.Laws.{seed_offer-total}
use ds_sql_dps_rs.Dataplane.Tokens
use ds_sql_dps_rs.Dataplane.Config.{Config, file_offer}
use ds_sql_dps_rs.Dataplane.Registration.{Put, register_with_control_plane}
use ds_sql_dps_rs.Dataplane.Build.{
  Listener, Startup, Event, registration_event, App, base_url, registration_of, try_register,
  seeded_graph, prove_round_trip, build,
}

-- Everything outside the process works, but the control plane may be out of reach.
pub record IsReady (env : Startup) (c : Config) : Type 0 where
  pub public_listener : Listener
  pub public_bound : env.bind 0 ("0.0.0.0:" <> to_string c.public_port) ≡ ok public_listener
  pub public_port : ℕ
  pub public_port_known : public_listener.local_port ≡ ok public_port
  pub signaling_listener : Listener
  pub signaling_bound :
      env.bind 1 ("0.0.0.0:" <> to_string c.signaling_port) ≡ ok signaling_listener
  pub signaling_port : ℕ
  pub signaling_port_known : signaling_listener.local_port ≡ ok signaling_port
  pub created : env.create_control_plane ≡ ok tt
  pub sdk : env.build_sdk ≡ ok tt

base_url-total :
    (port : ℕ) (l : Listener) (configured : String) (n : ℕ)
    → l.local_port ≡ ok n
    → (url : String) × (base_url port l configured ≡ ok url)
unfolding base_url
base_url-total port l configured n h = elim (Bool-cases (nat_eq port 0)) [
  | inl e ↦ ("http://localhost:" <> to_string n, rw (e, h))
  | inr e ↦ (configured, rw (e))
]

try_register-total :
    (put : Put) (c : Config) (l : Listener) (n : ℕ)
    → l.local_port ≡ ok n
    → (events : List Event) × (try_register put c l ≡ ok events)
unfolding try_register
try_register-total put c l n h = elim (Option-cases c.control_plane_url) [
  | inl e ↦ ([], rw (e))
  | inr (url, e) ↦
      let (endpoint, b) =
        base_url-total c.signaling_port l ("http://localhost:" <> to_string c.signaling_port) n h in
      (
        registration_event (
              register_with_control_plane put url c.participant_context_id
                (registration_of c endpoint))
            ∷ [],
        rw (e, b, try_register),
      )
]

module _ (O : Oxigraph) (M : IsInMemory O) (V : IsVocabulary O) where
  pub seeded_graph-total :
      (c : Config)
      → IsDatasetId O c.dataset_id
      → (g : ConfigGraph O) × (seeded_graph O c ≡ ok g) × History O M V g (file_offer c ∷ [])
  unfolding seeded_graph file_offer
  seeded_graph-total c D =
      let (s, new, holds) = M.new_lem in
      let start : open_in_memory O ≡ ok (record { store = s; blanks = 0 }) =
        unfold open_in_memory in rw new in
      let (g, seeded, history) = seed_offer-total O M V (file_offer c) (opened start) D tt in
      (g, rw (start, seeded), history)

  -- The application that is started.
  abbrev pub started_app :
      (env : Startup) (c : Config) → IsReady env c → ConfigGraph O → String → List Event → App O
  started_app env c r g url events = record {
    signaling_listener = r.signaling_listener;
    public_listener = r.public_listener;
    handler = record { public_base_url = url; default_offer = file_offer c; tck_mode = c.tck_mode };
    world = record { graph = g; tokens = Tokens.default };
    participant = c.participant_context_id;
    control_plane_callback = "http://localhost:" <> (to_string c.signaling_port <> "/callback");
    log = prove_round_trip O c g ∷ events;
  }

  pub build-ready :
      (env : Startup) (c : Config)
      → IsDatasetId O c.dataset_id
      → (r : IsReady env c)
      → (g : ConfigGraph O) × (url : String) × (events : List Event) × (build O env c
          ≡ ok (started_app env c r g url events))
        × History O M V g (file_offer c ∷ [])
  unfolding build
  build-ready env c D r =
      let (g, seeded, history) = seeded_graph-total c D in
      let (url, based) =
        base_url-total c.public_port r.public_listener c.public_base_url r.public_port
          r.public_port_known in
      let (events, tried) =
        try_register-total env.put c r.signaling_listener r.signaling_port r.signaling_port_known in
      (
        g,
        url,
        events,
        rw (build, seeded, r.public_bound, based, r.created, r.sdk, r.signaling_bound, tried),
        history,
      )

  -- On an in-memory store that takes the vocabulary's IRIs, if the dataset id is valid and the
  -- sockets, the repository and the SDK work, `build` succeeds, whether or not the control plane
  -- can be reached, with a graph that the configured offer was seeded into, no tokens, and a
  -- handler with the configured offer and mode.
  pub build-total :
      (env : Startup) (c : Config)
      → IsDatasetId O c.dataset_id
      → IsReady env c
      → (app : App O) × (build O env c ≡ ok app)
        × History O M V app.world.graph (file_offer c ∷ [])
        × (app.world.tokens ≡ Tokens.default)
        × (app.handler.default_offer ≡ file_offer c)
        × (app.handler.tck_mode ≡ c.tck_mode)
  build-total env c D r =
      let (g, url, events, built, history) = build-ready env c D r in
      (started_app env c r g url events, built, history, refl, refl, refl)
