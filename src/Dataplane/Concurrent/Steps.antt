-- ===== src/Dataplane/Concurrent/Steps.antt =====
-- What the steps of dataplane/src/handler.rs and dataplane/src/public.rs have to do with the whole
-- operations, and what they leave alone outside TCK mode.
use ds_sql_dps_rs.Prelude.{
  String, ℕ, false, ◌≡◌, refl, ap, ◌∙◌, List, [], ◌∷◌, ◌==◌, Bool-cases, Option-cases, Result-cases,
  inl, inr,
}
use ds_sql_dps_rs.Oxigraph.{Oxigraph}
use ds_sql_dps_rs.ConfigGraph.Store.{ConfigGraph, file_path}
use ds_sql_dps_rs.ConfigGraph.Policy.{policy_jsonld}
use ds_sql_dps_rs.Dataplane.Tokens.{lookup}
use ds_sql_dps_rs.Dataplane.Handler.{World, DataFlow, FileOfferHandler, admit, on_start}
use ds_sql_dps_rs.Dataplane.Handler.Admission.{
  admit-known, admit-refused, unknown_dataset, on_start-admitted, on_start-refused,
}
use ds_sql_dps_rs.Dataplane.Public.{
  Engine, Response, engine_request, serve_bytes, enforce, get_file, refuse,
}
use ds_sql_dps_rs.Dataplane.Public.Laws.{WireDecision-cases}
use ds_sql_dps_rs.Dataplane.System.{
  Call, asks, starts, prepares, terminates, confirms, suspends, apply, execute,
}
use ds_sql_dps_rs.Dataplane.Concurrent.{
  Visit, Task, get_asked, get_checked, get_permitted, get_located, get_done, start_asked,
  start_seeding, start_admitted, start_done, stop_asked, stop_done, check, permit, locate, deliver,
}

module _ (O : Oxigraph) (E : Engine) where
  -- What a request that has begun is answered if the graph stays as it is.
  abbrev pub remaining : ConfigGraph O → Task → Response
  remaining g (get_checked v) = enforce O E v.env g v.dataset_id
  remaining g (get_permitted v) = serve_bytes O E v.env g v.dataset_id
  remaining g (get_located v path) = deliver O v path g
  remaining g (get_done v r) = r
  remaining g (get_asked v) = refuse 0 ""
  remaining g (start_asked flow) = refuse 0 ""
  remaining g (start_seeding flow quads) = refuse 0 ""
  remaining g (start_admitted flow) = refuse 0 ""
  remaining g (start_done flow r) = refuse 0 ""
  remaining g (stop_asked flow) = refuse 0 ""
  remaining g (stop_done flow) = refuse 0 ""

  pub remaining-check :
      (v : Visit) (w : World O)
      → get_file O E v.env w v.dataset_id v.token ≡ remaining w.graph (check O v w)
  unfolding get_file
  remaining-check v w = elim (Option-cases (lookup v.token w.tokens)) [
    | inl p ↦ rw (p, get_file, check)
    | inr (entry, p) ↦ elim (Bool-cases (entry.dataset_id == v.dataset_id)) [
      | inl q ↦ rw (p, get_file, check, q)
      | inr q ↦ rw (p, get_file, check, q)
    ]
  ]

  pub remaining-permit :
      (v : Visit) (g : ConfigGraph O)
      → enforce O E v.env g v.dataset_id ≡ remaining g (permit O E v g)
  unfolding enforce
  remaining-permit v g = elim (Result-cases (policy_jsonld O v.dataset_id g)) [
    | inr (e, p) ↦ rw (p, enforce, permit)
    | inl (doc, p) ↦ elim (Result-cases (E.ingest_policy_value doc)) [
      | inr (e, q) ↦ rw (p, q, enforce, permit)
      | inl (policy, q) ↦
          elim (WireDecision-cases
            (E.evaluate_request (engine_request O E v.env.now policy v.dataset_id)).0) [
              | inr d ↦ rw (p, q, d, enforce, permit)
              | inl d ↦ rw (p, q, d, enforce, permit)
            ]
    ]
  ]

  pub remaining-locate :
      (v : Visit) (g : ConfigGraph O)
      → serve_bytes O E v.env g v.dataset_id ≡ remaining g (locate O v g)
  unfolding serve_bytes
  remaining-locate v g = elim (Result-cases (file_path O v.dataset_id g)) [
    | inr (e, p) ↦ rw (p, serve_bytes, locate)
    | inl (path, p) ↦ rw (p, serve_bytes, locate)
  ]

module _ (O : Oxigraph) (uuid : ℕ → String) (h : FileOfferHandler)
    (normal : h.tck_mode ≡ false) where
  on_start-graph : (flow : DataFlow) (w : World O) → (on_start O uuid h flow w).1.graph ≡ w.graph
  on_start-graph flow w = elim (Result-cases (file_path O flow.dataset_id w.graph)) [
    | inl (path, p) ↦
        ap (λ r. r.1.graph)
          (on_start-admitted O h flow uuid w w.graph (admit-known O h flow w.graph path p))
    | inr (e, p) ↦
        ap (λ r. r.1.graph)
          (on_start-refused O h flow uuid w (unknown_dataset flow e)
            (admit-refused O h flow w.graph e p normal))
  ]

  -- Outside TCK mode the graph stays as it was built.
  pub execute-graph : (w : World O) (cs : List Call) → (execute O uuid h w cs).graph ≡ w.graph
  unfolding execute apply ds_sql_dps_rs.Dataplane.Handler.on_terminate
  execute-graph w [] = refl
  execute-graph w (asks flow ∷ cs) = execute-graph w cs
  execute-graph w (starts flow ∷ cs) =
      on_start-graph flow (execute O uuid h w cs) ∙ execute-graph w cs
  execute-graph w (prepares flow ∷ cs) = execute-graph w cs
  execute-graph w (terminates flow ∷ cs) = execute-graph w cs
  execute-graph w (confirms flow ∷ cs) = execute-graph w cs
  execute-graph w (suspends flow ∷ cs) = execute-graph w cs
