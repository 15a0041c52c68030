-- ===== src/Dataplane/System/Starts.antt =====
-- From the start of a flow in dataplane/src/handler.rs to the answer of dataplane/src/public.rs.
use ds_sql_dps_rs.Prelude.{
  String, ℕ, true, false, ◌≡◌, ap, ◌∙◌, some, List, ◌∷◌, All, ok, eq_refl, arith, Bool-cases, inl,
  inr,
}
use ds_sql_dps_rs.Oxigraph.{Oxigraph, IsInMemory}
use ds_sql_dps_rs.ConfigGraph.Store.{ConfigGraph}
use ds_sql_dps_rs.ConfigGraph.Seed.Quads.{IsVocabulary, IsDatasetId}
use ds_sql_dps_rs.ConfigGraph.Ids.{has_hash}
use ds_sql_dps_rs.Dataplane.Tokens.Laws
use ds_sql_dps_rs.Dataplane.Tokens.Laws.{start, granted, issued-run}
use ds_sql_dps_rs.Dataplane.Config.{Config}
use ds_sql_dps_rs.Dataplane.Handler.{
  World, DataFlow, FileOfferHandler, admit, on_start, status_message,
}
use ds_sql_dps_rs.Dataplane.Handler.Admission.{on_start-admitted}
use ds_sql_dps_rs.Dataplane.Public.{Engine, Surroundings, get_file}
use ds_sql_dps_rs.Dataplane.Build.{Startup, App, build}
use ds_sql_dps_rs.Dataplane.System.{
  Call, starts, apply, execute, accepts, token_ops, offer_under, policy_answer, request_answer,
}
use ds_sql_dps_rs.Dataplane.System.Good.{offers_have, Good, IsValidFlow, IsValidCall}
use ds_sql_dps_rs.Dataplane.System.Keeps.{known-admitted, seeded-admitted, new-refused}
use ds_sql_dps_rs.Dataplane.System.Laws.{Built-invariant, system_refines}

module _ (O : Oxigraph) (M : IsInMemory O) (V : IsVocabulary O) (uuid : ℕ → String)
    (h : FileOfferHandler) where
  accepted-admitted :
      (flow : DataFlow) (w : World O) (cs : List Call)
      → IsValidFlow O flow
      → Good O M V uuid h w cs
      → accepts h flow.dataset_id ≡ true
      → (g' : ConfigGraph O) × (admit O h flow w.graph ≡ (ok tt, g'))
  accepted-admitted flow w cs valid g accepted =
      elim (Bool-cases (offers_have flow.dataset_id g.offers)) [
        | inl known ↦ (w.graph, known-admitted O M V uuid h flow w cs g known)
        | inr new ↦ elim (Bool-cases h.tck_mode) [
          | inl e ↦
              let (g', admitted, history) = seeded-admitted O M V uuid h flow w cs valid g new e in
              (g', admitted)
          | inr e ↦ absurd (cc (accepted, new-refused O M V uuid h w cs flow.dataset_id g new e))
        ]
      ]

  -- The token of an accepted start is the next one.
  accepted-started :
      (flow : DataFlow) (w : World O) (cs : List Call)
      → IsValidFlow O flow
      → Good O M V uuid h w cs
      → accepts h flow.dataset_id ≡ true
      → (on_start O uuid h flow w).0
        ≡ ok (status_message O h flow (uuid (Laws.starts (token_ops h cs))))
  accepted-started flow w cs valid g accepted =
      let (g', admitted) = accepted-admitted flow w cs valid g accepted in
      ap (λ r. r.0) (on_start-admitted O h flow uuid w g' admitted)
      ∙ ap (λ k. ok (status_message O h flow (uuid k)))
          (ap (λ t. t.issued) g.tokens ∙ issued-run uuid (token_ops h cs))

-- What an accepted start grants.
granted-starts :
    (h : FileOfferHandler) (flow : DataFlow) (cs : List Call)
    → accepts h flow.dataset_id ≡ true
    → granted (Laws.starts (token_ops h cs)) (token_ops h (starts flow ∷ cs))
      ≡ some (record { flow_id = flow.id; dataset_id = flow.dataset_id })
unfolding token_ops
granted-starts h flow cs accepted = rw accepted (ground (arith))

module _ (O : Oxigraph) (M : IsInMemory O) (V : IsVocabulary O) where
  -- On an in-memory store that takes the vocabulary's IRIs, after `build` with a valid dataset id
  -- without a `#`, and after any calls whose starts are for such ids, if tokens do not repeat: the
  -- start of a flow for the configured dataset, or in TCK mode for any such id, succeeds, and a
  -- request with the token that its message carries is answered by the policy document of the
  -- configured offer under this id, its file and its media type.
  pub on_start-get_file :
      (s : Startup) (c : Config) (app : App O)
      → build O s c ≡ ok app
      → IsDatasetId O c.dataset_id
      → has_hash c.dataset_id ≡ false
      → (uuid : ℕ → String) → ((j k : ℕ) → uuid j ≡ uuid k → j ≡ k)
      → (cs : List Call) → All (IsValidCall O) cs
      → (flow : DataFlow) → IsValidFlow O flow
      → accepts app.handler flow.dataset_id ≡ true
      → (E : Engine) (env : Surroundings)
      → (token : String) × ((on_start O uuid app.handler flow
            (execute O uuid app.handler app.world cs)).0
          ≡ ok (status_message O app.handler flow token))
        × (get_file O E env
              (on_start O uuid app.handler flow (execute O uuid app.handler app.world cs)).1
              flow.dataset_id
              token
            ≡ policy_answer O E env (offer_under app.handler flow.dataset_id))
  unfolding execute apply
  on_start-get_file s c app started D plain uuid injective cs valid flow ok_flow accepted E env =
      let h = app.handler in
      let n = Laws.starts (token_ops h cs) in
      let w = execute O uuid h app.world cs in
      (
        uuid n,
        accepted-started O M V uuid h flow w cs ok_flow
            (Built-invariant O M V s c app started D plain uuid cs valid).2 accepted,
        system_refines O M V s c app started D plain uuid (starts flow ∷ cs) (ok_flow, valid)
              injective E env flow.dataset_id n
            ∙ ap (λ t. request_answer O E env h t flow.dataset_id)
                (granted-starts h flow cs accepted)
            ∙ rw (eq_refl flow.dataset_id),
      )
