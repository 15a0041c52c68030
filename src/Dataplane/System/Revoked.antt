-- ===== src/Dataplane/System/Revoked.antt =====
-- After a termination: dataplane/src/handler.rs, `on_terminate`, and dataplane/src/public.rs.
use ds_sql_dps_rs.Prelude.{
  String, ℕ, false, ◌≡◌, refl, ap, ◌∙◌, some, List, [], ◌∷◌, ◌++◌, All, ok, Bool-cases, inl, inr,
}
use ds_sql_dps_rs.Oxigraph.{Oxigraph, IsInMemory}
use ds_sql_dps_rs.ConfigGraph.Seed.Quads.{IsVocabulary, IsDatasetId}
use ds_sql_dps_rs.ConfigGraph.Ids.{has_hash}
use ds_sql_dps_rs.Dataplane.Tokens.{TokenRecord}
use ds_sql_dps_rs.Dataplane.Tokens.Laws.{terminate, granted}
use ds_sql_dps_rs.Dataplane.Tokens.Revoked.{granted-terminate}
use ds_sql_dps_rs.Dataplane.Config.{Config}
use ds_sql_dps_rs.Dataplane.Handler.{DataFlow, FileOfferHandler}
use ds_sql_dps_rs.Dataplane.Public.{Engine, Surroundings, get_file, refuse}
use ds_sql_dps_rs.Dataplane.Build.{Startup, App, build}
use ds_sql_dps_rs.Dataplane.System.{
  Call, asks, starts, prepares, terminates, confirms, suspends, accepts, execute, token_ops,
  request_answer,
}
use ds_sql_dps_rs.Dataplane.System.Good.{IsValidCall}
use ds_sql_dps_rs.Dataplane.System.Laws.{system_refines}

token_ops-append :
    (h : FileOfferHandler) (later cs : List Call)
    → token_ops h (later ++ cs) ≡ token_ops h later ++ token_ops h cs
unfolding token_ops
token_ops-append h [] cs = refl
token_ops-append h (starts flow ∷ later) cs = elim (Bool-cases (accepts h flow.dataset_id)) [
  | inl e ↦ rw (e, token_ops-append h later cs)
  | inr e ↦ rw (e, token_ops-append h later cs)
]
token_ops-append h (terminates flow ∷ later) cs =
    ap (λ x. terminate flow.id ∷ x) (token_ops-append h later cs)
token_ops-append h (asks flow ∷ later) cs = token_ops-append h later cs
token_ops-append h (prepares flow ∷ later) cs = token_ops-append h later cs
token_ops-append h (confirms flow ∷ later) cs = token_ops-append h later cs
token_ops-append h (suspends flow ∷ later) cs = token_ops-append h later cs

terminated_ops :
    (h : FileOfferHandler) (flow : DataFlow) (later cs : List Call)
    → token_ops h (later ++ (terminates flow ∷ cs))
      ≡ token_ops h later ++ (terminate flow.id ∷ token_ops h cs)
unfolding token_ops
terminated_ops h flow later cs = token_ops-append h later (terminates flow ∷ cs)

module _ (O : Oxigraph) (M : IsInMemory O) (V : IsVocabulary O) where
  -- On an in-memory store that takes the vocabulary's IRIs, after `build` with a valid dataset id
  -- without a `#`, and after any calls whose starts are for such ids, if tokens do not repeat: once
  -- a flow has been terminated, a request with any token that was issued for it before, and was
  -- worth something until then, is refused with 401, whatever calls follow, the start of a flow
  -- with the same id included.
  pub get_file-terminated :
      (s : Startup) (c : Config) (app : App O)
      → build O s c ≡ ok app
      → IsDatasetId O c.dataset_id
      → has_hash c.dataset_id ≡ false
      → (uuid : ℕ → String) → ((j k : ℕ) → uuid j ≡ uuid k → j ≡ k)
      → (later cs : List Call) (flow : DataFlow)
      → All (IsValidCall O) (later ++ (terminates flow ∷ cs))
      → (n : ℕ) (entry : TokenRecord) → granted n (token_ops app.handler cs) ≡ some entry
      → entry.flow_id ≡ flow.id
      → (E : Engine) (env : Surroundings) (id : String)
      → get_file O E env
          (execute O uuid app.handler app.world (later ++ (terminates flow ∷ cs)))
          id
          (uuid n)
        ≡ refuse 401 "invalid or expired token"
  get_file-terminated s c app started D plain uuid injective later cs flow valid n entry worth same
        E env id =
      system_refines O M V s c app started D plain uuid (later ++ (terminates flow ∷ cs)) valid
        injective E env id n
      ∙ ap (λ ops. request_answer O E env app.handler (granted n ops) id)
          (terminated_ops app.handler flow later cs)
      ∙ ap (λ t. request_answer O E env app.handler t id)
          (granted-terminate n flow.id entry (token_ops app.handler later)
            (token_ops app.handler cs) worth same)
