-- ===== src/Dataplane/System/Answers.antt =====
-- An offer that reads back is answered as it should be.
use ds_sql_dps_rs.Prelude.{◌≡◌, Result-cases, Option-cases, inl, inr}
use ds_sql_dps_rs.Oxigraph.{Oxigraph, IsInMemory}
use ds_sql_dps_rs.ConfigGraph.Offer.{unicode, to_string_lossy, FileOffer}
use ds_sql_dps_rs.ConfigGraph.Store.{ConfigGraph}
use ds_sql_dps_rs.ConfigGraph.Seed.Quads.{IsVocabulary}
use ds_sql_dps_rs.ConfigGraph.ReadBack.{offer_document}
use ds_sql_dps_rs.ConfigGraph.RoundTrip.{ReadsBack}
use ds_sql_dps_rs.Dataplane.Public.{Engine, Surroundings, engine_request, serve_bytes, enforce}
use ds_sql_dps_rs.Dataplane.Public.Laws.{WireDecision-cases}
use ds_sql_dps_rs.Dataplane.System.{file_answer, policy_answer}

module _ (O : Oxigraph) (M : IsInMemory O) (V : IsVocabulary O) (E : Engine)
    (env : Surroundings) where
  serve_bytes-ReadsBack :
      (g : ConfigGraph O) (offer : FileOffer)
      → ReadsBack O M V g offer
      → serve_bytes O E env g offer.dataset_id ≡ file_answer O E env offer
  unfolding serve_bytes to_string_lossy
  serve_bytes-ReadsBack g offer r =
      elim (Result-cases (env.read (unicode (to_string_lossy offer.file_path)))) [
        | inr (e, p) ↦ rw (r.path, p, serve_bytes, file_answer)
        | inl (content, p) ↦ elim (Option-cases (env.header_error offer.media_type)) [
          | inl k ↦ rw (r.path, p, r.media, k, serve_bytes, file_answer, r.media)
          | inr (e, k) ↦ rw (r.path, p, r.media, k, serve_bytes, file_answer)
        ]
      ]

  pub enforce-ReadsBack :
      (g : ConfigGraph O) (offer : FileOffer)
      → ReadsBack O M V g offer
      → enforce O E env g offer.dataset_id ≡ policy_answer O E env offer
  unfolding enforce
  enforce-ReadsBack g offer r = elim (Result-cases (E.ingest_policy_value (offer_document offer))) [
    | inr (e, p) ↦ rw (r.policy, p, enforce, policy_answer)
    | inl (policy, p) ↦
        elim (WireDecision-cases
          (E.evaluate_request (engine_request O E env.now policy offer.dataset_id)).0) [
            | inr d ↦ rw (r.policy, p, d, enforce, policy_answer)
            | inl d ↦ rw (r.policy, p, d, enforce, policy_answer) (serve_bytes-ReadsBack g offer r)
          ]
  ]
