-- ===== src/Dataplane/Handler/Seeding.antt =====
-- dataplane/src/handler.rs in TCK mode: a start for an unknown dataset seeds an offer.
use ds_sql_dps_rs.Prelude.{ℕ, ◌≡◌, true, some, List, ◌∷◌, All, ok, err, eq_refl, String}
use ds_sql_dps_rs.Oxigraph.{Oxigraph, IsInMemory}
use ds_sql_dps_rs.ConfigGraph.Offer.{FileOffer}
use ds_sql_dps_rs.ConfigGraph.Store.{ConfigGraphError, file_path}
use ds_sql_dps_rs.ConfigGraph.Seed.Quads.{IsVocabulary, IsDatasetId}
use ds_sql_dps_rs.ConfigGraph.RoundTrip.{IsApart, History}
use ds_sql_dps_rs.ConfigGraph.RoundTrip.Laws.{seed_offer-total}
use ds_sql_dps_rs.Dataplane.Tokens.{issue, lookup}
use ds_sql_dps_rs.Dataplane.Tokens.Laws.{lookup-issue}
use ds_sql_dps_rs.Dataplane.Handler.{
  World, DataFlow, FileOfferHandler, auto_offer, status_message, on_start,
}
use ds_sql_dps_rs.Dataplane.Handler.Admission.{admit-seeded, issued_world, on_start-admitted}

module _ (O : Oxigraph) (M : IsInMemory O) (V : IsVocabulary O) (uuid : ℕ → String) where
  -- On an in-memory store that takes the vocabulary's IRIs, in TCK mode, on a graph that a history of
  -- seedings made, the start of a flow for a dataset that is not found, with a valid id and apart
  -- from all seeded ones, succeeds: the default offer is seeded under this id, which continues the
  -- history, and the new token is worth the dataset.
  pub on_start-seeded :
      (h : FileOfferHandler) (flow : DataFlow) (w : World O) (offers : List FileOffer)
      (e : ConfigGraphError)
      → h.tck_mode ≡ true
      → file_path O flow.dataset_id w.graph ≡ err e
      → History O M V w.graph offers
      → IsDatasetId O flow.dataset_id
      → All
          (λ o. IsApart flow.dataset_id o.dataset_id × IsApart o.dataset_id flow.dataset_id)
          offers
      → (w' : World O) × (on_start O uuid h flow w
          ≡ (ok (status_message O h flow (uuid w.tokens.issued)), w'))
        × History O M V w'.graph (auto_offer O h flow ∷ offers)
        × (lookup (uuid w.tokens.issued) w'.tokens
            ≡ some (record { flow_id = flow.id; dataset_id = flow.dataset_id }))
  unfolding issue
  on_start-seeded h flow w offers e tck unknown history D apart =
      let (g, seeded, history') = seed_offer-total O M V (auto_offer O h flow) history D apart in
      (
        issued_world O h flow uuid w g,
        on_start-admitted O h flow uuid w g (admit-seeded O h flow w.graph g e unknown tck seeded),
        history',
        rw (
          lookup-issue uuid flow.id flow.dataset_id (uuid w.tokens.issued) w.tokens,
          eq_refl (uuid w.tokens.issued),
        ),
      )
