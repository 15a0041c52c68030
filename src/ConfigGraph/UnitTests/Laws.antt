-- ===== src/ConfigGraph/UnitTests/Laws.antt =====
-- The unit tests pass on every store.
use ds_sql_dps_rs.Prelude.{◌≡◌, ok}
use ds_sql_dps_rs.Oxigraph.{Oxigraph, IsInMemory}
use ds_sql_dps_rs.ConfigGraph.Offer.{FileOffer}
use ds_sql_dps_rs.ConfigGraph.Store.{ConfigGraph, open_in_memory}
use ds_sql_dps_rs.ConfigGraph.Seed.{seed_offer}
use ds_sql_dps_rs.ConfigGraph.Seed.Quads.{IsVocabulary, IsDatasetId}
use ds_sql_dps_rs.ConfigGraph.Policy.{policy_jsonld}
use ds_sql_dps_rs.ConfigGraph.ReadBack.{offer_document}
use ds_sql_dps_rs.ConfigGraph.RoundTrip.{opened}
use ds_sql_dps_rs.ConfigGraph.RoundTrip.Laws.{History-ReadsBack, seed_offer-total}
use ds_sql_dps_rs.ConfigGraph.UnitTests.{
  multi_permission_offer, unconstrained_offer,
  policy_jsonld_preserves_permission_and_constraint_order,
  policy_jsonld_omits_constraint_array_when_permission_has_none,
}

module _ (O : Oxigraph) (M : IsInMemory O) (V : IsVocabulary O) where
  -- What happens to an offer that is seeded into a fresh graph.
  record Seeded (offer : FileOffer) : Type 0 where
    graph : ConfigGraph O
    after : ConfigGraph O
    open_ok : open_in_memory O ≡ ok graph
    seed_ok : seed_offer O offer graph ≡ (ok tt, after)
    read_ok : policy_jsonld O offer.dataset_id after ≡ ok (offer_document offer)

  fresh-Seeded : (offer : FileOffer) → IsDatasetId O offer.dataset_id → Seeded offer
  unfolding open_in_memory
  fresh-Seeded offer D =
      let (s, new, holds) = M.new_lem in
      let graph : ConfigGraph O = record { store = s; blanks = 0 } in
      let open_ok : open_in_memory O ≡ ok graph = rw (new, open_in_memory) in
      let (w, seed_ok, history) = seed_offer-total O M V offer (opened open_ok) D tt in
      record {
        graph = graph;
        after = w;
        open_ok = open_ok;
        seed_ok = seed_ok;
        read_ok = (History-ReadsBack O M V history).0.policy;
      }

  -- On an in-memory store that takes the vocabulary's IRIs and those of the two ids: both unit tests
  -- of the graph run to their end without a panic.
  pub unit_tests-pass :
      IsDatasetId O "multi"
      → IsDatasetId O "no-constraints"
      → (policy_jsonld_preserves_permission_and_constraint_order O ≡ ok tt)
        × (policy_jsonld_omits_constraint_array_when_permission_has_none O ≡ ok tt)
  unfolding policy_jsonld_preserves_permission_and_constraint_order
      policy_jsonld_omits_constraint_array_when_permission_has_none
  unit_tests-pass D E =
      let S = fresh-Seeded multi_permission_offer D in
      let T = fresh-Seeded unconstrained_offer E in
      (rw (S.open_ok, S.seed_ok, S.read_ok), rw (T.open_ok, T.seed_ok, T.read_ok))
