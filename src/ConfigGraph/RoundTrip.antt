-- ===== src/ConfigGraph/RoundTrip.antt =====
-- Histories of seeding, and what it means that an offer reads back.
pub mod Holding
pub mod Kept
pub mod Laws
pub mod Absent
use ds_sql_dps_rs.Prelude.{
  String, ℕ, suc, ◌+◌, ◌≤◌, false, ◌≡◌, refl, ap, sym, ◌∙◌, subst, List, [], ◌∷◌, ◌++◌, length, All,
  All-append, All-map, All-both, ok-injective, ok, arith, ◌==◌,
}
use mathlib.Core.List.{append_assoc, append-nil}
use ds_sql_dps_rs.Rdf.{term_eq, Graph}
use ds_sql_dps_rs.Oxigraph.{Oxigraph, IsInMemory}
use ds_sql_dps_rs.ConfigGraph.Offer.{
  unicode, to_string_lossy, FileOffer, PermissionSpec, ConstraintSpec,
}
use ds_sql_dps_rs.ConfigGraph.Store.{
  dataset_iri, distribution_iri, policy_iri, ConfigGraph, open_in_memory, file_path, media_type,
}
use ds_sql_dps_rs.ConfigGraph.Seed.{seed_offer}
use ds_sql_dps_rs.ConfigGraph.Policy.{policy_jsonld}
use ds_sql_dps_rs.ConfigGraph.Seed.Quads.{
  IsVocabulary, IsDatasetId, header_graph, node, constraints_graph, permissions_graph, next_node,
}
use ds_sql_dps_rs.ConfigGraph.Seed.Below.{IsBelow, next_node-ge}
use ds_sql_dps_rs.ConfigGraph.Seed.Fresh.{Clear, IsClear}
use ds_sql_dps_rs.ConfigGraph.Seed.Facts.{IsAbove, IsAboveTerm, permissions_graph-IsAbove}
use ds_sql_dps_rs.ConfigGraph.Seed.Nodes.{IsAbove-mono}
use ds_sql_dps_rs.ConfigGraph.Seed.HasOffer.{HasOffer, offer_graph, offer_graph-HasOffer}
use ds_sql_dps_rs.ConfigGraph.Seed.Laws.{Stores, seed_offer-Stores}
use ds_sql_dps_rs.ConfigGraph.ReadBack.{
  offer_document, file_path-HasOffer, media_type-HasOffer, policy_jsonld-HasOffer,
}

-- The IRI is none of the dataset's.
abbrev pub NotOf : String → String → Type 0
NotOf id i =
    ((dataset_iri id == i) ≡ false)
    × ((distribution_iri id == i) ≡ false)
    × ((policy_iri id == i) ≡ false)

-- The IRIs of the first dataset are none of the second's.
pub record IsApart (a b : String) : Type 0 where
  pub dataset : NotOf b (dataset_iri a)
  pub distribution : NotOf b (distribution_iri a)
  pub policy : NotOf b (policy_iri a)

module _ (O : Oxigraph) (M : IsInMemory O) (V : IsVocabulary O) where
  -- The graphs that `build` and `on_start` can make: offers seeded in turn, the latest first.
  pub data History : ConfigGraph O → List FileOffer → Type 0 where
    opened : {w : ConfigGraph O} → open_in_memory O ≡ ok w → History w []
    seeded :
        {w w' : ConfigGraph O} {offers : List FileOffer} (offer : FileOffer)
        → History w offers
        → IsDatasetId O offer.dataset_id
        → All
            (λ o. IsApart offer.dataset_id o.dataset_id × IsApart o.dataset_id offer.dataset_id)
            offers
        → seed_offer O offer w ≡ (ok tt, w')
        → History w' (offer ∷ offers)

  -- The offer reads back.
  pub record ReadsBack (w : ConfigGraph O) (offer : FileOffer) : Type 0 where
    pub path : file_path O offer.dataset_id w ≡ ok (unicode (to_string_lossy offer.file_path))
    pub media : media_type O offer.dataset_id w ≡ ok offer.media_type
    pub policy : policy_jsonld O offer.dataset_id w ≡ ok (offer_document offer)
