-- ===== src/Contreforts/Laws.antt =====
-- What the connector answers, and what it refuses.
use ds_sql_dps_rs.Prelude.{
  String, ◌≡◌, Option, none, List, [], ◌∷◌, ok, err, ◌==◌, eq_iff, Bool-cases, inl, inr, arith,
  ok-injective, sym, ◌∙◌, subst, Result-cases,
}
use ds_sql_dps_rs.Oxigraph.{Oxigraph, IsInMemory}
use ds_sql_dps_rs.ConfigGraph.Offer.{to_string_lossy, FileOffer}
use ds_sql_dps_rs.ConfigGraph.Json.{string, obj, end, field}
use ds_sql_dps_rs.ConfigGraph.Store.{ConfigGraph}
use ds_sql_dps_rs.ConfigGraph.Seed.Quads.{IsVocabulary}
use ds_sql_dps_rs.ConfigGraph.ReadBack.{offer_document}
use ds_sql_dps_rs.ConfigGraph.RoundTrip.{ReadsBack}
use ds_sql_dps_rs.Contreforts.{
  data_offer_kind, primary_offer_id, source_name, Document, unsupported_kind,
  require_data_offer_kind, get, pull,
}

-- The document that stands for an offer.
abbrev pub offer_as_document : FileOffer → Document
offer_as_document offer = record {
  name = offer.dataset_id;
  remote_id = offer.dataset_id;
  kind = "ds-sql-dps-rs:data-offer";
  source = "ds-sql-dps-rs";
  modified = none;
  fields = obj (
      field "filePath" (string (to_string_lossy offer.file_path))
        (field "mediaType" (string offer.media_type) (field "policy" (offer_document offer) end)));
}

module _ (O : Oxigraph) where
  -- An offer that reads back is returned by `get`, as its document.
  pub get-ReadsBack :
      (M : IsInMemory O) (V : IsVocabulary O) (graph : ConfigGraph O) (offer : FileOffer)
      → ReadsBack O M V graph offer
      → get O graph data_offer_kind offer.dataset_id ≡ ok (offer_as_document offer)
  unfolding get to_string_lossy
  get-ReadsBack M V graph offer reads = rw (get, reads.path, reads.media, reads.policy)

  -- A `pull` that succeeds was for the data offer kind, and returns one document, the one that
  -- `get` returns for the primary offer.
  pub pull_ok :
      (graph : ConfigGraph O) (kind : String) (since : Option String) (docs : List Document)
      → pull O graph kind since ≡ ok docs
      → (kind ≡ data_offer_kind)
        × (doc : Document) × (docs ≡ doc ∷ [])
        × (get O graph data_offer_kind primary_offer_id ≡ ok doc)
  unfolding pull
  pull_ok graph kind since docs h = elim (Bool-cases (kind == data_offer_kind)) [
    | inr ne ↦
        let refused : require_data_offer_kind kind ≡ err (unsupported_kind source_name kind) =
          unfold require_data_offer_kind in rw ne in
        absurd (ground (arith, refused))
    | inl e ↦
        let same : kind ≡ data_offer_kind = (eq_iff kind data_offer_kind).0 e in
        let supported : require_data_offer_kind kind ≡ ok tt =
          unfold require_data_offer_kind in rw e in
        elim (Result-cases (get O graph kind primary_offer_id)) [
          | inr (x, g) ↦ absurd (ground (arith, supported, g))
          | inl (doc, g) ↦
              let pulled : pull O graph kind since ≡ ok (doc ∷ []) = rw (pull, supported, g) in
              (
                same,
                doc,
                ok-injective (sym h ∙ pulled),
                subst (λ k. get O graph k primary_offer_id ≡ ok doc) same g,
              )
        ]
  ]
