-- ===== src/Contreforts/Offers.antt =====
-- The connector of contreforts-connector/src/lib.rs on a graph that is read as a map of offers.
use ds_sql_dps_rs.Prelude.{
  String, ◌≡◌, refl, false, Option, none, some, List, [], ◌∷◌, All, Result, ok, err, ◌==◌, eq_iff,
  subst, Bool-cases, Option-cases, inl, inr, if◌then◌else◌, sym, ap, ◌∙◌, arith, Result-cases,
}
use ds_sql_dps_rs.Oxigraph.{Oxigraph, IsInMemory}
use ds_sql_dps_rs.ConfigGraph.Offer.{to_string_lossy, FileOffer}
use ds_sql_dps_rs.ConfigGraph.Json.{string, obj, end, field}
use ds_sql_dps_rs.ConfigGraph.Store.{ConfigGraph, not_found, display}
use ds_sql_dps_rs.ConfigGraph.Seed.Quads.{IsVocabulary, IsDatasetId}
use ds_sql_dps_rs.ConfigGraph.ReadBack.{offer_document}
use ds_sql_dps_rs.ConfigGraph.RoundTrip.{History}
use ds_sql_dps_rs.ConfigGraph.Ids.{has_hash}
use ds_sql_dps_rs.ConfigGraph.Offers.{find_offer, ReadsAs, History-ReadsAs}
use ds_sql_dps_rs.Contreforts.{
  data_offer_kind, primary_offer_id, source_name, ConnectorError, unsupported_kind, api, Document,
  require_data_offer_kind, get, pull,
}

-- The document of what is found under an id.
abbrev pub found_document : String → Option FileOffer → Result ConnectorError Document
found_document id none = err (api (display (not_found id)))
found_document id (some o) = ok (record {
  name = id;
  remote_id = id;
  kind = "ds-sql-dps-rs:data-offer";
  source = "ds-sql-dps-rs";
  modified = none;
  fields = obj (
      field "filePath" (string (to_string_lossy o.file_path))
        (field "mediaType" (string o.media_type) (field "policy" (offer_document o) end)));
})

abbrev pub as_list : Result ConnectorError Document → Result ConnectorError (List Document)
as_list (ok doc) = ok (doc ∷ [])
as_list (err e) = err e

module _ (O : Oxigraph) (M : IsInMemory O) (V : IsVocabulary O) where
  get-ReadsAs :
      (w : ConfigGraph O) (offers : List FileOffer) (id : String)
      → ReadsAs O M V w offers id
      → get O w data_offer_kind id ≡ found_document id (find_offer id offers)
  unfolding get to_string_lossy
  get-ReadsAs w offers id r = elim (Option-cases (find_offer id offers)) [
    | inl e ↦ rw (get, r.path, e)
    | inr (o, e) ↦ rw (get, r.path, r.media, r.policy, e)
  ]

  require-refused :
      (kind : String)
      → (kind == data_offer_kind) ≡ false
      → require_data_offer_kind kind ≡ err (unsupported_kind source_name kind)
  unfolding require_data_offer_kind
  require-refused kind ne = rw ne

  get-refused :
      (w : ConfigGraph O) (kind id : String)
      → (kind == data_offer_kind) ≡ false
      → get O w kind id ≡ err (unsupported_kind source_name kind)
  unfolding get
  get-refused w kind id ne = rw (require-refused kind ne, get)

  -- On an in-memory store that takes the vocabulary's IRIs, after any history of seeding offers under
  -- ids without a `#`, for each valid id without one: `get` returns the document of the offer that
  -- the map of offers has under the id, an error if it has none, and another error for each other
  -- kind.
  pub get_refines :
      {w : ConfigGraph O} {offers : List FileOffer} (kind id : String)
      → History O M V w offers
      → All (λ o. has_hash o.dataset_id ≡ false) offers
      → IsDatasetId O id
      → has_hash id ≡ false
      → get O w kind id ≡ (
          if kind == data_offer_kind
          then found_document id (find_offer id offers)
          else err (unsupported_kind source_name kind))
  get_refines {w} {offers} kind id history all D plain =
      elim (Bool-cases (kind == data_offer_kind)) [
        | inr ne ↦ rw ne (get-refused w kind id ne)
        | inl e ↦
            let same : data_offer_kind ≡ kind = sym ((eq_iff kind data_offer_kind).0 e) in
            rw e (
              subst (λ k. get O w k id ≡ found_document id (find_offer id offers)) same
                (get-ReadsAs w offers id (History-ReadsAs O M V id history all D plain)))
      ]

  pull-get :
      (w : ConfigGraph O) (kind : String) (since : Option String)
      → pull O w kind since ≡ as_list (get O w kind primary_offer_id)
  unfolding pull
  pull-get w kind since = elim (Bool-cases (kind == data_offer_kind)) [
    | inr ne ↦ rw (require-refused kind ne, get-refused w kind primary_offer_id ne, pull)
    | inl e ↦
        let supported : require_data_offer_kind kind ≡ ok tt =
          unfold require_data_offer_kind in rw e in
        elim (Result-cases (get O w kind primary_offer_id)) [
          | inl (doc, g) ↦ rw (pull, supported, g)
          | inr (x, g) ↦ rw (pull, supported, g)
        ]
  ]

  -- On an in-memory store that takes the vocabulary's IRIs and those of the id `primary`, after any
  -- history of seeding offers under ids without a `#`: `pull` returns the one document of the offer
  -- under the id `primary`, an error if there is none, whatever other offers the graph has, and
  -- another error for each other kind.
  pub pull_refines :
      {w : ConfigGraph O} {offers : List FileOffer} (kind : String) (since : Option String)
      → History O M V w offers
      → All (λ o. has_hash o.dataset_id ≡ false) offers
      → IsDatasetId O primary_offer_id
      → pull O w kind since ≡ (
          if kind == data_offer_kind
          then as_list (found_document primary_offer_id (find_offer primary_offer_id offers))
          else err (unsupported_kind source_name kind))
  unfolding has_hash
  pull_refines {w} {offers} kind since history all D =
      pull-get w kind since
      ∙ ap as_list (get_refines kind primary_offer_id history all D refl)
      ∙ ground (arith)
