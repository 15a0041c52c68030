-- ===== src/ConfigGraph/RoundTrip/Absent.antt =====
-- The reads of a dataset that was never seeded.
use ds_sql_dps_rs.Prelude.{
  String, true, false, ◌≡◌, refl, List, [], ◌∷◌, All, All-map, ok, err, arith,
}
use ds_sql_dps_rs.Rdf.{Term, named_node, term_eq, Graph}
use ds_sql_dps_rs.Sparql.{TriplePattern, iri, var, get, solutions}
use ds_sql_dps_rs.Sparql.Laws.{objects, basic_pattern-iri}
use ds_sql_dps_rs.Oxigraph.{Oxigraph, IsInMemory}
use ds_sql_dps_rs.ConfigGraph.Vocab.{dcat, ds, odrl}
use ds_sql_dps_rs.ConfigGraph.Offer.{FileOffer}
use ds_sql_dps_rs.ConfigGraph.Store.{
  not_found, distribution_iri, policy_iri, ConfigGraph, select, file_path_query, media_type_query,
  first_value, file_path, media_type,
}
use ds_sql_dps_rs.ConfigGraph.Policy.{header_query, policy_jsonld}
use ds_sql_dps_rs.ConfigGraph.Seed.Quads.{IsVocabulary, IsDatasetId}
use ds_sql_dps_rs.ConfigGraph.Seed.Fresh.{Clear, IsClear}
use ds_sql_dps_rs.ConfigGraph.Queries.{
  value_syntax, header_syntax, Means, file_path_query-Means, media_type_query-Means,
  header_query-Means,
}
use ds_sql_dps_rs.ConfigGraph.ReadBack.{select-ok}
use ds_sql_dps_rs.ConfigGraph.RoundTrip.{IsApart, History}
use ds_sql_dps_rs.ConfigGraph.RoundTrip.Laws.{History-Invariant}

objects-none :
    (s : Term) (p : String) (g : Graph)
    → All (λ q. term_eq s q.subject ≡ false) g
    → objects s p g ≡ []
unfolding objects
objects-none s p [] h = refl
objects-none s p (q ∷ g) h = ground (arith, h.0, objects-none s p g h.1)

-- A pattern that starts at an IRI without quads has no solution.
solutions-none :
    (i p v : String) (pats opts : List TriplePattern) (vs os : List String) (g : Graph)
    → All (λ q. term_eq (named_node i) q.subject ≡ false) g
    → solutions
        (record {
          select = vs;
          pattern = record { subject = iri i; predicate = p; object = var v } ∷ pats;
          optional = opts;
          order_by = os;
        })
        g
      ≡ []
unfolding solutions get
solutions-none i p v pats opts vs os g h =
    rw (basic_pattern-iri [] p v refl i pats g, objects-none (named_node i) p g h)

module _ (O : Oxigraph) (M : IsInMemory O) (V : IsVocabulary O) where
  -- No read finds the dataset.
  pub record IsAbsent (w : ConfigGraph O) (id : String) : Type 0 where
    pub path : file_path O id w ≡ err (not_found id)
    pub media : media_type O id w ≡ err (not_found id)
    pub policy : policy_jsonld O id w ≡ err (not_found id)

  module _ (w : ConfigGraph O) (g : Graph) (id : String) (holds : M.Holds w.store g)
      (D : IsDatasetId O id) (clear : IsClear O M.blank_injective id g) where
    no_value :
        (text p v : String) (refs : List String)
        → Means text (value_syntax (distribution_iri id) p v) refs
        → All (λ i. O.is_iri i ≡ true) refs
        → O.is_iri p ≡ true
        → select O text w ≡ ok []
    no_value text p v refs means written valid =
        select-ok O M V text (value_syntax (distribution_iri id) p v) refs w g [] means holds
          written (D.distribution, (valid, tt))
          (solutions-none (distribution_iri id) p v [] [] (v ∷ []) [] g
            (All-map (Clear O M.blank_injective id) _ (λ q c. c.1) g clear))
          tt tt

    no_header : select O (header_query (policy_iri id)) w ≡ ok []
    no_header =
        select-ok O M V (header_query (policy_iri id)) (header_syntax (policy_iri id)) _ w g []
          (header_query-Means (policy_iri id) (M.iri_lem (policy_iri id) D.policy)) holds
          (V.odrl_ns, (D.policy, tt)) (D.policy, (V.target, (D.policy, (V.assigner, tt))))
          (solutions-none (policy_iri id) (odrl "target") "target" _ [] _ [] g
            (All-map (Clear O M.blank_injective id) _ (λ q c. c.2) g clear))
          tt tt

    clear-IsAbsent : IsAbsent w id
    unfolding file_path media_type policy_jsonld first_value
    clear-IsAbsent = record {
      path = rw (
        file_path,
        no_value (file_path_query (distribution_iri id)) (ds "filePath") "path" _
            (file_path_query-Means _ (M.iri_lem _ D.distribution)) (V.ds_ns, (D.distribution, tt))
            V.file_path,
      );
      media = rw (
        media_type,
        no_value (media_type_query (distribution_iri id)) (dcat "mediaType") "media" _
            (media_type_query-Means _ (M.iri_lem _ D.distribution))
            (V.dcat_ns, (D.distribution, tt)) V.media_type,
      );
      policy = rw (policy_jsonld, no_header);
    }

  -- On an in-memory store that takes the vocabulary's IRIs, after any history of seeding, a dataset
  -- with a valid id that is apart from all that were seeded is not found by any read.
  pub History-IsAbsent :
      {w : ConfigGraph O} {offers : List FileOffer} (id : String)
      → History O M V w offers
      → IsDatasetId O id
      → All (λ o. IsApart o.dataset_id id) offers
      → IsAbsent w id
  History-IsAbsent {w} {offers} id h D apart =
      let inv = History-Invariant O M V h in
      clear-IsAbsent w inv.g id inv.stores.holds D (inv.clear id apart)
