-- ===== src/Tests/Offers.antt =====
-- The graph as a map of offers on the concrete store, and the connector over it.
use ds_sql_dps_rs.Prelude.{
  String, true, false, ◌≡◌, ◌≢◌, refl, sym, none, some, List, [], ◌∷◌, All, ok, err, ◌⊎◌, ◌==◌,
  ◌++◌, eq_iff, if◌then◌else◌,
}
use ds_sql_dps_rs.Oxigraph.{Oxigraph}
use ds_sql_dps_rs.ConfigGraph.Store.{ConfigGraph, ConfigGraphError, storage, invalid_iri}
use ds_sql_dps_rs.ConfigGraph.Seed.{seed_offer, offer_quads, insert_quads}
use ds_sql_dps_rs.ConfigGraph.Seed.Quads.{IsDatasetId}
use ds_sql_dps_rs.ConfigGraph.Seed.Errors.{Stopped, seed_offer_err}
use ds_sql_dps_rs.ConfigGraph.Ids.{has_hash, plain-IsApart}
use ds_sql_dps_rs.ConfigGraph.RoundTrip.{IsApart, History}
use ds_sql_dps_rs.ConfigGraph.RoundTrip.Absent.{IsAbsent, History-IsAbsent}
use ds_sql_dps_rs.ConfigGraph.Offers.{find_offer, ReadsAs, History-ReadsAs, seed_all-total}
use ds_sql_dps_rs.Contreforts.{
  data_offer_kind, primary_offer_id, source_name, unsupported_kind, get, pull,
}
use ds_sql_dps_rs.Contreforts.Offers.{found_document, as_list, get_refines, pull_refines}
use ds_sql_dps_rs.Tests.Memory.{memory, memory-IsInMemory}
use ds_sql_dps_rs.Tests.ConfigGraph.{vocabulary, sales, stock, both_graph, both-History, stock_id}
use ds_sql_dps_rs.Tests.Startup.{primary}

ids_plain : All (λ o. has_hash o.dataset_id ≡ false) (stock ∷ sales ∷ [])
unfolding has_hash
ids_plain = (refl, (refl, tt))

stock_ne : ◌≢◌ {A = String} "stock" "sales"
stock_ne e = let clash : false ≡ true = (eq_iff "stock" "sales").1 e in cc (clash)

plain-IsApart_example : IsApart "stock" "sales"
plain-IsApart_example = plain-IsApart "stock" "sales" stock_ne ids_plain.0 ids_plain.1.0

History-ReadsAs_example :
    ReadsAs memory memory-IsInMemory vocabulary both_graph (stock ∷ sales ∷ []) "stock"
History-ReadsAs_example =
    History-ReadsAs memory memory-IsInMemory vocabulary "stock" both-History ids_plain stock_id
      ids_plain.0

pub sales_id : IsDatasetId memory "sales"
unfolding ds_sql_dps_rs.ConfigGraph.Store.dataset_iri ds_sql_dps_rs.Sparql.Text.is_iri_char
    ds_sql_dps_rs.ConfigGraph.Store.distribution_iri ds_sql_dps_rs.ConfigGraph.Store.policy_iri
sales_id = record { dataset = refl; distribution = refl; policy = refl }

seed_all-total_example :
    (w : ConfigGraph memory) × History memory memory-IsInMemory vocabulary w (stock ∷ sales ∷ [])
seed_all-total_example =
    seed_all-total memory memory-IsInMemory vocabulary (stock ∷ sales ∷ [])
      (stock_id, ids_plain.0, ((λ e. stock_ne (sym e)), tt), (sales_id, ids_plain.1.0, tt, tt))

get_refines_example : get memory both_graph "file" "stock" ≡ (
    if "file" == data_offer_kind
    then found_document "stock" (find_offer "stock" (stock ∷ sales ∷ []))
    else err (unsupported_kind source_name "file"))
get_refines_example =
    get_refines memory memory-IsInMemory vocabulary "file" "stock" both-History ids_plain stock_id
      ids_plain.0

pull_refines_example : pull memory both_graph data_offer_kind none ≡ (
    if data_offer_kind == data_offer_kind
    then as_list
        (found_document primary_offer_id (find_offer primary_offer_id (stock ∷ sales ∷ [])))
    else err (unsupported_kind source_name data_offer_kind))
pull_refines_example =
    pull_refines memory memory-IsInMemory vocabulary data_offer_kind none both-History ids_plain
      primary

-- A store that refuses every quad.
abbrev full : Oxigraph
full = record memory { insert = λ s q. err "disk full" }

abbrev full_graph : ConfigGraph full
full_graph = record { store = []; blanks = 0 }

abbrev full_after : ConfigGraph full
full_after = (seed_offer full stock full_graph).1

refused_stock : seed_offer full stock full_graph ≡ (err (storage "disk full"), full_after)
unfolding seed_offer ds_sql_dps_rs.ConfigGraph.Seed.offer_quads
    ds_sql_dps_rs.ConfigGraph.Seed.insert_quads ds_sql_dps_rs.ConfigGraph.Store.dataset_iri
    ds_sql_dps_rs.Sparql.Text.is_iri_char ds_sql_dps_rs.ConfigGraph.Store.distribution_iri
    ds_sql_dps_rs.ConfigGraph.Store.policy_iri
refused_stock = refl

seed_offer_err_example :
    ((m : String) × (Path ConfigGraphError (storage "disk full") (invalid_iri m))
      × (full_after ≡ full_graph))
    ⊎ ((r : List ds_sql_dps_rs.Rdf.Quad × ds_sql_dps_rs.Prelude.ℕ) × (offer_quads full 0 stock
          ≡ ok r)
        × Stopped full [] r.0 (storage "disk full") full_after.store)
seed_offer_err_example =
    seed_offer_err full stock full_graph full_after (storage "disk full") refused_stock

other_id : IsDatasetId memory "other"
unfolding ds_sql_dps_rs.ConfigGraph.Store.dataset_iri ds_sql_dps_rs.Sparql.Text.is_iri_char
    ds_sql_dps_rs.ConfigGraph.Store.distribution_iri ds_sql_dps_rs.ConfigGraph.Store.policy_iri
other_id = record { dataset = refl; distribution = refl; policy = refl }

others-IsApart : IsApart "stock" "other" × IsApart "sales" "other"
unfolding ds_sql_dps_rs.ConfigGraph.Store.dataset_iri
    ds_sql_dps_rs.ConfigGraph.Store.distribution_iri ds_sql_dps_rs.ConfigGraph.Store.policy_iri
others-IsApart = (
  record {
    dataset = (refl, refl, refl);
    distribution = (refl, refl, refl);
    policy = (refl, refl, refl);
  },
  record {
    dataset = (refl, refl, refl);
    distribution = (refl, refl, refl);
    policy = (refl, refl, refl);
  },
)

History-IsAbsent_example : IsAbsent memory memory-IsInMemory vocabulary both_graph "other"
History-IsAbsent_example =
    History-IsAbsent memory memory-IsInMemory vocabulary "other" both-History other_id
      (others-IsApart.0, (others-IsApart.1, tt))
