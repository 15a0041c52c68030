-- ===== src/Tests/ConfigGraph.antt =====
-- The configuration graph on a concrete store.
use ds_sql_dps_rs.Prelude.{◌≡◌, refl, [], ◌∷◌, All, ok}
use ds_sql_dps_rs.ConfigGraph.Offer.{unicode, FileOffer}
use ds_sql_dps_rs.ConfigGraph.Store.{ConfigGraph, open_in_memory}
use ds_sql_dps_rs.ConfigGraph.Seed.{seed_offer}
use ds_sql_dps_rs.ConfigGraph.Seed.Quads.{IsVocabulary, IsDatasetId}
use ds_sql_dps_rs.ConfigGraph.RoundTrip.{IsApart, History, opened, seeded, ReadsBack}
use ds_sql_dps_rs.ConfigGraph.RoundTrip.Laws.{History-ReadsBack, seed_offer-total}
use ds_sql_dps_rs.Tests.Memory.{memory, memory-IsInMemory}

pub vocabulary : IsVocabulary memory
unfolding ds_sql_dps_rs.Sparql.Text.is_iri_char
vocabulary = record {
  dcat_ns = refl;
  odrl_ns = refl;
  ds_ns = refl;
  rdf_type = refl;
  dataset_class = refl;
  title = refl;
  distribution = refl;
  distribution_class = refl;
  file_path = refl;
  media_type = refl;
  offer_class = refl;
  target = refl;
  assigner = refl;
  integer = refl;
  permission = refl;
  permission_class = refl;
  order = refl;
  action = refl;
  constraint = refl;
  left_operand = refl;
  operator = refl;
  right_operand = refl;
}

-- A graph without offers.
abbrev pub empty_graph : ConfigGraph memory
empty_graph = record { store = []; blanks = 0 }

-- The demo offer of `dataplane/src/config.rs`, with a spatial constraint and a second permission.
abbrev pub sales : FileOffer
sales = record {
  dataset_id = "sales";
  title = "Demo sales extract";
  file_path = unicode "data/sample.csv";
  media_type = "text/csv";
  assigner = "urn:ds-sql-dps-rs:provider";
  permissions =
      record {
        action = "use";
        constraints =
            record {
              left_operand = "dateTime";
              operator = "lt";
              right_operand = "2099-01-01T00:00:00Z";
            }
            ∷ record { left_operand = "spatial"; operator = "eq"; right_operand = "EU" }
            ∷ [];
      }
      ∷ record { action = "read"; constraints = [] }
      ∷ [];
}

abbrev pub stock : FileOffer
stock = record {
  dataset_id = "stock";
  title = "Stock";
  file_path = unicode "data/stock.csv";
  media_type = "text/plain";
  assigner = "urn:ds-sql-dps-rs:provider";
  permissions = [];
}

abbrev pub sales_graph : ConfigGraph memory
sales_graph = (seed_offer memory sales empty_graph).1

abbrev pub both_graph : ConfigGraph memory
both_graph = (seed_offer memory stock sales_graph).1

seeded_sales : seed_offer memory sales empty_graph ≡ (ok tt, sales_graph)
unfolding seed_offer ds_sql_dps_rs.ConfigGraph.Seed.offer_quads
    ds_sql_dps_rs.ConfigGraph.Seed.insert_quads ds_sql_dps_rs.ConfigGraph.Store.dataset_iri
    ds_sql_dps_rs.Sparql.Text.is_iri_char ds_sql_dps_rs.ConfigGraph.Store.distribution_iri
    ds_sql_dps_rs.ConfigGraph.Store.policy_iri
seeded_sales = refl

seeded_stock : seed_offer memory stock sales_graph ≡ (ok tt, both_graph)
unfolding seed_offer ds_sql_dps_rs.ConfigGraph.Seed.offer_quads
    ds_sql_dps_rs.ConfigGraph.Seed.insert_quads ds_sql_dps_rs.ConfigGraph.Store.dataset_iri
    ds_sql_dps_rs.Sparql.Text.is_iri_char ds_sql_dps_rs.ConfigGraph.Store.distribution_iri
    ds_sql_dps_rs.ConfigGraph.Store.policy_iri
seeded_stock = refl

pub opened_empty : open_in_memory memory ≡ ok empty_graph
unfolding open_in_memory
opened_empty = refl

pub sales-History : History memory memory-IsInMemory vocabulary sales_graph (sales ∷ [])
unfolding ds_sql_dps_rs.ConfigGraph.Store.dataset_iri ds_sql_dps_rs.Sparql.Text.is_iri_char
    ds_sql_dps_rs.ConfigGraph.Store.distribution_iri ds_sql_dps_rs.ConfigGraph.Store.policy_iri
sales-History =
    seeded sales (opened opened_empty)
      (record { dataset = refl; distribution = refl; policy = refl }) tt seeded_sales

pub stock-IsApart : IsApart "stock" "sales"
unfolding ds_sql_dps_rs.ConfigGraph.Store.dataset_iri
    ds_sql_dps_rs.ConfigGraph.Store.distribution_iri ds_sql_dps_rs.ConfigGraph.Store.policy_iri
stock-IsApart = record {
  dataset = (refl, refl, refl);
  distribution = (refl, refl, refl);
  policy = (refl, refl, refl);
}

pub sales-IsApart : IsApart "sales" "stock"
unfolding ds_sql_dps_rs.ConfigGraph.Store.dataset_iri
    ds_sql_dps_rs.ConfigGraph.Store.distribution_iri ds_sql_dps_rs.ConfigGraph.Store.policy_iri
sales-IsApart = record {
  dataset = (refl, refl, refl);
  distribution = (refl, refl, refl);
  policy = (refl, refl, refl);
}

pub stock_id : IsDatasetId memory "stock"
unfolding ds_sql_dps_rs.ConfigGraph.Store.dataset_iri ds_sql_dps_rs.Sparql.Text.is_iri_char
    ds_sql_dps_rs.ConfigGraph.Store.distribution_iri ds_sql_dps_rs.ConfigGraph.Store.policy_iri
stock_id = record { dataset = refl; distribution = refl; policy = refl }

pub both-History : History memory memory-IsInMemory vocabulary both_graph (stock ∷ sales ∷ [])
both-History = seeded stock sales-History stock_id ((stock-IsApart, sales-IsApart), tt) seeded_stock

History-ReadsBack_example :
    All (ReadsBack memory memory-IsInMemory vocabulary both_graph) (stock ∷ sales ∷ [])
History-ReadsBack_example = History-ReadsBack memory memory-IsInMemory vocabulary both-History

seed_offer-total_example :
    (w : ConfigGraph memory) × (seed_offer memory stock sales_graph ≡ (ok tt, w))
    × History memory memory-IsInMemory vocabulary w (stock ∷ sales ∷ [])
seed_offer-total_example =
    seed_offer-total memory memory-IsInMemory vocabulary stock sales-History stock_id
      ((stock-IsApart, sales-IsApart), tt)
