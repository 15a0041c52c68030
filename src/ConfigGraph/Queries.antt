-- ===== src/ConfigGraph/Queries.antt =====
-- What the texts of the queries of config-graph/src/store.rs mean.
use ds_sql_dps_rs.Prelude.{String, ◌<>◌, true, ◌≡◌, refl, ap, some, List, [], ◌∷◌}
use ds_sql_dps_rs.Sparql.{Query, iri, var}
use ds_sql_dps_rs.Sparql.Text.{finish}
use ds_sql_dps_rs.Sparql.Text.Lexing.{is_iri_text}
use ds_sql_dps_rs.Sparql.Text.Parsing.{scan-with_iri}
use ds_sql_dps_rs.Sparql.Grammar.{parse, parsed}
use ds_sql_dps_rs.ConfigGraph.Vocab.{dcat_ns, ds_ns, odrl_ns, dcat, ds, odrl}
use ds_sql_dps_rs.ConfigGraph.Store.{file_path_query, media_type_query}
use ds_sql_dps_rs.ConfigGraph.Policy.{header_query, rows_query}

-- `SELECT ?v WHERE { <distribution> predicate ?v }`
abbrev pub value_syntax : String → String → String → Query
value_syntax distribution predicate v = record {
  select = v ∷ [];
  pattern = record { subject = iri distribution; predicate = predicate; object = var v } ∷ [];
  optional = [];
  order_by = [];
}

abbrev pub header_syntax : String → Query
header_syntax policy = record {
  select = "target" ∷ "assigner" ∷ [];
  pattern =
      record { subject = iri policy; predicate = odrl "target"; object = var "target" }
      ∷ record { subject = iri policy; predicate = odrl "assigner"; object = var "assigner" }
      ∷ [];
  optional = [];
  order_by = [];
}

abbrev pub rows_syntax : String → Query
rows_syntax policy = record {
  select = "p" ∷ "porder" ∷ "action" ∷ "corder" ∷ "left" ∷ "op" ∷ "right" ∷ [];
  pattern =
      record { subject = iri policy; predicate = odrl "permission"; object = var "p" }
      ∷ record { subject = var "p"; predicate = ds "order"; object = var "porder" }
      ∷ record { subject = var "p"; predicate = odrl "action"; object = var "action" }
      ∷ [];
  optional =
      record { subject = var "p"; predicate = odrl "constraint"; object = var "c" }
      ∷ record { subject = var "c"; predicate = ds "order"; object = var "corder" }
      ∷ record { subject = var "c"; predicate = odrl "leftOperand"; object = var "left" }
      ∷ record { subject = var "c"; predicate = odrl "operator"; object = var "op" }
      ∷ record { subject = var "c"; predicate = odrl "rightOperand"; object = var "right" }
      ∷ [];
  order_by = "porder" ∷ "corder" ∷ [];
}

-- A text that means a query and writes these IRIs in full.
abbrev pub Means : String → Query → List String → Type 0
Means text q refs = parse text ≡ some (record { query = q; refs = refs })

module _ (i : String) (h : is_iri_text i ≡ true) where
  pub file_path_query-Means :
      Means (file_path_query i) (value_syntax i (ds "filePath") "path") (ds_ns ∷ i ∷ [])
  unfolding parse file_path_query
  file_path_query-Means =
      ap (λ l. parsed (finish l.tokens l.mode))
        (scan-with_iri ("PREFIX ds: <" <> (ds_ns <> ">\n               SELECT ?path WHERE { <")) i
          "> ds:filePath ?path }" _ h refl)

  pub media_type_query-Means :
      Means (media_type_query i) (value_syntax i (dcat "mediaType") "media") (dcat_ns ∷ i ∷ [])
  unfolding parse media_type_query
  media_type_query-Means =
      ap (λ l. parsed (finish l.tokens l.mode))
        (scan-with_iri
          ("PREFIX dcat: <" <> (dcat_ns <> ">\n               SELECT ?media WHERE { <")) i
          "> dcat:mediaType ?media }" _ h refl)

  pub header_query-Means : Means (header_query i) (header_syntax i) (odrl_ns ∷ i ∷ [])
  unfolding parse header_query
  header_query-Means =
      ap (λ l. parsed (finish l.tokens l.mode))
        (scan-with_iri _ i "> odrl:target ?target ; odrl:assigner ?assigner .\n               }" _ h
          refl)

  pub rows_query-Means : Means (rows_query i) (rows_syntax i) (odrl_ns ∷ ds_ns ∷ i ∷ [])
  unfolding parse rows_query
  rows_query-Means = ap (λ l. parsed (finish l.tokens l.mode)) (scan-with_iri _ i _ _ h refl)

-- For every text of characters that an IRI may have between `<` and `>`: each of the four texts that
-- the graph is read by, with this IRI put in, is a query of the grammar. It means the patterns, the
-- optional part, the order and the variables that the reads rely on, about this IRI alone, and the
-- IRIs that it writes in full are those of its prefixes and this one.
pub queries-Means :
    (i : String)
    → is_iri_text i ≡ true
    → Means (file_path_query i) (value_syntax i (ds "filePath") "path") (ds_ns ∷ i ∷ [])
      × Means (media_type_query i) (value_syntax i (dcat "mediaType") "media") (dcat_ns ∷ i ∷ [])
      × Means (header_query i) (header_syntax i) (odrl_ns ∷ i ∷ [])
      × Means (rows_query i) (rows_syntax i) (odrl_ns ∷ ds_ns ∷ i ∷ [])
queries-Means i h = (
  file_path_query-Means i h,
  media_type_query-Means i h,
  header_query-Means i h,
  rows_query-Means i h,
)
