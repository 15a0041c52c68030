-- ===== src/ConfigGraph/Vocab.antt =====
-- config-graph/src/vocab.rs: the namespaces and the IRIs of their terms.
use ds_sql_dps_rs.Prelude.{String, ◌<>◌}

abbrev pub dcat_ns : String
dcat_ns = "http://www.w3.org/ns/dcat#"

abbrev pub dcterms_ns : String
dcterms_ns = "http://purl.org/dc/terms/"

abbrev pub odrl_ns : String
odrl_ns = "http://www.w3.org/ns/odrl/2/"

abbrev pub xsd_ns : String
xsd_ns = "http://www.w3.org/2001/XMLSchema#"

abbrev pub rdf_ns : String
rdf_ns = "http://www.w3.org/1999/02/22-rdf-syntax-ns#"

abbrev pub ds_ns : String
ds_ns = "https://ds42.org/ontologies/ds-sql-dps-rs#"

abbrev pub odrl : String → String
odrl term = odrl_ns <> term

abbrev pub dcat : String → String
dcat term = dcat_ns <> term

abbrev pub dcterms : String → String
dcterms term = dcterms_ns <> term

abbrev pub ds : String → String
ds term = ds_ns <> term

abbrev pub rdf : String → String
rdf term = rdf_ns <> term

abbrev pub xsd : String → String
xsd term = xsd_ns <> term
