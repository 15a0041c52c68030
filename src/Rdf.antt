-- ===== src/Rdf.antt =====
-- RDF terms and quads, as `oxigraph::model` has them. All quads of the program stand in the
-- default graph (`GraphName::DefaultGraph`), so a quad is written without its graph name.
pub mod Laws
use ds_sql_dps_rs.Prelude.{String, Bool, true, false, ◌==◌, ◌&&◌, List}

-- `Term`: a simple literal has the datatype `xsd:string`, a typed one names its own.
pub data Term : Type 0 where
  named_node : String → Term
  blank_node : String → Term
  simple_literal : String → Term
  typed_literal : (value datatype : String) → Term

unfoldable pub term_eq : Term → Term → Bool
term_eq (named_node a) (named_node b) = a == b
term_eq (blank_node a) (blank_node b) = a == b
term_eq (simple_literal a) (simple_literal b) = a == b
term_eq (typed_literal a d) (typed_literal b e) = a == b && d == e
term_eq (named_node a) _ = false
term_eq (blank_node a) _ = false
term_eq (simple_literal a) _ = false
term_eq (typed_literal a d) _ = false

-- `Quad`; the predicate is a named node, given by its IRI.
pub record Quad : Type 0 where
  pub subject : Term
  pub predicate : String
  pub object : Term

unfoldable pub quad_eq : Quad → Quad → Bool
unfolding term_eq
quad_eq a b =
    a.predicate == b.predicate && (term_eq a.object b.object && term_eq a.subject b.subject)

-- The quads that a store holds.
abbrev pub Graph : Type 0
Graph = List Quad
