-- ===== src/Sparql.antt =====
-- The SPARQL queries that the configuration graph asks, as syntax, with the meaning that the SPARQL
-- recommendation gives them: basic graph patterns, OPTIONAL, ORDER BY and the projection of SELECT.
pub mod Laws
pub mod Text
pub mod Grammar
use ds_sql_dps_rs.Prelude.{
  String, ℕ, Bool, true, false, ◌≡◌, Option, none, some, List, [], ◌∷◌, ◌++◌, map, flat_map,
  filter_map, All, ◌==◌, ◌&&◌, ltb, nat_eq, if◌then◌else◌,
}
use ds_sql_dps_rs.Prelude.Decimal.{integer_value}
use ds_sql_dps_rs.Rdf.{
  Term, named_node, blank_node, simple_literal, typed_literal, term_eq, Quad, Graph,
}

pub data Node : Type 0 where
  iri : String → Node
  var : String → Node

-- One triple of a pattern; its predicate is always an IRI here.
pub record TriplePattern : Type 0 where
  pub subject : Node
  pub predicate : String
  pub object : Node

-- `SELECT … WHERE { where OPTIONAL { optional } } ORDER BY …`
pub record Query : Type 0 where
  pub select : List String
  pub pattern : List TriplePattern
  pub optional : List TriplePattern
  pub order_by : List String

-- A solution maps variables to terms.
abbrev pub Solution : Type 0
Solution = List (String × Term)

-- `QuerySolution::get`
unfoldable pub get : String → Solution → Option Term
get v [] = none
get v ((w, t) ∷ sol) = if v == w then some t else get v sol

-- A node of a pattern against a term: a variable is bound, or has this value already.
unfoldable pub extend : Solution → Node → Term → Option Solution
unfolding term_eq get
extend sol (iri i) t = if term_eq (named_node i) t then some sol else none
extend sol (var v) t = elim (get v sol) [
  | none ↦ some ((v, t) ∷ sol)
  | some u ↦ if term_eq u t then some sol else none
]

unfoldable pub match_quad : TriplePattern → Solution → Quad → Option Solution
unfolding extend
match_quad pat sol q =
    if pat.predicate == q.predicate
    then (elim (extend sol pat.subject q.subject) [
      | none ↦ none
      | some sol' ↦ extend sol' pat.object q.object
    ])
    else none

-- A basic graph pattern: each of its triples is matched in turn.
unfoldable pub basic_pattern : Graph → List TriplePattern → Solution → List Solution
unfolding match_quad
basic_pattern g [] sol = sol ∷ []
basic_pattern g (pat ∷ pats) sol =
    flat_map (basic_pattern g pats) (filter_map (match_quad pat sol) g)

-- A solution that OPTIONAL does not extend is kept as it is.
abbrev pub or_self : Solution → List Solution → List Solution
or_self sol [] = sol ∷ []
or_self sol (s ∷ ss) = s ∷ ss

unfoldable pub solutions : Query → Graph → List Solution
unfolding basic_pattern
solutions q g =
    flat_map (λ sol. or_self sol (basic_pattern g q.optional sol)) (basic_pattern g q.pattern [])

-- The projection of one solution to the selected variables.
unfoldable pub project : List String → Solution → Solution
unfolding get
project [] sol = []
project (v ∷ vs) sol = elim (get v sol) [ none ↦ project vs sol | some t ↦ (v, t) ∷ project vs sol ]

-- The number that an `xsd:integer` literal stands for.
unfoldable pub integer_of : Term → Option ℕ
unfolding integer_value
integer_of (typed_literal value datatype) =
    if datatype == "http://www.w3.org/2001/XMLSchema#integer" then integer_value value else none
integer_of (named_node i) = none
integer_of (blank_node b) = none
integer_of (simple_literal s) = none

-- The value that ORDER BY sorts a variable by: none if it is unbound.
unfoldable pub sort_value : Option Term → Option ℕ
unfolding integer_of
sort_value none = none
sort_value (some t) = integer_of t

unfoldable pub sort_key : List String → Solution → List (Option ℕ)
unfolding get sort_value
sort_key vs sol = map (λ v. sort_value (get v sol)) vs

-- ORDER BY: unbound values come first, integers by value, the next variable decides ties.
abbrev pub value_lt : Option ℕ → Option ℕ → Bool
value_lt none none = false
value_lt none (some m) = true
value_lt (some n) none = false
value_lt (some n) (some m) = ltb n m

abbrev pub value_eq : Option ℕ → Option ℕ → Bool
value_eq none none = true
value_eq (some n) (some m) = nat_eq n m
value_eq none (some m) = false
value_eq (some n) none = false

unfoldable pub key_lt : List (Option ℕ) → List (Option ℕ) → Bool
key_lt (a ∷ ks) (b ∷ ls) = let rest = key_lt ks ls in if value_eq a b then rest else value_lt a b
key_lt [] ls = false
key_lt (a ∷ ks) [] = false

-- The variable is unbound, or an integer: the values for which the order above is the standard's.
abbrev pub SortableValue : Option Term → Type 0
SortableValue none = Unit
SortableValue (some t) = (n : ℕ) × (integer_of t ≡ some n)

abbrev pub IsSortable : List String → Solution → Type 0
IsSortable vs sol = All (λ v. SortableValue (get v sol)) vs

-- Every IRI of a query, which the parser checks.
abbrev pub node_iris : Node → List String
node_iris (iri i) = i ∷ []
node_iris (var v) = []

abbrev pub query_iris : List TriplePattern → List String
query_iris [] = []
query_iris (p ∷ ps) = node_iris p.subject ++ (p.predicate ∷ (node_iris p.object ++ query_iris ps))
