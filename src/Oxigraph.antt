-- ===== src/Oxigraph.antt =====
-- The third-party crate `oxigraph`, which the configuration graph only calls: the RDF store, the
-- validation of IRIs and the supply of blank nodes are parameters, with what oxigraph documents.
pub mod Order
use ds_sql_dps_rs.Prelude.{
  String, ℕ, Bool, true, false, ◌≡◌, Option, some, List, [], ◌∷◌, ◌++◌, map, All, Result, ok, err,
  ◌&&◌, ◌||◌, if◌then◌else◌,
}
use ds_sql_dps_rs.Rdf.{Term, Quad, quad_eq, Graph}
use ds_sql_dps_rs.Sparql.Text.Lexing.{is_iri_text}
use ds_sql_dps_rs.Sparql.Grammar.{Parsed, parse}
use ds_sql_dps_rs.Sparql.{
  Query, TriplePattern, Solution, solutions, project, sort_key, key_lt, IsSortable, query_iris,
}

-- `oxigraph::sparql::QueryResults`; reading one solution of a stream can fail.
pub data QueryResults : Type 0 where
  solutions_of : List (Result String Solution) → QueryResults
  boolean : Bool → QueryResults
  triples : QueryResults

-- The errors of `parse_query` and of `execute`, by their messages.
pub data QueryFailure : Type 0 where
  syntax : String → QueryFailure
  evaluation : String → QueryFailure

-- The operations. Every effect of the program on the store goes through `insert`; `blank k` is the
-- label of the `k`-th `BlankNode::default()` of the process.
pub record Oxigraph : Type 1 where
  pub Store : Type 0
  pub new : Result String Store
  pub insert : Store → Quad → Result String Store
  -- `parse_query` and `execute`, on the text of a query.
  pub execute : Store → String → Result QueryFailure QueryResults
  pub is_iri : String → Bool
  pub iri_error : String → String
  pub blank : ℕ → String

unfoldable pub has : Quad → Graph → Bool
has q [] = false
has q (x ∷ g) = quad_eq q x || has q g

-- A store is a set of quads: inserting one that it holds changes nothing.
unfoldable pub add : Graph → Quad → Graph
unfolding has
add g q = if has q g then g else g ++ (q ∷ [])

-- `ys` holds the elements of `xs`, in any order.
abbrev pub Shuffle {ℓ} : {A : Type ℓ} → List A → List A → Type ℓ
Shuffle ys [] = ys ≡ []
Shuffle {A} ys (x ∷ xs) = (l : List A) × (r : List A) × (ys ≡ l ++ (x ∷ r)) × Shuffle (l ++ r) xs

-- No row stands after one that ORDER BY puts later.
abbrev pub IsOrdered : List String → List Solution → Type 0
IsOrdered vs [] = Unit
IsOrdered vs (y ∷ ys) =
    All (λ z. key_lt (sort_key vs z) (sort_key vs y) ≡ false) ys × IsOrdered vs ys

-- What a query may answer over the quads of `g`: its solutions in any order that ORDER BY allows.
pub record Answers (q : Query) (g : Graph) (rows : List Solution) : Type 0 where
  pub shuffled : Shuffle rows (solutions q g)
  pub ordered : All (IsSortable q.order_by) (solutions q g) → IsOrdered q.order_by rows

-- What oxigraph documents of an in-memory store. `Holds s g`: the store `s` holds the quads of `g`,
-- which lists each once. Operations of an in-memory store do not fail.
pub record IsInMemory (O : Oxigraph) : Type 1 where
  pub Holds : O.Store → Graph → Type 0
  pub new_lem : (s : O.Store) × (O.new ≡ ok s) × Holds s []
  pub insert_lem :
      (s : O.Store) (g : Graph) (q : Quad)
      → Holds s g
      → (s' : O.Store) × (O.insert s q ≡ ok s') × Holds s' (add g q)
  pub execute_lem :
      (s : O.Store) (g : Graph) (text : String) (p : Parsed)
      → Holds s g
      → parse text ≡ some p
      → All (λ i. O.is_iri i ≡ true) p.refs
      → All (λ i. O.is_iri i ≡ true) (query_iris (p.query.pattern ++ p.query.optional))
      → (rows : List Solution) × (O.execute s text
          ≡ ok (solutions_of (map (λ row. ok (project p.query.select row)) rows)))
        × Answers p.query g rows
  -- An IRI has none of the characters that RFC 3987 leaves out, so IRIREF of SPARQL takes it.
  pub iri_lem : (i : String) → O.is_iri i ≡ true → is_iri_text i ≡ true
  -- `BlankNode::default` makes a node that is new.
  pub blank_injective : (j k : ℕ) → O.blank j ≡ O.blank k → j ≡ k
