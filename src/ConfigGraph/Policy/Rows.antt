-- ===== src/ConfigGraph/Policy/Rows.antt =====
-- The solutions of the rows query over a graph that holds an offer.
use ds_sql_dps_rs.Prelude.{
  String, ℕ, suc, ◌+◌, ◌≡◌, refl, ap, ◌∙◌, List, [], ◌∷◌, ◌++◌, length, flat_map,
}
use mathlib.Core.Path.{ap₂}
use ds_sql_dps_rs.Rdf.{named_node, simple_literal, Graph}
use ds_sql_dps_rs.Sparql.{Solution, TriplePattern, var, get, basic_pattern, or_self, solutions}
use ds_sql_dps_rs.Sparql.Laws.{
  objects, basic_pattern-iri, basic_pattern-var, basic_pattern-single, basic_pattern-nil,
}
use ds_sql_dps_rs.Oxigraph.{Oxigraph}
use ds_sql_dps_rs.ConfigGraph.Vocab.{ds, odrl}
use ds_sql_dps_rs.ConfigGraph.Offer.{PermissionSpec, ConstraintSpec}
use ds_sql_dps_rs.ConfigGraph.Queries.{rows_syntax}
use ds_sql_dps_rs.ConfigGraph.Seed.Quads.{node, position}
use ds_sql_dps_rs.ConfigGraph.Seed.Facts.{
  ConstraintAt, ConstraintsAt, PermissionAt, PermissionsAt, constraint_nodes, permission_nodes,
}

module _ (O : Oxigraph) where
  -- What a row says of its permission, and of its constraint.
  abbrev pub permission_row : ℕ → ℕ → PermissionSpec → Solution
  permission_row i k p =
      ("action", simple_literal p.action) ∷ ("porder", position i) ∷ ("p", node O k) ∷ []

  abbrev pub constraint_row : Solution → ℕ → ℕ → ConstraintSpec → Solution
  constraint_row row j k c =
      ("right", simple_literal c.right_operand)
      ∷ ("op", simple_literal c.operator)
      ∷ ("left", simple_literal c.left_operand)
      ∷ ("corder", position j)
      ∷ ("c", node O k)
      ∷ row

  unfoldable pub constraint_rows : Solution → ℕ → ℕ → List ConstraintSpec → List Solution
  constraint_rows row j k [] = []
  constraint_rows row j k (c ∷ cs) =
      constraint_row row j k c ∷ constraint_rows row (suc j) (suc k) cs

  -- A permission has a row for each constraint, or one row of its own.
  abbrev pub rows_of : ℕ → ℕ → PermissionSpec → List Solution
  rows_of i k p =
      let row = permission_row i k p in or_self row (constraint_rows row 0 (suc k) p.constraints)

  unfoldable pub all_rows : ℕ → ℕ → List PermissionSpec → List Solution
  unfolding constraint_rows
  all_rows i k [] = []
  all_rows i k (p ∷ ps) = rows_of i k p ++ all_rows (suc i) (length p.constraints + suc k) ps

  module _ (G : Graph) where
    abbrev triple : String → String → String → TriplePattern
    triple s p o = record { subject = var s; predicate = p; object = var o }

    abbrev constraint_patterns : List TriplePattern
    constraint_patterns =
        triple "c" (ds "order") "corder"
        ∷ triple "c" (odrl "leftOperand") "left"
        ∷ triple "c" (odrl "operator") "op"
        ∷ triple "c" (odrl "rightOperand") "right"
        ∷ []

    one_constraint :
        (i k j m : ℕ) (p : PermissionSpec) (c : ConstraintSpec)
        → ConstraintAt O G j m c
        → basic_pattern G constraint_patterns (("c", node O m) ∷ permission_row i k p)
          ≡ constraint_row (permission_row i k p) j m c ∷ []
    unfolding get
    one_constraint i k j m p c h =
        let n = node O m in
        let s0 : Solution = ("c", n) ∷ permission_row i k p in
        let s1 : Solution = ("corder", position j) ∷ s0 in
        let s2 : Solution = ("left", simple_literal c.left_operand) ∷ s1 in
        let s3 : Solution = ("op", simple_literal c.operator) ∷ s2 in
        basic_pattern-single s0 _ "corder" refl "c" n (position j) _ G refl h.order
        ∙ basic_pattern-single s1 _ "left" refl "c" n (simple_literal c.left_operand) _ G refl
            h.left
        ∙ basic_pattern-single s2 _ "op" refl "c" n (simple_literal c.operator) _ G refl h.operator
        ∙ basic_pattern-single s3 _ "right" refl "c" n (simple_literal c.right_operand) _ G refl
            h.right
        ∙ basic_pattern-nil G _

    constraint_solutions :
        (i k j m : ℕ) (p : PermissionSpec) (cs : List ConstraintSpec)
        → ConstraintsAt O G j m cs
        → flat_map
            (λ t. basic_pattern G constraint_patterns (("c", t) ∷ permission_row i k p))
            (constraint_nodes O m cs)
          ≡ constraint_rows (permission_row i k p) j m cs
    unfolding constraint_rows
    constraint_solutions i k j m p [] h = refl
    constraint_solutions i k j m p (c ∷ cs) h =
        ap₂ (λ xs ys. xs ++ ys) (one_constraint i k j m p c h.0)
          (constraint_solutions i k (suc j) (suc m) p cs h.1)

    -- The OPTIONAL part of the query.
    optional_solutions :
        (i k : ℕ) (p : PermissionSpec)
        → PermissionAt O G i k p
        → basic_pattern G (rows_syntax "").optional (permission_row i k p)
          ≡ constraint_rows (permission_row i k p) 0 (suc k) p.constraints
    unfolding get
    optional_solutions i k p h =
        basic_pattern-var (permission_row i k p) (odrl "constraint") "c" refl "p" (node O k)
          constraint_patterns G refl
        ∙ ap (flat_map (λ t. basic_pattern G constraint_patterns (("c", t) ∷ permission_row i k p)))
            h.constraints
        ∙ constraint_solutions i k 0 (suc k) p p.constraints h.constraint

    abbrev permission_patterns : List TriplePattern
    permission_patterns =
        triple "p" (ds "order") "porder" ∷ triple "p" (odrl "action") "action" ∷ []

    one_permission :
        (i k : ℕ) (p : PermissionSpec)
        → PermissionAt O G i k p
        → basic_pattern G permission_patterns (("p", node O k) ∷ []) ≡ permission_row i k p ∷ []
    unfolding get
    one_permission i k p h =
        let s0 : Solution = ("p", node O k) ∷ [] in
        let s1 : Solution = ("porder", position i) ∷ s0 in
        basic_pattern-single s0 _ "porder" refl "p" (node O k) (position i) _ G refl h.order
        ∙ basic_pattern-single s1 _ "action" refl "p" (node O k) (simple_literal p.action) _ G refl
            h.action
        ∙ basic_pattern-nil G _

    permission_rows : List PermissionSpec → ℕ → ℕ → List Solution
    permission_rows [] i k = []
    permission_rows (p ∷ ps) i k =
        permission_row i k p ∷ permission_rows ps (suc i) (length p.constraints + suc k)

    permission_solutions :
        (i k : ℕ) (ps : List PermissionSpec)
        → PermissionsAt O G i k ps
        → flat_map
            (λ t. basic_pattern G permission_patterns (("p", t) ∷ []))
            (permission_nodes O k ps)
          ≡ permission_rows ps i k
    unfolding permission_rows
    permission_solutions i k [] h = refl
    permission_solutions i k (p ∷ ps) h =
        ap₂ (λ xs ys. xs ++ ys) (one_permission i k p h.0)
          (permission_solutions (suc i) (length p.constraints + suc k) ps h.1)

    optional_rows :
        (i k : ℕ) (ps : List PermissionSpec)
        → PermissionsAt O G i k ps
        → flat_map
            (λ sol. or_self sol (basic_pattern G (rows_syntax "").optional sol))
            (permission_rows ps i k)
          ≡ all_rows i k ps
    unfolding permission_rows all_rows
    optional_rows i k [] h = refl
    optional_rows i k (p ∷ ps) h =
        ap₂ (λ xs ys. xs ++ ys) (ap (or_self (permission_row i k p)) (optional_solutions i k p h.0))
          (optional_rows (suc i) (length p.constraints + suc k) ps h.1)

    -- The query has exactly one solution for each row of the offer.
    pub solutions-rows_syntax :
        (policy : String) (k : ℕ) (ps : List PermissionSpec)
        → objects (named_node policy) (odrl "permission") G ≡ permission_nodes O k ps
        → PermissionsAt O G 0 k ps
        → solutions (rows_syntax policy) G ≡ all_rows 0 k ps
    unfolding solutions get
    solutions-rows_syntax policy k ps nodes h =
        ap (flat_map (λ sol. or_self sol (basic_pattern G (rows_syntax "").optional sol))) (
          basic_pattern-iri [] (odrl "permission") "p" refl policy permission_patterns G
          ∙ ap (flat_map (λ t. basic_pattern G permission_patterns (("p", t) ∷ []))) nodes
          ∙ permission_solutions 0 k ps h)
        ∙ optional_rows 0 k ps h
