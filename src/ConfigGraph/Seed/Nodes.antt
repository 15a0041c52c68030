-- ===== src/ConfigGraph/Seed/Nodes.antt =====
-- A graph that holds the quads of an offer among others says of its nodes what the offer says.
use ds_sql_dps_rs.Prelude.{
  String, ℕ, suc, ◌+◌, ◌≤◌, ◌≡◌, refl, ap, sym, ◌∙◌, subst, List, [], ◌∷◌, ◌++◌, length, All-append,
  All-map, arith, eq_refl,
}
use mathlib.Core.List.{append_assoc}
use ds_sql_dps_rs.Rdf.{Term, named_node, blank_node, simple_literal, typed_literal, term_eq, Graph}
use ds_sql_dps_rs.Sparql.Laws.{objects, objects-append}
use ds_sql_dps_rs.Oxigraph.{Oxigraph}
use ds_sql_dps_rs.ConfigGraph.Vocab.{ds, odrl}
use ds_sql_dps_rs.ConfigGraph.Offer.{PermissionSpec, ConstraintSpec}
use ds_sql_dps_rs.ConfigGraph.Seed.Quads.{
  node, constraint_block, constraints_graph, permission_block, permissions_graph, next_node,
}
use ds_sql_dps_rs.ConfigGraph.Seed.Below.{
  IsBelowTerm, IsBelow, IsBelow-mono, IsBelowTerm-mono, IsBelow-append, node-IsBelow,
  constraint_block-IsBelow, constraints_graph-IsBelow, permission_block-IsBelow, next_node-ge,
}
use ds_sql_dps_rs.ConfigGraph.Seed.Facts.{
  at, ConstraintsAt, ConstraintAt, PermissionAt, PermissionsAt, IsAboveTerm, IsAbove,
  permission_nodes, permissions_graph-IsAbove, objects_of_block, order-constraints_graph,
  action-constraints_graph, at-constraint_nodes, constraint_block-ConstraintAt,
  at-later_constraints, objects-above,
}

module _ (O : Oxigraph) (injective : (j k : ℕ) → O.blank j ≡ O.blank k → j ≡ k) where
  abbrev Below : ℕ → Graph → Type 0
  Below = IsBelow O injective

  constraints_graph-ConstraintsAt :
      (G : Graph) (p : Term) (j k : ℕ) (cs : List ConstraintSpec) (pre post : Graph)
      → G ≡ pre ++ (constraints_graph O p j k cs ++ post)
      → Below k pre
      → IsBelowTerm O injective k p
      → IsAbove O (length cs + k) post
      → ConstraintsAt O G j k cs
  unfolding constraints_graph
  constraints_graph-ConstraintsAt G p j k [] pre post e b bp a = tt
  constraints_graph-ConstraintsAt G p j k (c ∷ cs) pre post e b bp a =
      let block = constraint_block O p j k c in
      let rest = constraints_graph O p (suc j) (suc k) cs in
      let split : G ≡ pre ++ (block ++ (rest ++ post)) =
        e ∙ ap (λ h. pre ++ h) (append_assoc block rest post) in
      (
        subst (λ H. ConstraintAt O H j k c) (sym split)
            (constraint_block-ConstraintAt O injective p j k c pre (rest ++ post) b λ q.
              rw
                (
                  objects-append (node O k) q rest post,
                  at-later_constraints O injective k p (suc j) (suc k) cs q bp (omega arith),
                )
                (objects-above O injective (length (c ∷ cs) + k) k q post a (omega arith))),
        constraints_graph-ConstraintsAt G p (suc j) (suc k) cs (pre ++ block) post
            (split ∙ sym (append_assoc pre block (rest ++ post)))
            (IsBelow-append O injective (suc k) pre block
              (IsBelow-mono O injective k (suc k) pre (omega arith) b)
              (constraint_block-IsBelow O injective p j k c bp))
            (IsBelowTerm-mono O injective k (suc k) p (omega arith) bp)
            (subst (λ n. IsAbove O n post) (omega arith) a),
      )

  block-PermissionAt :
      (G : Graph) (policy : String) (i k : ℕ) (p : PermissionSpec) (pre post : Graph)
      → G
        ≡ pre
          ++ ((permission_block O policy i k p.action
                ++ constraints_graph O (node O k) 0 (suc k) p.constraints)
              ++ post)
      → Below k pre
      → IsAbove O (length p.constraints + suc k) post
      → PermissionAt O G i k p
  unfolding objects term_eq
  block-PermissionAt G policy i k p pre post e b a =
      let block = permission_block O policy i k p.action in
      let cs = constraints_graph O (node O k) 0 (suc k) p.constraints in
      let own = λ (q : String).
        ap (λ H. at O H k q) e
        ∙ objects_of_block O injective k q pre (block ++ cs) post b
            (objects-above O injective (length p.constraints + suc k) k q post a (omega arith))
        ∙ objects-append (node O k) q block cs in
      record {
        order =
            own (ds "order")
            ∙ rw (
              eq_refl (O.blank k),
              order-constraints_graph O injective k 0 (suc k) p.constraints (omega arith),
            );
        action =
            own (odrl "action")
            ∙ rw (
              eq_refl (O.blank k),
              action-constraints_graph O injective (node O k) k 0 (suc k) p.constraints,
            );
        constraints =
            own (odrl "constraint") ∙ at-constraint_nodes O injective k 0 (suc k) p.constraints;
        constraint =
            constraints_graph-ConstraintsAt G (node O k) 0 (suc k) p.constraints (pre ++ block) post
              (e
                ∙ ap (λ h. pre ++ h) (append_assoc block cs post)
                ∙ sym (append_assoc pre block (cs ++ post)))
              (IsBelow-append O injective (suc k) pre block
                (IsBelow-mono O injective k (suc k) pre (omega arith) b)
                (permission_block-IsBelow O injective policy i k p.action))
              (node-IsBelow O injective k) a;
      }

  IsAboveTerm-mono : (j k : ℕ) (t : Term) → j ≤ k → IsAboveTerm O k t → IsAboveTerm O j t
  IsAboveTerm-mono j k (blank_node b) h (m, e, le) = (m, e, omega arith)
  IsAboveTerm-mono j k (named_node i) h a = tt
  IsAboveTerm-mono j k (simple_literal s) h a = tt
  IsAboveTerm-mono j k (typed_literal s d) h a = tt

  pub IsAbove-mono : (j k : ℕ) (g : Graph) → j ≤ k → IsAbove O k g → IsAbove O j g
  IsAbove-mono j k g h =
      All-map (λ q. IsAboveTerm O k q.subject) (λ q. IsAboveTerm O j q.subject)
        (λ q. IsAboveTerm-mono j k q.subject h) g

  pub permissions_graph-PermissionsAt :
      (G : Graph) (policy : String) (i k : ℕ) (ps : List PermissionSpec) (pre post : Graph)
      → G ≡ pre ++ (permissions_graph O policy i k ps ++ post)
      → Below k pre
      → IsAbove O (next_node O k ps) post
      → PermissionsAt O G i k ps
  unfolding permissions_graph next_node
  permissions_graph-PermissionsAt G policy i k [] pre post e b a = tt
  permissions_graph-PermissionsAt G policy i k (p ∷ ps) pre post e b a =
      let k' = length p.constraints + suc k in
      let block = permission_block O policy i k p.action in
      let cs = constraints_graph O (node O k) 0 (suc k) p.constraints in
      let rest = permissions_graph O policy (suc i) k' ps in
      let split : G ≡ pre ++ ((block ++ cs) ++ (rest ++ post)) =
        e
        ∙ ap (λ h. pre ++ (h ++ post)) (sym (append_assoc block cs rest))
        ∙ ap (λ h. pre ++ h) (append_assoc (block ++ cs) rest post) in
      (
        block-PermissionAt G policy i k p pre (rest ++ post) split b (
            All-append (λ q. IsAboveTerm O k' q.subject) rest post
              (permissions_graph-IsAbove O k' policy (suc i) k' ps (omega arith))
              (IsAbove-mono k' (next_node O k' ps) post (next_node-ge O injective k' ps) a)),
        permissions_graph-PermissionsAt G policy (suc i) k' ps (pre ++ (block ++ cs)) post
            (split ∙ sym (append_assoc pre (block ++ cs) (rest ++ post)))
            (IsBelow-append O injective k' pre (block ++ cs)
              (IsBelow-mono O injective k k' pre (omega arith) b)
              (IsBelow-append O injective k' block cs
                (IsBelow-mono O injective (suc k) k' block (omega arith)
                  (permission_block-IsBelow O injective policy i k p.action))
                (constraints_graph-IsBelow O injective (node O k) 0 (suc k) k' p.constraints
                  (node-IsBelow O injective k) (omega arith))))
            a,
      )

  objects-constraints_graph :
      (s p : Term) (j k : ℕ) (cs : List ConstraintSpec)
      → objects s (odrl "permission") (constraints_graph O p j k cs) ≡ []
  unfolding constraints_graph objects
  objects-constraints_graph s p j k [] = refl
  objects-constraints_graph s p j k (c ∷ cs) = objects-constraints_graph s p (suc j) (suc k) cs

  -- The permissions of a policy are the nodes of the offer's permissions.
  pub permissions_of_policy :
      (policy : String) (i k : ℕ) (ps : List PermissionSpec)
      → objects (named_node policy) (odrl "permission") (permissions_graph O policy i k ps)
        ≡ permission_nodes O k ps
  unfolding permissions_graph objects term_eq
  permissions_of_policy policy i k [] = refl
  permissions_of_policy policy i k (p ∷ ps) =
      let k' = length p.constraints + suc k in
      let cs = constraints_graph O (node O k) 0 (suc k) p.constraints in
      rw (
        eq_refl policy,
        objects-append (named_node policy) (odrl "permission") cs
            (permissions_graph O policy (suc i) k' ps),
        objects-constraints_graph (named_node policy) (node O k) 0 (suc k) p.constraints,
        permissions_of_policy policy (suc i) k' ps,
      )
