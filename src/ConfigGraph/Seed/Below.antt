-- ===== src/ConfigGraph/Seed/Below.antt =====
-- The blank nodes of an offer's quads are numbered on from those that were made before.
use ds_sql_dps_rs.Prelude.{
  String, ℕ, suc, ◌+◌, ◌≤◌, ◌<◌, false, ◌≡◌, ◌≢◌, refl, List, [], ◌∷◌, ◌++◌, length, All,
  All-append, All-map, arith, ◌==◌, eq_of_ne,
}
use ds_sql_dps_rs.Rdf.{Term, named_node, blank_node, simple_literal, typed_literal, term_eq, Graph}
use ds_sql_dps_rs.Oxigraph.{Oxigraph}
use ds_sql_dps_rs.ConfigGraph.Offer.{PermissionSpec, ConstraintSpec}
use ds_sql_dps_rs.ConfigGraph.Seed.Quads.{
  node, constraint_block, constraints_graph, permission_block, permissions_graph, next_node,
}

module _ (O : Oxigraph) (injective : (j k : ℕ) → O.blank j ≡ O.blank k → j ≡ k) where
  -- A blank node of the term, if it is one, was made before the `k`-th.
  abbrev pub IsBelowTerm : ℕ → Term → Type 0
  IsBelowTerm k (blank_node b) = (m : ℕ) × (b ≡ O.blank m) × (m < k)
  IsBelowTerm k (named_node i) = Unit
  IsBelowTerm k (simple_literal s) = Unit
  IsBelowTerm k (typed_literal s d) = Unit

  abbrev pub IsBelow : ℕ → Graph → Type 0
  IsBelow k = All (λ q. IsBelowTerm k q.subject × IsBelowTerm k q.object)

  pub blank_ne : (j k : ℕ) → j ≢ k → (O.blank j == O.blank k) ≡ false
  blank_ne j k h = eq_of_ne (O.blank j) (O.blank k) (λ e. h (injective j k e))

  pub term_eq-below : (k j : ℕ) (t : Term) → IsBelowTerm k t → k ≤ j → term_eq (node O j) t ≡ false
  unfolding term_eq
  term_eq-below k j (blank_node b) (m, e, lt) h = rw e (blank_ne j m (omega arith))
  term_eq-below k j (named_node i) b h = refl
  term_eq-below k j (simple_literal s) b h = refl
  term_eq-below k j (typed_literal s d) b h = refl

  pub IsBelowTerm-mono : (j k : ℕ) (t : Term) → j ≤ k → IsBelowTerm j t → IsBelowTerm k t
  IsBelowTerm-mono j k (blank_node b) h (m, e, lt) = (m, e, omega arith)
  IsBelowTerm-mono j k (named_node i) h b = tt
  IsBelowTerm-mono j k (simple_literal s) h b = tt
  IsBelowTerm-mono j k (typed_literal s d) h b = tt

  pub IsBelow-mono : (j k : ℕ) (g : Graph) → j ≤ k → IsBelow j g → IsBelow k g
  IsBelow-mono j k g h =
      All-map _ _
        (λ q b. (IsBelowTerm-mono j k q.subject h b.0, IsBelowTerm-mono j k q.object h b.1)) g

  pub IsBelow-append : (k : ℕ) (g h : Graph) → IsBelow k g → IsBelow k h → IsBelow k (g ++ h)
  IsBelow-append k g h = All-append (λ q. IsBelowTerm k q.subject × IsBelowTerm k q.object) g h

  pub node-IsBelow : (k : ℕ) → IsBelowTerm (suc k) (node O k)
  node-IsBelow k = (k, refl, omega arith)

  pub constraint_block-IsBelow :
      (p : Term) (j k : ℕ) (c : ConstraintSpec)
      → IsBelowTerm k p
      → IsBelow (suc k) (constraint_block O p j k c)
  constraint_block-IsBelow p j k c b =
      let n = node-IsBelow k in
      (
        (IsBelowTerm-mono k (suc k) p (omega arith) b, n),
        ((n, tt), ((n, tt), ((n, tt), ((n, tt), tt)))),
      )

  pub constraints_graph-IsBelow :
      (p : Term) (j k n : ℕ) (cs : List ConstraintSpec)
      → IsBelowTerm k p
      → length cs + k ≤ n
      → IsBelow n (constraints_graph O p j k cs)
  unfolding constraints_graph
  constraints_graph-IsBelow p j k n [] b h = tt
  constraints_graph-IsBelow p j k n (c ∷ cs) b h =
      IsBelow-append n (constraint_block O p j k c) (constraints_graph O p (suc j) (suc k) cs)
        (IsBelow-mono (suc k) n (constraint_block O p j k c) (omega arith)
          (constraint_block-IsBelow p j k c b))
        (constraints_graph-IsBelow p (suc j) (suc k) n cs
          (IsBelowTerm-mono k (suc k) p (omega arith) b) (omega arith))

  pub next_node-ge : (k : ℕ) (ps : List PermissionSpec) → k ≤ next_node O k ps
  unfolding next_node
  next_node-ge k [] = omega arith
  next_node-ge k (p ∷ ps) = omega (arith, next_node-ge (length p.constraints + suc k) ps)

  pub permission_block-IsBelow :
      (policy : String) (i k : ℕ) (action : String)
      → IsBelow (suc k) (permission_block O policy i k action)
  permission_block-IsBelow policy i k action =
      let n = node-IsBelow k in ((tt, n), ((n, tt), ((n, tt), ((n, tt), tt))))

  pub permissions_graph-IsBelow :
      (policy : String) (i k n : ℕ) (ps : List PermissionSpec)
      → next_node O k ps ≤ n
      → IsBelow n (permissions_graph O policy i k ps)
  unfolding permissions_graph next_node
  permissions_graph-IsBelow policy i k n [] h = tt
  permissions_graph-IsBelow policy i k n (p ∷ ps) h =
      let k' = length p.constraints + suc k in
      let room : k' ≤ n = omega (arith, next_node-ge k' ps) in
      IsBelow-append n (permission_block O policy i k p.action)
        (constraints_graph O (node O k) 0 (suc k) p.constraints
          ++ permissions_graph O policy (suc i) k' ps)
        (IsBelow-mono (suc k) n (permission_block O policy i k p.action) (omega arith)
          (permission_block-IsBelow policy i k p.action))
        (IsBelow-append n (constraints_graph O (node O k) 0 (suc k) p.constraints)
          (permissions_graph O policy (suc i) k' ps)
          (constraints_graph-IsBelow (node O k) 0 (suc k) n p.constraints (node-IsBelow k) room)
          (permissions_graph-IsBelow policy (suc i) k' n ps h))
