-- ===== src/ConfigGraph/Seed/Count.antt =====
-- How many quads `seed_offer` writes, on any store.
use ds_sql_dps_rs.Prelude.{
  String, ℕ, suc, ◌+◌, ◌*◌, ◌≡◌, ap, sym, ◌∙◌, List, [], ◌∷◌, ◌++◌, length, ok, ok-injective,
  bind_ok, arith,
}
use ds_sql_dps_rs.Rdf.{Term, Quad}
use ds_sql_dps_rs.Oxigraph.{Oxigraph}
use ds_sql_dps_rs.ConfigGraph.Vocab.{dcat, dcterms, ds, odrl, rdf, xsd}
use ds_sql_dps_rs.ConfigGraph.Offer.{FileOffer, PermissionSpec, ConstraintSpec}
use ds_sql_dps_rs.ConfigGraph.Store.{dataset_iri, distribution_iri, policy_iri, new_named_node}
use ds_sql_dps_rs.ConfigGraph.Seed.{header_quads, constraint_quads, permission_quads, offer_quads}

-- Four quads for a permission and five for each of its constraints.
abbrev permissions_count : List PermissionSpec → ℕ
permissions_count [] = 0
permissions_count (p ∷ ps) = 4 + 5 * length p.constraints + permissions_count ps

-- Nine quads for an offer, and those of its permissions.
abbrev pub quad_count : FileOffer → ℕ
quad_count offer = 9 + permissions_count offer.permissions

length-append : {A : Type 0} (xs ys : List A) → length (xs ++ ys) ≡ length xs + length ys
length-append [] ys = omega arith
length-append (x ∷ xs) ys = let rest = length-append xs ys in omega (arith, rest)

module _ (O : Oxigraph) where
  length-constraint_quads :
      (p : Term) (j k : ℕ) (integer : String) (cs : List ConstraintSpec) (out : List Quad × ℕ)
      → constraint_quads O p j k integer cs ≡ ok out
      → length out.0 ≡ 5 * length cs
  unfolding constraint_quads
  length-constraint_quads p j k integer [] out h = ap (λ r. length r.0) (sym (ok-injective h))
  length-constraint_quads p j k integer (c ∷ cs) out h0 =
      let (i1, e1, h1) = bind_ok (new_named_node O (odrl "constraint")) h0 in
      let (i2, e2, h2) = bind_ok (new_named_node O (ds "order")) h1 in
      let (i3, e3, h3) = bind_ok (new_named_node O (odrl "leftOperand")) h2 in
      let (i4, e4, h4) = bind_ok (new_named_node O (odrl "operator")) h3 in
      let (i5, e5, h5) = bind_ok (new_named_node O (odrl "rightOperand")) h4 in
      let (rest, e6, h6) = bind_ok (constraint_quads O p (suc j) (suc k) integer cs) h5 in
      let count = length-constraint_quads p (suc j) (suc k) integer cs rest e6 in
      ap (λ r. length r.0) (sym (ok-injective h6)) ∙ omega (arith, count)

  length-permission_quads :
      (policy : String) (i k : ℕ) (integer : String) (ps : List PermissionSpec)
      (out : List Quad × ℕ)
      → permission_quads O policy i k integer ps ≡ ok out
      → length out.0 ≡ permissions_count ps
  unfolding permission_quads
  length-permission_quads policy i k integer [] out h = ap (λ r. length r.0) (sym (ok-injective h))
  length-permission_quads policy i k integer (p ∷ ps) out h0 =
      let (i1, e1, h1) = bind_ok (new_named_node O (odrl "permission")) h0 in
      let (i2, e2, h2) = bind_ok (new_named_node O (rdf "type")) h1 in
      let (i3, e3, h3) = bind_ok (new_named_node O (odrl "Permission")) h2 in
      let (i4, e4, h4) = bind_ok (new_named_node O (ds "order")) h3 in
      let (i5, e5, h5) = bind_ok (new_named_node O (odrl "action")) h4 in
      let (own, e6, h6) = bind_ok (constraint_quads O _ 0 (suc k) integer p.constraints) h5 in
      let (rest, e7, h7) = bind_ok (permission_quads O policy (suc i) own.1 integer ps) h6 in
      let first = length-constraint_quads _ 0 (suc k) integer p.constraints own e6 in
      let others = length-permission_quads policy (suc i) own.1 integer ps rest e7 in
      let both = length-append own.0 rest.0 in
      ap (λ r. length r.0) (sym (ok-injective h7)) ∙ omega (arith, first, others, both)

  length-header_quads :
      (offer : FileOffer) (out : List Quad) → header_quads O offer ≡ ok out → length out ≡ 9
  unfolding header_quads
  length-header_quads offer out h0 =
      let (i1, e1, h1) = bind_ok (new_named_node O (dataset_iri offer.dataset_id)) h0 in
      let (i2, e2, h2) = bind_ok (new_named_node O (distribution_iri offer.dataset_id)) h1 in
      let (i3, e3, h3) = bind_ok (new_named_node O (policy_iri offer.dataset_id)) h2 in
      let (i4, e4, h4) = bind_ok (new_named_node O (rdf "type")) h3 in
      let (i5, e5, h5) = bind_ok (new_named_node O (dcat "Dataset")) h4 in
      let (i6, e6, h6) = bind_ok (new_named_node O (dcterms "title")) h5 in
      let (i7, e7, h7) = bind_ok (new_named_node O (dcat "distribution")) h6 in
      let (i8, e8, h8) = bind_ok (new_named_node O (dcat "Distribution")) h7 in
      let (i9, e9, h9) = bind_ok (new_named_node O (ds "filePath")) h8 in
      let (i10, e10, h10) = bind_ok (new_named_node O (dcat "mediaType")) h9 in
      let (i11, e11, h11) = bind_ok (new_named_node O (odrl "Offer")) h10 in
      let (i12, e12, h12) = bind_ok (new_named_node O (odrl "target")) h11 in
      let (i13, e13, h13) = bind_ok (new_named_node O (odrl "assigner")) h12 in
      ap length (sym (ok-injective h13))

  pub length-offer_quads :
      (k : ℕ) (offer : FileOffer) (out : List Quad × ℕ)
      → offer_quads O k offer ≡ ok out
      → length out.0 ≡ quad_count offer
  unfolding offer_quads
  length-offer_quads k offer out h0 =
      let (header, e1, h1) = bind_ok (header_quads O offer) h0 in
      let (integer, e2, h2) = bind_ok (new_named_node O (xsd "integer")) h1 in
      let (rest, e3, h3) =
        bind_ok (permission_quads O (policy_iri offer.dataset_id) 0 k integer offer.permissions)
          h2 in
      let first = length-header_quads offer header e1 in
      let others =
        length-permission_quads (policy_iri offer.dataset_id) 0 k integer offer.permissions rest
          e3 in
      let both = length-append header rest.0 in
      ap (λ r. length r.0) (sym (ok-injective h3)) ∙ omega (arith, first, others, both)
