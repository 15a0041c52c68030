-- ===== src/ConfigGraph/ReadBack.antt =====
-- The reads of the configuration graph return what the graph says of the offer.
use ds_sql_dps_rs.Prelude.{
  String, ℕ, suc, ◌+◌, true, ◌≡◌, none, refl, ap, ◌∙◌, List, [], ◌∷◌, ◌++◌, map, flat_map, length,
  All, ok, eq_refl,
}
use mathlib.Core.List.{append-nil}
use ds_sql_dps_rs.Rdf.{Term, named_node, simple_literal, Graph}
use ds_sql_dps_rs.Sparql.{
  Query, TriplePattern, Solution, iri, var, get, solutions, basic_pattern, project, query_iris,
  IsSortable,
}
use ds_sql_dps_rs.Sparql.Laws.{objects, bind, basic_pattern-iri, basic_pattern-nil}
use ds_sql_dps_rs.Oxigraph.{Oxigraph, IsInMemory, Answers}
use ds_sql_dps_rs.Oxigraph.Order.{IsIncreasing, ordered_unique}
use ds_sql_dps_rs.ConfigGraph.Vocab.{ds, odrl, dcat}
use ds_sql_dps_rs.ConfigGraph.Json.{Json, Fields, string, arr, obj, end, field, items}
use ds_sql_dps_rs.ConfigGraph.Offer.{
  unicode, to_string_lossy, FileOffer, PermissionSpec, ConstraintSpec,
}
use ds_sql_dps_rs.ConfigGraph.Store.{
  dataset_iri, distribution_iri, policy_iri, ConfigGraph, collect, select, file_path_query,
  media_type_query, file_path, media_type,
}
use ds_sql_dps_rs.ConfigGraph.Policy.{
  header_query, rows_query, permission_json, document, constraint_json, policy_jsonld,
}
use ds_sql_dps_rs.ConfigGraph.Queries.{
  value_syntax, header_syntax, rows_syntax, Means, file_path_query-Means, media_type_query-Means,
  header_query-Means, rows_query-Means,
}
use ds_sql_dps_rs.ConfigGraph.Policy.Rows.{all_rows, solutions-rows_syntax}
use ds_sql_dps_rs.ConfigGraph.Policy.Sorted.{all_rows-IsIncreasing, all_rows-IsSortable}
use ds_sql_dps_rs.ConfigGraph.Policy.Grouping.{selected, entry_of, entries, grouped}
use ds_sql_dps_rs.ConfigGraph.Seed.Quads.{IsVocabulary, IsDatasetId}
use ds_sql_dps_rs.ConfigGraph.Seed.HasOffer.{HasOffer}

-- The policy document that an offer stands for, written out.
abbrev pub constraint_document : ConstraintSpec → Json
constraint_document c = obj (
    field "leftOperand" (string c.left_operand)
      (field "operator" (string c.operator) (field "rightOperand" (string c.right_operand) end)))

-- There is no member for an empty list of constraints.
abbrev pub constraint_member : List ConstraintSpec → Fields
constraint_member [] = end
constraint_member (c ∷ cs) = field "constraint" (arr (items (map constraint_document (c ∷ cs)))) end

abbrev pub permission_document : PermissionSpec → Json
permission_document p = obj (field "action" (string p.action) (constraint_member p.constraints))

abbrev pub offer_document : FileOffer → Json
offer_document offer = obj (
    field "@context" (string "http://www.w3.org/ns/odrl.jsonld") (
      field "@id" (string (policy_iri offer.dataset_id)) (
        field "@type" (string "Offer") (
          field "target" (string (dataset_iri offer.dataset_id)) (
            field "assigner" (string offer.assigner) (
              field "permission" (arr (items (map permission_document offer.permissions))) end))))))

permission_json-entry_of :
    (action : String) (cs : List ConstraintSpec)
    → permission_json (entry_of (record { action = action; constraints = cs }))
      ≡ permission_document (record { action = action; constraints = cs })
unfolding permission_json constraint_json
permission_json-entry_of action [] = refl
permission_json-entry_of action (c ∷ cs) = refl

-- A query without OPTIONAL has the solutions of its pattern.
solutions-plain :
    (vs : List String) (pats : List TriplePattern) (g : Graph) (row : Solution)
    → basic_pattern g pats [] ≡ row ∷ []
    → solutions (record { select = vs; pattern = pats; optional = []; order_by = [] }) g ≡ row ∷ []
unfolding solutions
solutions-plain vs pats g row h = rw h

pattern_one :
    (sol : Solution) (p v i : String) (t : Term) (pats : List TriplePattern) (g : Graph)
    → get v sol ≡ none
    → objects (named_node i) p g ≡ t ∷ []
    → basic_pattern g (record { subject = iri i; predicate = p; object = var v } ∷ pats) sol
      ≡ basic_pattern g pats (bind v sol t)
pattern_one sol p v i t pats g free one =
    basic_pattern-iri sol p v free i pats g
    ∙ ap (flat_map (λ t. basic_pattern g pats (bind v sol t))) one
    ∙ append-nil (basic_pattern g pats (bind v sol t))

-- Rows whose order is determined come in that order.
answer_unique :
    (q : Query) (g : Graph) (rows expected : List Solution)
    → Answers q g rows
    → solutions q g ≡ expected
    → IsIncreasing q.order_by expected
    → All (IsSortable q.order_by) expected
    → rows ≡ expected
answer_unique q g rows expected a e increasing sortable =
    ordered_unique q.order_by expected rows increasing (rw e at a.shuffled)
      (a.ordered (rw e sortable))

module _ (O : Oxigraph) (M : IsInMemory O) (V : IsVocabulary O) where
  collect-ok :
      (vs : List String) (rows : List Solution)
      → collect O (map (λ row. ok (project vs row)) rows) ≡ ok (map (project vs) rows)
  unfolding collect
  collect-ok vs [] = refl
  collect-ok vs (row ∷ rows) = rw (collect-ok vs rows)

  pub select-ok :
      (text : String) (q : Query) (refs : List String) (w : ConfigGraph O) (g : Graph)
      (expected : List Solution)
      → Means text q refs
      → M.Holds w.store g
      → All (λ i. O.is_iri i ≡ true) refs
      → All (λ i. O.is_iri i ≡ true) (query_iris (q.pattern ++ q.optional))
      → solutions q g ≡ expected
      → IsIncreasing q.order_by expected
      → All (IsSortable q.order_by) expected
      → select O text w ≡ ok (map (project q.select) expected)
  unfolding select
  select-ok text q refs w g expected means holds written valid e increasing sortable =
      let (rows, executed, answers) =
        M.execute_lem w.store g text (record { query = q; refs = refs }) holds means written
          valid in
      rw executed (
        collect-ok q.select rows
        ∙ ap (λ r. ok (map (project q.select) r))
            (answer_unique q g rows expected answers e increasing sortable))

  module _ (w : ConfigGraph O) (g : Graph) (k : ℕ) (offer : FileOffer) (holds : M.Holds w.store g)
      (D : IsDatasetId O offer.dataset_id) (h : HasOffer O g k offer) where
    distribution_value :
        (text p v value : String) (refs : List String)
        → Means text (value_syntax (distribution_iri offer.dataset_id) p v) refs
        → All (λ i. O.is_iri i ≡ true) refs
        → O.is_iri p ≡ true
        → objects (named_node (distribution_iri offer.dataset_id)) p g ≡ simple_literal value ∷ []
        → select O text w ≡ ok (((v, simple_literal value) ∷ []) ∷ [])
    unfolding get project
    distribution_value text p v value refs means written valid one =
        select-ok text (value_syntax (distribution_iri offer.dataset_id) p v) refs w g
          (((v, simple_literal value) ∷ []) ∷ []) means holds written (D.distribution, (valid, tt))
          (solutions-plain (v ∷ []) _ g _ (
            pattern_one [] p v (distribution_iri offer.dataset_id) (simple_literal value) [] g refl
              one
            ∙ basic_pattern-nil g _))
          (tt, tt) (tt, tt)
        ∙ rw (eq_refl v, project)

    pub file_path-HasOffer :
        file_path O offer.dataset_id w ≡ ok (unicode (to_string_lossy offer.file_path))
    unfolding file_path
    file_path-HasOffer = rw (
        distribution_value (file_path_query (distribution_iri offer.dataset_id)) (ds "filePath")
          "path" (to_string_lossy offer.file_path) _
          (file_path_query-Means _ (M.iri_lem _ D.distribution)) (V.ds_ns, (D.distribution, tt))
          V.file_path h.file_path)

    pub media_type-HasOffer : media_type O offer.dataset_id w ≡ ok offer.media_type
    unfolding media_type
    media_type-HasOffer = rw (
        distribution_value (media_type_query (distribution_iri offer.dataset_id)) (dcat "mediaType")
          "media" offer.media_type _ (media_type_query-Means _ (M.iri_lem _ D.distribution))
          (V.dcat_ns, (D.distribution, tt)) V.media_type h.media_type)

    abbrev header_row : Solution
    header_row =
        ("assigner", simple_literal offer.assigner)
        ∷ ("target", named_node (dataset_iri offer.dataset_id))
        ∷ []

    header_selected :
        select O (header_query (policy_iri offer.dataset_id)) w
        ≡ ok (project ("target" ∷ "assigner" ∷ []) header_row ∷ [])
    unfolding get
    header_selected =
        let target = named_node (dataset_iri offer.dataset_id) in
        let policy = policy_iri offer.dataset_id in
        select-ok (header_query policy) (header_syntax policy) _ w g (header_row ∷ [])
          (header_query-Means policy (M.iri_lem policy D.policy)) holds (V.odrl_ns, (D.policy, tt))
          (D.policy, (V.target, (D.policy, (V.assigner, tt))))
          (solutions-plain ("target" ∷ "assigner" ∷ []) _ g header_row (
            pattern_one [] (odrl "target") "target" policy target _ g refl h.target
            ∙ pattern_one (("target", target) ∷ []) (odrl "assigner") "assigner" policy
                (simple_literal offer.assigner) [] g refl h.assigner
            ∙ basic_pattern-nil g _))
          (tt, tt) (tt, tt)

    rows_selected :
        select O (rows_query (policy_iri offer.dataset_id)) w
        ≡ ok (map selected (all_rows O 0 k offer.permissions))
    rows_selected =
        let policy = policy_iri offer.dataset_id in
        select-ok (rows_query policy) (rows_syntax policy) _ w g (all_rows O 0 k offer.permissions)
          (rows_query-Means policy (M.iri_lem policy D.policy)) holds
          (V.odrl_ns, (V.ds_ns, (D.policy, tt)))
          (
            D.policy,
            (
              V.permission,
              (
                V.order,
                (
                  V.action,
                  (V.constraint, (V.order, (V.left_operand, (V.operator, (V.right_operand, tt))))),
                ),
              ),
            ),
          )
          (solutions-rows_syntax O g (policy_iri offer.dataset_id) k offer.permissions h.permission
            h.permissions)
          (all_rows-IsIncreasing O 0 k offer.permissions)
          (all_rows-IsSortable O 0 k offer.permissions)

    entries_json :
        (m : ℕ) (ps : List PermissionSpec)
        → map (λ e. permission_json e.1) (entries O M.blank_injective m ps)
          ≡ map permission_document ps
    entries_json m [] = refl
    entries_json m (p ∷ ps) =
        rw (permission_json-entry_of p.action p.constraints)
          (ap (λ t. permission_document p ∷ t) (entries_json (length p.constraints + suc m) ps))

    pub policy_jsonld-HasOffer : policy_jsonld O offer.dataset_id w ≡ ok (offer_document offer)
    unfolding policy_jsonld project document
    policy_jsonld-HasOffer = rw (
      header_selected,
      rows_selected,
      grouped O M.blank_injective k offer.permissions,
      entries_json k offer.permissions,
    )
