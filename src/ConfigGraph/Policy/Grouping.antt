-- ===== src/ConfigGraph/Policy/Grouping.antt =====
-- The loop over the rows of an offer builds an entry for each permission, with its constraints.
use ds_sql_dps_rs.Prelude.{
  ℕ, suc, ◌+◌, ◌<◌, ◌≡◌, refl, ap, sym, ◌∙◌, List, [], ◌∷◌, ◌++◌, map, length, All, All-append,
  All-map, arith, eq_refl,
}
use mathlib.Core.List.{foldl, foldl-append, append_assoc, append-nil, map-append}
use ds_sql_dps_rs.Rdf.{Term, term_eq}
use ds_sql_dps_rs.Sparql.{Solution, get, project, or_self}
use ds_sql_dps_rs.Oxigraph.{Oxigraph}
use ds_sql_dps_rs.ConfigGraph.Json.{Json}
use ds_sql_dps_rs.ConfigGraph.Offer.{PermissionSpec, ConstraintSpec}
use ds_sql_dps_rs.ConfigGraph.Queries.{rows_syntax}
use ds_sql_dps_rs.ConfigGraph.Policy.{
  Entry, text_of, constraint_json, push_constraint, add_entry, add_row,
}
use ds_sql_dps_rs.ConfigGraph.Seed.Quads.{node}
use ds_sql_dps_rs.ConfigGraph.Seed.Below.{blank_ne}
use ds_sql_dps_rs.ConfigGraph.Policy.Rows.{
  permission_row, constraint_row, constraint_rows, rows_of, all_rows,
}

-- The JSON of a constraint of the offer.
abbrev pub json_of : ConstraintSpec → Json
json_of c = constraint_json c.left_operand c.operator c.right_operand

abbrev pub entry_of : PermissionSpec → Entry
entry_of p = record { action = p.action; constraint = map json_of p.constraints }

add_entry-last :
    (p : Term) (row : Solution) (xs : List (Term × Entry)) (l : Term × Entry)
    → add_entry p row (xs ++ (l ∷ [])) ≡ xs ++ add_entry p row (l ∷ [])
unfolding add_entry
add_entry-last p row [] l = refl
add_entry-last p row (x ∷ []) l = refl
add_entry-last p row (x ∷ y ∷ xs) l = ap (λ t. x ∷ t) (add_entry-last p row (y ∷ xs) l)

abbrev pub selected : Solution → Solution
selected = project (rows_syntax "").select

module _ (O : Oxigraph) (injective : (j k : ℕ) → O.blank j ≡ O.blank k → j ≡ k) where
  -- A further constraint of the last permission.
  add_row-constraint :
      (i k j m : ℕ) (p : PermissionSpec) (c : ConstraintSpec) (xs : List (Term × Entry)) (e : Entry)
      → add_row
          (xs ++ ((node O k, e) ∷ []))
          (selected (constraint_row O (permission_row O i k p) j m c))
        ≡ xs ++ ((node O k, record e { constraint = e.constraint ++ (json_of c ∷ []) }) ∷ [])
  unfolding add_row add_entry project get
  add_row-constraint i k j m p c xs e =
      add_entry-last (node O k) (selected (constraint_row O (permission_row O i k p) j m c)) xs
        (node O k, e)
      ∙ rw (eq_refl (O.blank k))

  add_constraint_rows :
      (i k j m : ℕ) (p : PermissionSpec) (cs : List ConstraintSpec) (xs : List (Term × Entry))
      (e : Entry)
      → foldl add_row
          (xs ++ ((node O k, e) ∷ []))
          (map selected (constraint_rows O (permission_row O i k p) j m cs))
        ≡ xs ++ ((node O k, record e { constraint = e.constraint ++ map json_of cs }) ∷ [])
  unfolding constraint_rows
  add_constraint_rows i k j m p [] xs e = rw append-nil
  add_constraint_rows i k j m p (c ∷ cs) xs e =
      ap
        (λ acc.
          foldl add_row acc
            (map selected (constraint_rows O (permission_row O i k p) (suc j) (suc m) cs)))
        (add_row-constraint i k j m p c xs e)
      ∙ add_constraint_rows i k (suc j) (suc m) p cs xs
          (record e { constraint = e.constraint ++ (json_of c ∷ []) })
      ∙ rw append_assoc

  -- The entries that stand there are of earlier permissions.
  abbrev Earlier : ℕ → List (Term × Entry) → Type 0
  Earlier k = All (λ x. (m : ℕ) × (x.0 ≡ node O m) × (m < k))

  abbrev new_entry : Solution → Entry
  new_entry row = push_constraint row (record { action = text_of "action" row; constraint = [] })

  add_entry-new :
      (k : ℕ) (row : Solution) (acc : List (Term × Entry))
      → Earlier k acc
      → add_entry (node O k) row acc ≡ acc ++ ((node O k, new_entry row) ∷ [])
  unfolding add_entry term_eq
  add_entry-new k row [] h = refl
  add_entry-new k row ((t, e) ∷ []) h =
      rw (h.0.1, blank_ne O injective h.0.0 k (omega (arith, h.0.2)))
  add_entry-new k row (x ∷ y ∷ acc) h = ap (λ t. x ∷ t) (add_entry-new k row (y ∷ acc) h.1)

  add_rows_for :
      (i k : ℕ) (p : PermissionSpec) (cs : List ConstraintSpec) (acc : List (Term × Entry))
      → Earlier k acc
      → foldl add_row acc (
          map selected (
            or_self
              (permission_row O i k p)
              (constraint_rows O (permission_row O i k p) 0 (suc k) cs)))
        ≡ acc ++ ((node O k, record { action = p.action; constraint = map json_of cs }) ∷ [])
  unfolding constraint_rows add_row project
  add_rows_for i k p [] acc h = add_entry-new k (selected (permission_row O i k p)) acc h
  add_rows_for i k p (c ∷ cs) acc h =
      ap
        (λ a.
          foldl add_row a
            (map selected (constraint_rows O (permission_row O i k p) 1 (suc (suc k)) cs)))
        (add_entry-new k (selected (constraint_row O (permission_row O i k p) 0 (suc k) c)) acc h)
      ∙ add_constraint_rows i k 1 (suc (suc k)) p cs acc
          (record { action = p.action; constraint = json_of c ∷ [] })

  -- The rows of one permission add its entry behind the earlier ones.
  add_rows_of :
      (i k : ℕ) (p : PermissionSpec) (acc : List (Term × Entry))
      → Earlier k acc
      → foldl add_row acc (map selected (rows_of O i k p)) ≡ acc ++ ((node O k, entry_of p) ∷ [])
  add_rows_of i k p acc h = add_rows_for i k p p.constraints acc h

  -- The entries of all permissions.
  abbrev pub entries : ℕ → List PermissionSpec → List (Term × Entry)
  entries k [] = []
  entries k (p ∷ ps) = (node O k, entry_of p) ∷ entries (length p.constraints + suc k) ps

  add_all_rows :
      (i k : ℕ) (ps : List PermissionSpec) (acc : List (Term × Entry))
      → Earlier k acc
      → foldl add_row acc (map selected (all_rows O i k ps)) ≡ acc ++ entries k ps
  unfolding all_rows
  add_all_rows i k [] acc h = sym (append-nil acc)
  add_all_rows i k (p ∷ ps) acc h =
      let k' = length p.constraints + suc k in
      let acc' = acc ++ ((node O k, entry_of p) ∷ []) in
      rw (map-append, foldl-append)
        (ap (λ a. foldl add_row a (map selected (all_rows O (suc i) k' ps)))
            (add_rows_of i k p acc h)
          ∙ add_all_rows (suc i) k' ps acc' (
              All-append (λ x. (m : ℕ) × (x.0 ≡ node O m) × (m < k')) acc
                ((node O k, entry_of p) ∷ [])
                (All-map _ _ (λ x e. (e.0, e.1, omega (arith, e.2))) acc h)
                ((k, refl, omega arith), tt))
          ∙ append_assoc acc ((node O k, entry_of p) ∷ []) (entries k' ps))

  pub grouped :
      (k : ℕ) (ps : List PermissionSpec)
      → foldl add_row [] (map selected (all_rows O 0 k ps)) ≡ entries k ps
  grouped k ps = add_all_rows 0 k ps [] tt
