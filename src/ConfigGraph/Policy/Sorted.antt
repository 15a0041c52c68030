-- ===== src/ConfigGraph/Policy/Sorted.antt =====
-- ORDER BY puts the rows of an offer in the offer's own order.
use ds_sql_dps_rs.Prelude.{
  String, ℕ, suc, ◌+◌, ◌≤◌, ◌<◌, true, ◌≡◌, Option, none, some, List, [], ◌∷◌, ◌++◌, length, All,
  All-append, All-map, arith,
}
use ds_sql_dps_rs.Prelude.Decimal.{integer_value-to_string}
use ds_sql_dps_rs.Sparql.{
  Solution, get, integer_of, sort_key, value_lt, key_lt, or_self, IsSortable,
}
use ds_sql_dps_rs.Oxigraph.{Oxigraph}
use ds_sql_dps_rs.Oxigraph.Order.{IsIncreasing}
use ds_sql_dps_rs.ConfigGraph.Offer.{PermissionSpec, ConstraintSpec}
use ds_sql_dps_rs.ConfigGraph.Seed.Quads.{position}
use ds_sql_dps_rs.ConfigGraph.Policy.Rows.{
  permission_row, constraint_row, constraint_rows, rows_of, all_rows,
}

abbrev pub keys : List String
keys = "porder" ∷ "corder" ∷ []

integer_of-position : (n : ℕ) → integer_of (position n) ≡ some n
unfolding integer_of
integer_of-position n = integer_value-to_string n

abbrev row_key : Solution → List (Option ℕ)
row_key = sort_key keys

less_first : (a b : ℕ) (x y : Option ℕ) → a < b → key_lt (some a ∷ x ∷ []) (some b ∷ y ∷ []) ≡ true
unfolding key_lt
less_first a b x y h = ground arith

less_second :
    (a : ℕ) (x y : Option ℕ)
    → value_lt x y ≡ true
    → key_lt (some a ∷ x ∷ []) (some a ∷ y ∷ []) ≡ true
unfolding key_lt
less_second a none none h = cc
less_second a none (some m) h = ground arith
less_second a (some n) none h = cc
less_second a (some n) (some m) h = ground arith

-- The row's key is `(a, x)` for some `x`, with `a` from `i` on.
abbrev From : ℕ → Solution → Type 0
From i row = (a : ℕ) × (x : Option ℕ) × (i ≤ a) × (row_key row ≡ some a ∷ x ∷ [])

-- The row's key is `(i, m)`, with `m` from `j` on.
abbrev Within : ℕ → ℕ → Solution → Type 0
Within i j row = (m : ℕ) × (j ≤ m) × (row_key row ≡ some i ∷ some m ∷ [])

IsIncreasing-append :
    (xs ys : List Solution)
    → IsIncreasing keys xs
    → IsIncreasing keys ys
    → All (λ x. All (λ y. key_lt (row_key x) (row_key y) ≡ true) ys) xs
    → IsIncreasing keys (xs ++ ys)
IsIncreasing-append [] ys hx hy h = hy
IsIncreasing-append (x ∷ xs) ys hx hy h = (
  All-append (λ y. key_lt (row_key x) (row_key y) ≡ true) xs ys hx.0 h.0,
  IsIncreasing-append xs ys hx.1 hy h.1,
)

module _ (O : Oxigraph) where
  permission_row-key :
      (i k : ℕ) (p : PermissionSpec) → row_key (permission_row O i k p) ≡ some i ∷ none ∷ []
  unfolding sort_key
  permission_row-key i k p = rw (integer_of-position i)

  constraint_row-key :
      (i k j m : ℕ) (p : PermissionSpec) (c : ConstraintSpec)
      → row_key (constraint_row O (permission_row O i k p) j m c) ≡ some i ∷ some j ∷ []
  unfolding sort_key
  constraint_row-key i k j m p c = rw (integer_of-position i, integer_of-position j)

  constraint_rows-Within :
      (i k j m n : ℕ) (p : PermissionSpec) (cs : List ConstraintSpec)
      → n ≤ j
      → All (Within i n) (constraint_rows O (permission_row O i k p) j m cs)
  unfolding constraint_rows
  constraint_rows-Within i k j m n p [] h = tt
  constraint_rows-Within i k j m n p (c ∷ cs) h = (
    (j, h, constraint_row-key i k j m p c),
    constraint_rows-Within i k (suc j) (suc m) n p cs (omega arith),
  )

  constraint_rows-IsIncreasing :
      (i k j m : ℕ) (p : PermissionSpec) (cs : List ConstraintSpec)
      → IsIncreasing keys (constraint_rows O (permission_row O i k p) j m cs)
  unfolding constraint_rows
  constraint_rows-IsIncreasing i k j m p [] = tt
  constraint_rows-IsIncreasing i k j m p (c ∷ cs) = (
    All-map (Within i (suc j)) _
        (λ y w.
          rw (constraint_row-key i k j m p c, w.2)
            (less_second i (some j) (some w.0) (ground (arith, w.1))))
        (constraint_rows O (permission_row O i k p) (suc j) (suc m) cs)
        (constraint_rows-Within i k (suc j) (suc m) (suc j) p cs (omega arith)),
    constraint_rows-IsIncreasing i k (suc j) (suc m) p cs,
  )

  Within→From : (i j : ℕ) (row : Solution) → Within i j row → From i row
  Within→From i j row w = (i, some w.0, omega arith, w.2)

  -- Every row of a permission has the permission's position for its key.
  abbrev Of : ℕ → Solution → Type 0
  Of i row = (x : Option ℕ) × (row_key row ≡ some i ∷ x ∷ [])

  rows_of-Of : (i k : ℕ) (p : PermissionSpec) → All (Of i) (rows_of O i k p)
  rows_of-Of i k p =
      go (constraint_rows O (permission_row O i k p) 0 (suc k) p.constraints)
        (constraint_rows-Within i k 0 (suc k) 0 p p.constraints (omega arith))
    where
      go :
          (rows : List Solution)
          → All (Within i 0) rows
          → All (Of i) (or_self (permission_row O i k p) rows)
      go [] h = ((none, permission_row-key i k p), tt)
      go (r ∷ rows) h = All-map (Within i 0) (Of i) (λ y w. (some w.0, w.2)) (r ∷ rows) h

  rows_of-IsIncreasing : (i k : ℕ) (p : PermissionSpec) → IsIncreasing keys (rows_of O i k p)
  rows_of-IsIncreasing i k p =
      go (constraint_rows O (permission_row O i k p) 0 (suc k) p.constraints)
        (constraint_rows-IsIncreasing i k 0 (suc k) p p.constraints)
    where
      go :
          (rows : List Solution)
          → IsIncreasing keys rows
          → IsIncreasing keys (or_self (permission_row O i k p) rows)
      go [] h = (tt, tt)
      go (r ∷ rows) h = h

  all_rows-From : (i k n : ℕ) (ps : List PermissionSpec) → n ≤ i → All (From n) (all_rows O i k ps)
  unfolding all_rows
  all_rows-From i k n [] h = tt
  all_rows-From i k n (p ∷ ps) h =
      All-append (From n) (rows_of O i k p) _
        (All-map (Of i) (From n) (λ row o. (i, o.0, h, o.1)) (rows_of O i k p) (rows_of-Of i k p))
        (all_rows-From (suc i) (length p.constraints + suc k) n ps (omega arith))

  pub all_rows-IsIncreasing :
      (i k : ℕ) (ps : List PermissionSpec) → IsIncreasing keys (all_rows O i k ps)
  unfolding all_rows
  all_rows-IsIncreasing i k [] = tt
  all_rows-IsIncreasing i k (p ∷ ps) =
      let k' = length p.constraints + suc k in
      IsIncreasing-append (rows_of O i k p) (all_rows O (suc i) k' ps) (rows_of-IsIncreasing i k p)
        (all_rows-IsIncreasing (suc i) k' ps)
        (All-map (Of i)
          (λ x. All (λ y. key_lt (row_key x) (row_key y) ≡ true) (all_rows O (suc i) k' ps))
          (λ x o.
            All-map (From (suc i)) (λ y. key_lt (row_key x) (row_key y) ≡ true)
              (λ y f. rw (o.1, f.3) (less_first i f.0 o.0 f.1 (omega arith)))
              (all_rows O (suc i) k' ps) (all_rows-From (suc i) k' (suc i) ps (omega arith)))
          (rows_of O i k p) (rows_of-Of i k p))

  position-sortable : (n : ℕ) → (m : ℕ) × (integer_of (position n) ≡ some m)
  position-sortable n = (n, integer_of-position n)

  constraint_rows-IsSortable :
      (i k j m : ℕ) (p : PermissionSpec) (cs : List ConstraintSpec)
      → All (IsSortable keys) (constraint_rows O (permission_row O i k p) j m cs)
  unfolding constraint_rows get
  constraint_rows-IsSortable i k j m p [] = tt
  constraint_rows-IsSortable i k j m p (c ∷ cs) = (
    (position-sortable i, (position-sortable j, tt)),
    constraint_rows-IsSortable i k (suc j) (suc m) p cs,
  )

  rows_of-IsSortable :
      (i k : ℕ) (p : PermissionSpec) (rows : List Solution)
      → All (IsSortable keys) rows
      → All (IsSortable keys) (or_self (permission_row O i k p) rows)
  unfolding get
  rows_of-IsSortable i k p [] h = ((position-sortable i, (tt, tt)), tt)
  rows_of-IsSortable i k p (r ∷ rows) h = h

  pub all_rows-IsSortable :
      (i k : ℕ) (ps : List PermissionSpec) → All (IsSortable keys) (all_rows O i k ps)
  unfolding all_rows
  all_rows-IsSortable i k [] = tt
  all_rows-IsSortable i k (p ∷ ps) =
      All-append (IsSortable keys) (rows_of O i k p) _
        (rows_of-IsSortable i k p _ (constraint_rows-IsSortable i k 0 (suc k) p p.constraints))
        (all_rows-IsSortable (suc i) (length p.constraints + suc k) ps)
