-- ===== src/Rdf/Laws.antt =====
-- Equality of terms is decided by `term_eq`.
use ds_sql_dps_rs.Prelude.{◌≡◌, ap, true, arith, eq_iff, eq_refl}
use ds_sql_dps_rs.Rdf.{Term, named_node, blank_node, simple_literal, typed_literal, term_eq}

pub term_eq_refl : (t : Term) → term_eq t t ≡ true
unfolding term_eq
term_eq_refl (named_node a) = eq_refl a
term_eq_refl (blank_node a) = eq_refl a
term_eq_refl (simple_literal a) = eq_refl a
term_eq_refl (typed_literal a d) = rw (eq_refl a, eq_refl d)

pub eq_of_term_eq : (t u : Term) → term_eq t u ≡ true → t ≡ u
unfolding term_eq
eq_of_term_eq (named_node a) (named_node b) h = ap named_node ((eq_iff a b).0 h)
eq_of_term_eq (blank_node a) (blank_node b) h = ap blank_node ((eq_iff a b).0 h)
eq_of_term_eq (simple_literal a) (simple_literal b) h = ap simple_literal ((eq_iff a b).0 h)
eq_of_term_eq (typed_literal a d) (typed_literal b e) h = ground (arith, eq_iff a b, eq_iff d e)
eq_of_term_eq (named_node a) _ h = cc
eq_of_term_eq (blank_node a) _ h = cc
eq_of_term_eq (simple_literal a) _ h = cc
eq_of_term_eq (typed_literal a d) _ h = cc
