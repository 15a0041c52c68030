-- ===== src/ConfigGraph/Seed/Differ.antt =====
-- Quads that are new to a store, and all different, are appended to it.
use ds_sql_dps_rs.Prelude.{false, ◌≡◌, refl, sym, ◌∙◌, List, [], ◌∷◌, ◌++◌, All, arith, ◌||◌}
use mathlib.Core.List.{foldl, append_assoc, append-nil}
use ds_sql_dps_rs.Rdf.{Quad, quad_eq, Graph}
use ds_sql_dps_rs.Oxigraph.{has, add}

-- None of the quads equals one that stands before it.
abbrev pub AllDiffer : List Quad → Type 0
AllDiffer [] = Unit
AllDiffer (q ∷ qs) = All (λ r. quad_eq r q ≡ false) qs × AllDiffer qs

has-append : (q : Quad) (g h : Graph) → has q (g ++ h) ≡ (has q g || has q h)
unfolding has
has-append q [] h = refl
has-append q (x ∷ g) h = ground (arith, has-append q g h)

All-new_after :
    (g : Graph) (q : Quad) (qs : List Quad)
    → All (λ r. has r g ≡ false) qs
    → All (λ r. quad_eq r q ≡ false) qs
    → All (λ r. has r (g ++ (q ∷ [])) ≡ false) qs
unfolding has
All-new_after g q [] new differ = tt
All-new_after g q (r ∷ qs) new differ =
    (rw has-append (ground (arith, new.0, differ.0)), All-new_after g q qs new.1 differ.1)

-- Quads that are new and differ are appended.
pub add-All :
    (g : Graph) (qs : List Quad)
    → All (λ r. has r g ≡ false) qs
    → AllDiffer qs
    → foldl add g qs ≡ g ++ qs
unfolding add
add-All g [] new differ = sym (append-nil g)
add-All g (q ∷ qs) new differ =
    rw (new.0, add)
      (add-All (g ++ (q ∷ [])) qs (All-new_after g q qs new.1 differ.0) differ.1
        ∙ append_assoc g (q ∷ []) qs)
