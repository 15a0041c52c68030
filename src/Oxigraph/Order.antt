-- ===== src/Oxigraph/Order.antt =====
-- Where the keys of ORDER BY all differ, the order of the rows is determined.
use ds_sql_dps_rs.Prelude.{
  String, true, false, ◌≡◌, refl, sym, ap, ◌∙◌, subst, List, [], ◌∷◌, ◌++◌, All,
}
use ds_sql_dps_rs.Sparql.{Solution, sort_key, key_lt}
use ds_sql_dps_rs.Oxigraph.{Shuffle, IsOrdered}

module _ (vs : List String) where
  -- Each row comes strictly before all later ones.
  abbrev pub IsIncreasing : List Solution → Type 0
  IsIncreasing [] = Unit
  IsIncreasing (x ∷ xs) =
      All (λ z. key_lt (sort_key vs x) (sort_key vs z) ≡ true) xs × IsIncreasing xs

  All-remove {κ} :
      (P : Solution → Type κ) (l r : List Solution) (x : Solution)
      → All P (l ++ (x ∷ r))
      → All P (l ++ r) × P x
  All-remove P [] r x h = (h.1, h.0)
  All-remove P (y ∷ l) r x h = let (rest, at) = All-remove P l r x h.1 in ((h.0, rest), at)

  IsOrdered-remove :
      (l r : List Solution) (x : Solution) → IsOrdered vs (l ++ (x ∷ r)) → IsOrdered vs (l ++ r)
  IsOrdered-remove [] r x h = h.1
  IsOrdered-remove (y ∷ l) r x h = (
    (All-remove (λ z. key_lt (sort_key vs z) (sort_key vs y) ≡ false) l r x h.0).0,
    IsOrdered-remove l r x h.1,
  )

  -- Nothing can stand before the least row.
  least_first :
      (l r : List Solution) (x : Solution)
      → IsOrdered vs (l ++ (x ∷ r))
      → All (λ z. key_lt (sort_key vs x) (sort_key vs z) ≡ true) (l ++ r)
      → l ++ (x ∷ r) ≡ x ∷ (l ++ r)
  least_first [] r x h lt = refl
  least_first (y ∷ l) r x h lt =
      let late = (All-remove (λ z. key_lt (sort_key vs z) (sort_key vs y) ≡ false) l r x h.0).1 in
      let early = lt.0 in cc (late, early)

  pub ordered_unique :
      (xs ys : List Solution) → IsIncreasing xs → Shuffle ys xs → IsOrdered vs ys → ys ≡ xs
  ordered_unique [] ys inc sh ord = sh
  ordered_unique (x ∷ xs) ys (lt, inc) (l, r, e, sh) ord =
      let ord' : IsOrdered vs (l ++ (x ∷ r)) = subst (IsOrdered vs) e ord in
      let ih : l ++ r ≡ xs = ordered_unique xs (l ++ r) inc sh (IsOrdered-remove l r x ord') in
      e
      ∙ least_first l r x ord'
          (subst (All (λ z. key_lt (sort_key vs x) (sort_key vs z) ≡ true)) (sym ih) lt)
      ∙ ap (λ t. x ∷ t) ih
