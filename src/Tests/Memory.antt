-- ===== src/Tests/Memory.antt =====
-- A concrete in-memory store: the list of its quads, and answers that are sorted by insertion.
use ds_sql_dps_rs.Prelude.{
  String, ℕ, true, false, ◌≡◌, refl, ap, sym, ◌∙◌, List, [], ◌∷◌, ◌++◌, map, All, ok, err, Result,
  if◌then◌else◌, Option, none, some, arith, Bool-cases, inl, inr, All-map,
}
use ds_sql_dps_rs.Prelude.Decimal.{to_string, integer_value, integer_value-to_string}
use ds_sql_dps_rs.Rdf.{Graph}
use ds_sql_dps_rs.Sparql.{Solution, get, solutions, project, sort_value, sort_key, key_lt}
use ds_sql_dps_rs.Sparql.Text.Lexing.{is_iri_text}
use ds_sql_dps_rs.Sparql.Grammar.{Parsed, parse}
use ds_sql_dps_rs.Oxigraph.{
  QueryFailure, QueryResults, syntax, Oxigraph, solutions_of, add, Shuffle, IsOrdered, IsInMemory,
}

module _ (vs : List String) where
  unfoldable pub place : Solution → List Solution → List Solution
  place x [] = x ∷ []
  place x (y ∷ ys) =
      let rest = place x ys in
      if key_lt (sort_key vs y) (sort_key vs x) then y ∷ rest else x ∷ y ∷ ys

  unfoldable pub sort : List Solution → List Solution
  unfolding place
  sort [] = []
  sort (x ∷ xs) = place x (sort xs)

  place_split :
      (x : Solution) (ys : List Solution)
      → (l : List Solution) × (r : List Solution) × (place x ys ≡ l ++ (x ∷ r)) × (l ++ r ≡ ys)
  unfolding place
  place_split x [] = ([], [], refl, refl)
  place_split x (y ∷ ys) = elim (Bool-cases (key_lt (sort_key vs y) (sort_key vs x))) [
    | inl e ↦ let (l, r, p, q) = place_split x ys in (y ∷ l, r, rw (e, p), ap (λ t. y ∷ t) q)
    | inr e ↦ ([], y ∷ ys, rw (e), refl)
  ]

  sort-Shuffle : (xs : List Solution) → Shuffle (sort xs) xs
  unfolding sort
  sort-Shuffle [] = refl
  sort-Shuffle (x ∷ xs) =
      let (l, r, p, q) = place_split x (sort xs) in (l, r, p, rw q (sort-Shuffle xs))

key_lt_asym_step :
    (a b : Option ℕ) (ks ls : List (Option ℕ))
    → (key_lt ks ls ≡ true → key_lt ls ks ≡ false)
    → key_lt (a ∷ ks) (b ∷ ls) ≡ true
    → key_lt (b ∷ ls) (a ∷ ks) ≡ false
unfolding key_lt
key_lt_asym_step none none ks ls f h = f h
key_lt_asym_step none (some b) ks ls f h = refl
key_lt_asym_step (some a) none ks ls f h = ground (arith)
key_lt_asym_step (some a) (some b) ks ls f h = ground (arith, f)

key_lt_asym : (ks ls : List (Option ℕ)) → key_lt ks ls ≡ true → key_lt ls ks ≡ false
key_lt_asym [] ls h = absurd (unfold key_lt in ground (arith))
key_lt_asym (a ∷ ks) [] h = unfold key_lt in refl
key_lt_asym (a ∷ ks) (b ∷ ls) h = key_lt_asym_step a b ks ls (key_lt_asym ks ls) h

not_less_step :
    (a b c : Option ℕ) (ks ls ms : List (Option ℕ))
    → (key_lt ks ls ≡ false → key_lt ls ms ≡ false → key_lt ks ms ≡ false)
    → key_lt (a ∷ ks) (b ∷ ls) ≡ false
    → key_lt (b ∷ ls) (c ∷ ms) ≡ false
    → key_lt (a ∷ ks) (c ∷ ms) ≡ false
unfolding key_lt
not_less_step none none none ks ls ms f h i = f h i
not_less_step none none (some c) ks ls ms f h i = ground (arith)
not_less_step none (some b) none ks ls ms f h i = ground (arith)
not_less_step none (some b) (some c) ks ls ms f h i = ground (arith)
not_less_step (some a) none none ks ls ms f h i = refl
not_less_step (some a) none (some c) ks ls ms f h i = ground (arith)
not_less_step (some a) (some b) none ks ls ms f h i = refl
not_less_step (some a) (some b) (some c) ks ls ms f h i = ground (arith, f)

-- Not to be less is transitive.
not_less_trans :
    (vs : List String) (x y z : Solution)
    → key_lt (sort_key vs x) (sort_key vs y) ≡ false
    → key_lt (sort_key vs y) (sort_key vs z) ≡ false
    → key_lt (sort_key vs x) (sort_key vs z) ≡ false
unfolding sort_key
not_less_trans [] x y z h i = h
not_less_trans (v ∷ vs) x y z h i =
    not_less_step (sort_value (get v x)) (sort_value (get v y)) (sort_value (get v z))
      (sort_key vs x) (sort_key vs y) (sort_key vs z) (not_less_trans vs x y z) h i

module _ (vs : List String) where
  abbrev NotBefore : Solution → Solution → Type 0
  NotBefore x z = key_lt (sort_key vs z) (sort_key vs x) ≡ false

  All-place :
      (P : Solution → Type 0) (x : Solution) (ys : List Solution)
      → P x
      → All P ys
      → All P (place vs x ys)
  unfolding place
  All-place P x [] h k = (h, tt)
  All-place P x (y ∷ ys) h k = elim (Bool-cases (key_lt (sort_key vs y) (sort_key vs x))) [
    | inl e ↦ rw e (k.0, All-place P x ys h k.1)
    | inr e ↦ rw e (h, k)
  ]

  place-IsOrdered :
      (x : Solution) (ys : List Solution) → IsOrdered vs ys → IsOrdered vs (place vs x ys)
  unfolding place
  place-IsOrdered x [] h = (tt, tt)
  place-IsOrdered x (y ∷ ys) h = elim (Bool-cases (key_lt (sort_key vs y) (sort_key vs x))) [
    | inl e ↦ rw e (
      All-place (NotBefore y) x ys (key_lt_asym (sort_key vs y) (sort_key vs x) e) h.0,
      place-IsOrdered x ys h.1,
    )
    | inr e ↦
        rw e
          ((e, All-map (NotBefore y) (NotBefore x) (λ z i. not_less_trans vs z y x i e) ys h.0), h)
  ]

  sort-IsOrdered : (xs : List Solution) → IsOrdered vs (sort vs xs)
  unfolding sort
  sort-IsOrdered [] = tt
  sort-IsOrdered (x ∷ xs) = place-IsOrdered x (sort vs xs) (sort-IsOrdered xs)

-- A text that is no query of the fragment is refused.
abbrev pub answer : Graph → Option Parsed → Result QueryFailure QueryResults
answer g none = err (syntax "unsupported")
answer g (some p) = ok (
    solutions_of
      (map (λ row. ok (project p.query.select row)) (sort p.query.order_by (solutions p.query g))))

abbrev pub memory : Oxigraph
memory = record {
  Store = Graph;
  new = ok [];
  insert = λ g q. ok (add g q);
  execute = λ g text. answer g (parse text);
  is_iri = is_iri_text;
  iri_error = λ s. s;
  blank = to_string;
}

pub to_string_injective : (j k : ℕ) → to_string j ≡ to_string k → j ≡ k
to_string_injective j k e =
    let both : some j ≡ some k =
      sym (integer_value-to_string j) ∙ ap integer_value e ∙ integer_value-to_string k in
    cc both

pub memory-IsInMemory : IsInMemory memory
memory-IsInMemory = record {
  Holds = λ s g. s ≡ g;
  new_lem = ([], refl, refl);
  insert_lem = λ s g q h. (add s q, refl, ap (λ t. add t q) h);
  execute_lem = λ s g text p h parsed refs valid. (
    sort p.query.order_by (solutions p.query s),
    ap (answer s) parsed,
    record {
      shuffled = rw (sym h) (sort-Shuffle p.query.order_by (solutions p.query s));
      ordered = λ sortable. sort-IsOrdered p.query.order_by (solutions p.query s);
    },
  );
  iri_lem = λ i valid. valid;
  blank_injective = to_string_injective;
}
