-- ===== src/ConfigGraph/Ids.antt =====
-- The IRIs of config-graph/src/store.rs, for dataset ids without a `#`.
use Prim.Native.Char.{code}
use ds_sql_dps_rs.Prelude.{
  String, ◌<>◌, Bool, true, false, ◌≡◌, ◌≢◌, refl, ap, sym, ◌∙◌, ◌||◌, nat_eq, eq_of_ne, eq_iff,
  if◌then◌else◌, arith,
}
use text.Mathlib.TextLemmas.{
  cons-append, nil-append, append_assoc, append_cancel_left, append_cancel_right,
}
use ds_sql_dps_rs.ConfigGraph.Store.{dataset_iri, distribution_iri, policy_iri}
use ds_sql_dps_rs.ConfigGraph.RoundTrip.{IsApart}

unfoldable pub has_hash : String → Bool
has_hash String.[] = false
has_hash (String.◌∷◌ c s) = nat_eq (code c) b'#' || has_hash s

-- What stands behind the first `#`.
after_hash : String → String
after_hash String.[] = ""
after_hash (String.◌∷◌ c s) = let rest = after_hash s in if nat_eq (code c) b'#' then s else rest

has_hash-append : (s t : String) → has_hash (s <> t) ≡ (has_hash s || has_hash t)
unfolding has_hash
has_hash-append String.[] t = rw nil-append refl
has_hash-append (String.◌∷◌ c s) t = rw cons-append (ground (arith, has_hash-append s t))

after_hash-append : (s t : String) → has_hash s ≡ false → after_hash (s <> t) ≡ after_hash t
unfolding has_hash after_hash
after_hash-append String.[] t h = rw nil-append refl
after_hash-append (String.◌∷◌ c s) t h = rw cons-append (ground (arith, after_hash-append s t))

abbrev prefix : String
prefix = "urn:ds-sql-dps-rs:dataset:"

module _ (a b : String) (plain_a : has_hash a ≡ false) (plain_b : has_hash b ≡ false) where
  -- A fragment makes the difference.
  fragment_ne : (f : String) → has_hash f ≡ true → (dataset_iri b <> f) ≢ dataset_iri a
  unfolding dataset_iri
  fragment_ne f h e =
      let e' : b <> f ≡ a =
        append_cancel_left prefix (b <> f) a (sym (append_assoc prefix b f) ∙ e) in
      cc (plain_a, h, plain_b, has_hash-append b f, ap has_hash e')

  fragments_ne :
      (f g : String) → after_hash f ≢ after_hash g → (dataset_iri b <> f) ≢ (dataset_iri a <> g)
  unfolding dataset_iri
  fragments_ne f g ne e =
      let e' : b <> f ≡ a <> g =
        append_cancel_left prefix (b <> f) (a <> g)
          (sym (append_assoc prefix b f) ∙ e ∙ append_assoc prefix a g) in
      ne (sym (after_hash-append b f plain_b) ∙ ap after_hash e' ∙ after_hash-append a g plain_a)

  dataset_ne : a ≢ b → dataset_iri b ≢ dataset_iri a
  unfolding dataset_iri
  dataset_ne ne e = ne (sym (append_cancel_left prefix b a e))

  same_fragment_ne : (f : String) → a ≢ b → (dataset_iri b <> f) ≢ (dataset_iri a <> f)
  same_fragment_ne f ne e = dataset_ne ne (append_cancel_right (dataset_iri b) (dataset_iri a) f e)

policy_ne : after_hash "#policy" ≢ after_hash "#distribution"
unfolding after_hash
policy_ne = ground (arith, eq_iff "policy" "distribution")

-- Different ids without a `#` make IRIs that are all different.
pub plain-IsApart : (a b : String) → a ≢ b → has_hash a ≡ false → has_hash b ≡ false → IsApart a b
unfolding distribution_iri policy_iri has_hash
plain-IsApart a b ne pa pb = record {
  dataset = (
    eq_of_ne _ _ (dataset_ne a b pa pb ne),
    eq_of_ne _ _ (fragment_ne a b pa pb "#distribution" refl),
    eq_of_ne _ _ (fragment_ne a b pa pb "#policy" refl),
  );
  distribution = (
    eq_of_ne _ _ (λ e. fragment_ne b a pb pa "#distribution" refl (sym e)),
    eq_of_ne _ _ (same_fragment_ne a b pa pb "#distribution" ne),
    eq_of_ne _ _ (fragments_ne a b pa pb "#policy" "#distribution" policy_ne),
  );
  policy = (
    eq_of_ne _ _ (λ e. fragment_ne b a pb pa "#policy" refl (sym e)),
    eq_of_ne _ _ (fragments_ne a b pa pb "#distribution" "#policy" (λ e. policy_ne (sym e))),
    eq_of_ne _ _ (same_fragment_ne a b pa pb "#policy" ne),
  );
}
