-- ===== src/ConfigGraph/UnitTests.antt =====
-- The unit tests of config-graph/src/store.rs, over any store. An error is the message of a panic.
pub mod Laws
use ds_sql_dps_rs.Prelude.{
  String, ℕ, zero, suc, Bool, true, false, ◌&&◌, List, [], ◌∷◌, length, nat_eq, Option, none, some,
  Result, ok, err, ◌>>=◌, ◌==◌, expect, expect_some, assert,
}
use ds_sql_dps_rs.Oxigraph.{Oxigraph}
use ds_sql_dps_rs.ConfigGraph.Offer.{unicode, FileOffer, ConstraintSpec}
use ds_sql_dps_rs.ConfigGraph.Json.{Json}
use ds_sql_dps_rs.ConfigGraph.Json.Access.{get, index, as_array, as_str, is_text}
use ds_sql_dps_rs.ConfigGraph.Store.{open_in_memory}
use ds_sql_dps_rs.ConfigGraph.Seed.{seed_offer}
use ds_sql_dps_rs.ConfigGraph.Policy.{policy_jsonld}

abbrev constraint : String → String → String → ConstraintSpec
constraint left op right = record { left_operand = left; operator = op; right_operand = right }

abbrev pub multi_permission_offer : FileOffer
multi_permission_offer = record {
  dataset_id = "multi";
  title = "multi-permission test offer";
  file_path = unicode "sample-data/sample.csv";
  media_type = "text/csv";
  assigner = "test-assigner";
  permissions =
      record {
        action = "use";
        constraints =
            constraint "dateTime" "lteq" "2030-01-01T00:00:00Z"
            ∷ constraint "count" "lteq" "10"
            ∷ constraint "purpose" "eq" "research"
            ∷ [];
      }
      ∷ record {
        action = "distribute";
        constraints =
            constraint "spatial" "eq" "EU"
            ∷ constraint "dateTime" "gteq" "2020-01-01T00:00:00Z"
            ∷ [];
      }
      ∷ [];
}

-- The offer of the second test.
abbrev pub unconstrained_offer : FileOffer
unconstrained_offer = record {
  dataset_id = "no-constraints";
  title = "unconstrained permission";
  file_path = unicode "sample-data/sample.csv";
  media_type = "text/csv";
  assigner = "test-assigner";
  permissions = record { action = "use"; constraints = [] } ∷ [];
}

-- `values[n]` on a vector.
abbrev item : List Json → ℕ → Result String Json
item [] n = err "index out of bounds"
item (x ∷ xs) zero = ok x
item (x ∷ xs) (suc n) = item xs n

-- The `leftOperand` of each constraint.
abbrev left_operands : List Json → Result String (List String)
left_operands [] = ok []
left_operands (c ∷ cs) = do
  left ← expect_some "leftOperand is a string" (as_str (index c "leftOperand"))
  rest ← left_operands cs
  ok (left ∷ rest)

abbrev texts_eq : List String → List String → Bool
texts_eq [] [] = true
texts_eq [] (t ∷ ts) = false
texts_eq (s ∷ ss) [] = false
texts_eq (s ∷ ss) (t ∷ ts) = (s == t) && texts_eq ss ts

abbrev is_none : Option Json → Bool
is_none none = true
is_none (some value) = false

module _ (O : Oxigraph) where
  -- The first lines of both tests: the offer is seeded into a fresh graph, and its policy read.
  abbrev read_after_seeding : String → FileOffer → Result String (List Json)
  read_after_seeding message offer = do
    graph ← expect "open in-memory store" (open_in_memory O)
    seeded ← expect "seed_offer" (seed_offer O offer graph).0
    doc ← expect "policy_jsonld" (policy_jsonld O offer.dataset_id (seed_offer O offer graph).1)
    expect_some message (as_array (index doc "permission"))

  unfoldable pub policy_jsonld_preserves_permission_and_constraint_order : Result String (Unit {0})
  policy_jsonld_preserves_permission_and_constraint_order = do
    permissions ← read_after_seeding "permission is a JSON array" multi_permission_offer
    both ← assert "both permissions must round-trip" (nat_eq (length permissions) 2)
    use_permission ← item permissions 0
    first ← assert "use" (is_text (index use_permission "action") "use")
    distribute_permission ← item permissions 1
    second ← assert "distribute" (is_text (index distribute_permission "action") "distribute")
    use_constraints ←
        expect_some "first permission's constraint is a JSON array"
          (as_array (index use_permission "constraint"))
    use_left_operands ← left_operands use_constraints
    in_order ←
        assert "left operands of use"
          (texts_eq use_left_operands ("dateTime" ∷ "count" ∷ "purpose" ∷ []))
    distribute_constraints ←
        expect_some "second permission's constraint is a JSON array"
          (as_array (index distribute_permission "constraint"))
    distribute_left_operands ← left_operands distribute_constraints
    in_order_too ←
        assert "left operands of distribute"
          (texts_eq distribute_left_operands ("spatial" ∷ "dateTime" ∷ []))
    middle ← item use_constraints 1
    operator ← assert "operator" (is_text (index middle "operator") "lteq")
    assert "rightOperand" (is_text (index middle "rightOperand") "10")

  unfoldable pub policy_jsonld_omits_constraint_array_when_permission_has_none :
      Result String (Unit {0})
  policy_jsonld_omits_constraint_array_when_permission_has_none = do
    permissions ← read_after_seeding "permission array" unconstrained_offer
    one ← assert "one permission" (nat_eq (length permissions) 1)
    first ← item permissions 0
    action ← assert "use" (is_text (index first "action") "use")
    assert "an unconstrained permission must not carry an empty constraint array"
        (is_none (get "constraint" first))
