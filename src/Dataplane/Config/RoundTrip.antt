-- ===== src/Dataplane/Config/RoundTrip.antt =====
-- dataplane/src/config.rs: an environment that says all of a configuration.
use Prim.Native.Char.{code}
use ds_sql_dps_rs.Prelude.{
  String, ℕ, ◌^◌, ◌<◌, Bool, true, false, ◌≡◌, refl, none, some, List, [], ◌∷◌, ◌↔◌, ◌⊎◌, eq_iff,
  ◌==◌, nat_eq, if◌then◌else◌, arith, Bool-cases, inl, inr,
}
use ds_sql_dps_rs.Prelude.Decimal.{
  to_string, integer_value, integer_value-to_string, integer_value-digit,
}
use ds_sql_dps_rs.ConfigGraph.Offer.{unicode}
use ds_sql_dps_rs.Dataplane.Config.{
  Config, Environment, env_or, parse_u16, is_on, from_env, strip_plus, lower, eq_ignore_ascii_case,
}

strip_plus-number : (s : String) (n : ℕ) → integer_value s ≡ some n → strip_plus s ≡ s
strip_plus-number String.[] n h = refl
strip_plus-number (String.◌∷◌ c s) n h = elim (Bool-cases (nat_eq (code c) b'+')) [
  | inl e ↦ let d = integer_value-digit c s n h in absurd (ground (arith, e, d))
  | inr e ↦ rw e
]

-- Every port reads back from its decimal text.
parse_u16-to_string : (n : ℕ) → n < 2 ^ 16 → parse_u16 (to_string n) ≡ some n
unfolding parse_u16
parse_u16-to_string n small =
    rw
      (
        parse_u16,
        strip_plus-number (to_string n) n (integer_value-to_string n),
        integer_value-to_string n,
      )
      (ground (arith, small))

-- The environment that sets each variable as the configuration says, with a path in Unicode.
abbrev pub environment_of : String → Config → Environment
environment_of path c key =
    if key == "DATASET_ID"
    then some c.dataset_id
    else if key == "FILE_PATH"
    then some path
    else if key == "MEDIA_TYPE"
    then some c.media_type
    else if key == "ASSIGNER"
    then some c.assigner
    else if key == "POLICY_NOT_AFTER"
    then c.policy_not_after
    else if key == "SIGNALING_PORT"
    then some (to_string c.signaling_port)
    else if key == "PUBLIC_PORT"
    then some (to_string c.public_port)
    else if key == "PUBLIC_BASE_URL"
    then some c.public_base_url
    else if key == "PARTICIPANT_CONTEXT_ID"
    then some c.participant_context_id
    else if key == "DATAPLANE_ID"
    then some c.dataplane_id
    else if key == "CONTROL_PLANE_URL"
    then c.control_plane_url
    else if key == "TCK_MODE"
    then (if c.tck_mode then some "TRUE" else some "0")
    else none

is_on-shown : (b : Bool) → is_on (if b then some "TRUE" else some "0") ≡ b
unfolding is_on
is_on-shown true = refl
is_on-shown false = refl

-- A configuration whose ports are below 2^16 is read back from the environment that sets each
-- variable as it says: every field comes from its own variable.
pub from_env-environment_of :
    (path : String) (c : Config)
    → c.public_port < 2 ^ 16
    → c.signaling_port < 2 ^ 16
    → from_env (environment_of path c) ≡ some (record c { file_path = unicode path })
unfolding from_env env_or
from_env-environment_of path c public signaling = rw (
  from_env,
  parse_u16-to_string c.public_port public,
  parse_u16-to_string c.signaling_port signaling,
  is_on-shown c.tck_mode,
)

-- The characters of a text, with ASCII letters in lower case.
unfoldable pub folded : String → List ℕ
folded String.[] = []
folded (String.◌∷◌ c s) = lower (code c) ∷ folded s

-- `eq_ignore_ascii_case` is equality of the texts with ASCII letters in lower case.
eq_ignore_ascii_case-folded :
    (s t : String) → (eq_ignore_ascii_case s t ≡ true) ↔ (folded s ≡ folded t)
unfolding eq_ignore_ascii_case folded
eq_ignore_ascii_case-folded String.[] String.[] = (λ h. refl, λ h. refl)
eq_ignore_ascii_case-folded String.[] (String.◌∷◌ d t) =
    (λ h. absurd (cc (h)), λ h. absurd (cc (h)))
eq_ignore_ascii_case-folded (String.◌∷◌ c s) String.[] =
    (λ h. absurd (cc (h)), λ h. absurd (cc (h)))
eq_ignore_ascii_case-folded (String.◌∷◌ c s) (String.◌∷◌ d t) =
    let rest = eq_ignore_ascii_case-folded s t in
    (λ h. grind (arith, h, rest.0), λ h. grind (arith, h, rest.1))

-- TCK mode is on for exactly the texts `1` and `true`, the latter with letters of either case.
pub is_on-folded : (v : String) → (is_on (some v) ≡ true) ↔ ((v ≡ "1") ⊎ (folded v ≡ folded "true"))
unfolding is_on
is_on-folded v =
    let one = eq_iff v "1" in
    let word = eq_ignore_ascii_case-folded v "true" in
    (
      λ h. elim (Bool-cases (v == "1")) [
        | inl e ↦ inl (one.0 e)
        | inr e ↦ inr (word.0 (ground (arith, h, e)))
      ],
      λ h. elim h [ inl e ↦ ground (arith, one.1 e) | inr e ↦ ground (arith, word.1 e) ],
    )
