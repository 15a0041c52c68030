-- ===== src/Dataplane/Config.antt =====
-- dataplane/src/config.rs: the configuration, read from the environment, and the offer it makes.
pub mod Laws
pub mod RoundTrip
use Prim.Native.Char.{Char, code}
use ds_sql_dps_rs.Prelude.{
  String, ◌<>◌, ℕ, ◌+◌, ◌^◌, Bool, true, false, Option, none, some, List, [], ◌∷◌, map, ◌||◌, ◌&&◌,
  ◌==◌, ltb, leb, nat_eq, if◌then◌else◌,
}
use ds_sql_dps_rs.Prelude.Decimal.{to_string, integer_value}
use ds_sql_dps_rs.ConfigGraph.Offer.{
  PathBuf, unicode, to_string_lossy, FileOffer, PermissionSpec, ConstraintSpec,
}

pub record Config : Type 0 where
  pub dataset_id : String
  pub file_path : PathBuf
  pub media_type : String
  pub assigner : String
  pub policy_not_after : Option String
  pub signaling_port : ℕ
  pub public_port : ℕ
  pub public_base_url : String
  pub participant_context_id : String
  pub dataplane_id : String
  pub control_plane_url : Option String
  pub tck_mode : Bool

-- `std::env::var(_).ok()`: none for a variable that is not set, or is no Unicode.
abbrev pub Environment : Type 0
Environment = String → Option String

unfoldable pub env_or : Environment → String → String → String
env_or env key standard = elim (env key) [ none ↦ standard | some value ↦ value ]

abbrev pub strip_plus : String → String
strip_plus String.[] = String.[]
strip_plus (String.◌∷◌ c rest) = if nat_eq (code c) b'+' then rest else String.◌∷◌ c rest

abbrev bounded : Option ℕ → Option ℕ
bounded none = none
bounded (some n) = if ltb n (2 ^ 16) then some n else none

-- `str::parse::<u16>()`: digits after at most one `+`, and a value below 2^16.
unfoldable pub parse_u16 : String → Option ℕ
parse_u16 s = bounded (integer_value (strip_plus s))

abbrev lower : ℕ → ℕ
lower c = if leb 65 c && leb c 90 then c + 32 else c

-- `str::eq_ignore_ascii_case`
unfoldable pub eq_ignore_ascii_case : String → String → Bool
eq_ignore_ascii_case String.[] String.[] = true
eq_ignore_ascii_case (String.◌∷◌ c s) (String.◌∷◌ d t) =
    nat_eq (lower (code c)) (lower (code d)) && eq_ignore_ascii_case s t
eq_ignore_ascii_case String.[] (String.◌∷◌ d t) = false
eq_ignore_ascii_case (String.◌∷◌ c s) String.[] = false

-- The test of `TCK_MODE`.
unfoldable pub is_on : Option String → Bool
unfolding eq_ignore_ascii_case
is_on none = false
is_on (some v) = v == "1" || eq_ignore_ascii_case v "true"

-- `None` where `expect` panics: a port that is no u16.
unfoldable pub from_env : Environment → Option Config
unfolding env_or parse_u16 is_on
from_env env = elim (parse_u16 (env_or env "PUBLIC_PORT" "9192")) [
  | none ↦ none
  | some public_port ↦
      let public_base_url =
        env_or env "PUBLIC_BASE_URL" ("http://localhost:" <> to_string public_port) in
      elim (parse_u16 (env_or env "SIGNALING_PORT" "9191")) [
        | none ↦ none
        | some signaling_port ↦ some (record {
          dataset_id = env_or env "DATASET_ID" "primary";
          file_path = unicode (env_or env "FILE_PATH" "sample-data/sample.csv");
          media_type = env_or env "MEDIA_TYPE" "text/csv";
          assigner = env_or env "ASSIGNER" "ds-sql-dps-rs";
          policy_not_after = env "POLICY_NOT_AFTER";
          signaling_port = signaling_port;
          public_port = public_port;
          public_base_url = public_base_url;
          participant_context_id = env_or env "PARTICIPANT_CONTEXT_ID" "ds-sql-dps-rs";
          dataplane_id = env_or env "DATAPLANE_ID" "ds-sql-dps-rs-dataplane";
          control_plane_url = env "CONTROL_PLANE_URL";
          tck_mode = is_on (env "TCK_MODE");
        })
      ]
]

unfoldable pub for_test : PathBuf → Config
for_test file_path = record {
  dataset_id = "primary";
  file_path = file_path;
  media_type = "text/csv";
  assigner = "ds-sql-dps-rs-test";
  policy_not_after = none;
  signaling_port = 0;
  public_port = 0;
  public_base_url = "";
  participant_context_id = "ds-sql-dps-rs";
  dataplane_id = "ds-sql-dps-rs-dataplane";
  control_plane_url = none;
  tck_mode = false;
}

unfoldable pub with_policy_not_after : String → Config → Config
with_policy_not_after not_after c = record c { policy_not_after = some not_after }

abbrev pub deadline_constraints : Option String → List ConstraintSpec
deadline_constraints none = []
deadline_constraints (some not_after) =
    record { left_operand = "dateTime"; operator = "lteq"; right_operand = not_after } ∷ []

unfoldable pub file_offer : Config → FileOffer
file_offer c = record {
  dataset_id = c.dataset_id;
  title = to_string_lossy c.file_path <> " (ds-sql-dps-rs data offer)";
  file_path = c.file_path;
  media_type = c.media_type;
  assigner = c.assigner;
  permissions =
      record { action = "use"; constraints = deadline_constraints c.policy_not_after } ∷ [];
}
