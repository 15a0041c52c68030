-- ===== src/ConfigGraph/Offer.antt =====
-- config-graph/src/offer.rs: the authored input, and the paths of the standard library.
use ds_sql_dps_rs.Prelude.{String, ℕ, List}

-- `std::path::PathBuf`: a text, or bytes that are no Unicode, which print as `lossy`.
pub data PathBuf : Type 0 where
  unicode : String → PathBuf
  other : (bytes : List ℕ) (lossy : String) → PathBuf

-- `Path::to_string_lossy`, and `Path::display`, which prints the same text.
unfoldable pub to_string_lossy : PathBuf → String
to_string_lossy (unicode s) = s
to_string_lossy (other bytes lossy) = lossy

pub record ConstraintSpec : Type 0 where
  pub left_operand : String
  pub operator : String
  pub right_operand : String

pub record PermissionSpec : Type 0 where
  pub action : String
  pub constraints : List ConstraintSpec

pub record FileOffer : Type 0 where
  pub dataset_id : String
  pub title : String
  pub file_path : PathBuf
  pub media_type : String
  pub assigner : String
  pub permissions : List PermissionSpec
