-- ===== src/Dataplane/Tokens.antt =====
-- dataplane/src/tokens.rs: the bearer tokens. The lock is held for each whole operation, so an
-- operation is one function on the map. `uuid n` is the `n`-th `Uuid::new_v4()` of the process.
pub mod Laws
pub mod Revoked
use ds_sql_dps_rs.Prelude.{
  String, ℕ, suc, Option, none, some, List, [], ◌∷◌, ◌==◌, not, if◌then◌else◌,
}

pub record TokenRecord : Type 0 where
  pub flow_id : String
  pub dataset_id : String

-- `HashMap<String, TokenRecord>`, and how many tokens have been made.
pub record TokenStore : Type 0 where
  pub tokens : List (String × TokenRecord)
  pub issued : ℕ

abbrev pub default : TokenStore
default = record { tokens = []; issued = 0 }

-- `HashMap::get`
unfoldable pub find : String → List (String × TokenRecord) → Option TokenRecord
find token [] = none
find token ((key, entry) ∷ rest) = if key == token then some entry else find token rest

-- `HashMap::insert`: the value of a key that is there is replaced.
unfoldable pub insert :
    String → TokenRecord → List (String × TokenRecord) → List (String × TokenRecord)
insert token entry [] = (token, entry) ∷ []
insert token entry ((key, old) ∷ rest) =
    if key == token then (key, entry) ∷ rest else (key, old) ∷ insert token entry rest

-- `HashMap::retain(|_, record| record.flow_id != flow_id)`
unfoldable pub retain_other : String → List (String × TokenRecord) → List (String × TokenRecord)
retain_other flow_id [] = []
retain_other flow_id ((key, entry) ∷ rest) =
    let kept = retain_other flow_id rest in
    if not (entry.flow_id == flow_id) then (key, entry) ∷ kept else kept

module _ (uuid : ℕ → String) where
  unfoldable pub issue : String → String → TokenStore → String × TokenStore
  unfolding insert
  issue flow_id dataset_id s =
      let token = uuid s.issued in
      (
        token,
        record {
          tokens = insert token (record { flow_id = flow_id; dataset_id = dataset_id }) s.tokens;
          issued = suc s.issued;
        },
      )

unfoldable pub lookup : String → TokenStore → Option TokenRecord
unfolding find
lookup token s = find token s.tokens

unfoldable pub revoke_flow : String → TokenStore → TokenStore
unfolding retain_other
revoke_flow flow_id s = record s { tokens = retain_other flow_id s.tokens }
