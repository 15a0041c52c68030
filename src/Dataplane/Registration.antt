-- ===== src/Dataplane/Registration.antt =====
-- dataplane/src/registration.rs: the registration with a control plane. The HTTP client is a
-- parameter.
pub mod Laws
pub mod RoundTrip
use Prim.Native.Char.{code}
use ds_sql_dps_rs.Prelude.{
  String, ◌<>◌, ℕ, Bool, Option, none, some, List, Result, ok, err, ◌==◌, ◌&&◌, ltb, leb, nat_eq,
  if◌then◌else◌,
}
use ds_sql_dps_rs.ConfigGraph.Json.{Json, string, arr, obj, Fields, end, field, strings}

pub record DataPlaneRegistration : Type 0 where
  pub dataplane_id : String
  pub endpoint : String
  pub transfer_types : List String
  pub labels : Option (List String)
  pub authorization : Option Json

-- `Serialize`: camel case, and fields that are `None` are left out.
abbrev pub optional_field : String → Option Json → Fields → Fields
optional_field name none rest = rest
optional_field name (some v) rest = field name v rest

abbrev pub labels_json : Option (List String) → Option Json
labels_json none = none
labels_json (some ls) = some (arr (strings ls))

unfoldable pub registration_json : DataPlaneRegistration → Json
registration_json r = obj (
    field "dataplaneId" (string r.dataplane_id) (
      field "endpoint" (string r.endpoint) (
        field "transferTypes" (arr (strings r.transfer_types)) (
          optional_field "labels" (labels_json r.labels)
            (optional_field "authorization" r.authorization end)))))

pub data RegistrationError : Type 0 where
  request : (url source : String) → RegistrationError
  non_success_status : (url : String) (status : ℕ) (body : String) → RegistrationError

-- `reqwest::Response`: reading the body can fail.
pub record HttpResponse : Type 0 where
  pub status : ℕ
  pub text : Result String String

-- `reqwest::Client::put(url).json(body).send()`
abbrev pub Put : Type 0
Put = String → Json → Result String HttpResponse

-- `StatusCode::is_success`
unfoldable pub is_success : ℕ → Bool
is_success status = leb 200 status && ltb status 300

-- `trim_end_matches('/')`
unfoldable pub trim_end_slashes : String → String
trim_end_slashes String.[] = String.[]
trim_end_slashes (String.◌∷◌ c s) =
    let rest = trim_end_slashes s in
    if nat_eq (code c) b'/' && rest == "" then "" else String.◌∷◌ c rest

unfoldable pub registration_url : String → String → String
unfolding trim_end_slashes
registration_url base participant =
    trim_end_slashes base <> ("/v5beta/participants/" <> (participant <> "/dataplanes"))

abbrev pub body_text : Result String String → String
body_text (ok body) = body
body_text (err e) = "<failed to read response body: " <> (e <> ">")

unfoldable pub register_with_control_plane :
    Put → String → String → DataPlaneRegistration → Result RegistrationError (Unit {0})
unfolding is_success
register_with_control_plane put base participant registration =
    let url = registration_url base participant in
    elim (put url (registration_json registration)) [
      | err source ↦ err (request url source)
      | ok response ↦
          if is_success response.status
          then ok tt
          else err (non_success_status url response.status (body_text response.text))
    ]
