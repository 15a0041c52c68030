-- ===== src/Dataplane/Registration/RoundTrip.antt =====
-- dataplane/src/registration.rs: what a control plane reads out of the body of a registration.
use ds_sql_dps_rs.Prelude.{
  String, ◌≡◌, refl, ap, Option, none, some, List, [], ◌∷◌, ◌==◌, if◌then◌else◌,
}
use ds_sql_dps_rs.ConfigGraph.Json.{
  Json, null, string, arr, obj, Items, nil, cons, Fields, end, field, strings,
}
use ds_sql_dps_rs.Dataplane.Registration.{DataPlaneRegistration, registration_json}

-- The value of a field.
unfoldable pub member : String → Fields → Option Json
member name end = none
member name (field other x rest) =
    let later = member name rest in if other == name then some x else later

abbrev as_text : Json → String
as_text null = ""
as_text (string s) = s
as_text (arr xs) = ""
as_text (obj fs) = ""

abbrev texts : Items → List String
texts nil = []
texts (cons x xs) = as_text x ∷ texts xs

abbrev as_texts : Json → List String
as_texts null = []
as_texts (string s) = []
as_texts (arr xs) = texts xs
as_texts (obj fs) = []

abbrev option_map {ℓ κ} : {A : Type ℓ} → {B : Type κ} → (A → B) → Option A → Option B
option_map f none = none
option_map f (some x) = some (f x)

abbrev or_empty : Option Json → Json
or_empty none = null
or_empty (some x) = x

-- A registration by the names of its fields.
abbrev registration_of_fields : Fields → DataPlaneRegistration
registration_of_fields fs = record {
  dataplane_id = as_text (or_empty (member "dataplaneId" fs));
  endpoint = as_text (or_empty (member "endpoint" fs));
  transfer_types = as_texts (or_empty (member "transferTypes" fs));
  labels = option_map as_texts (member "labels" fs);
  authorization = member "authorization" fs;
}

abbrev pub read_registration : Json → Option DataPlaneRegistration
read_registration null = none
read_registration (string s) = none
read_registration (arr xs) = none
read_registration (obj fs) = some (registration_of_fields fs)

texts-strings : (ls : List String) → texts (strings ls) ≡ ls
texts-strings [] = refl
texts-strings (l ∷ ls) = ap (λ t. l ∷ t) (texts-strings ls)

read_parts :
    (id endpoint : String) (ts : List String) (labels : Option (List String)) (auth : Option Json)
    → read_registration (
        registration_json (record {
          dataplane_id = id;
          endpoint = endpoint;
          transfer_types = ts;
          labels = labels;
          authorization = auth;
        }))
      ≡ some (record {
        dataplane_id = id;
        endpoint = endpoint;
        transfer_types = ts;
        labels = labels;
        authorization = auth;
      })
unfolding registration_json member
read_parts id endpoint ts none none = rw (texts-strings ts)
read_parts id endpoint ts none (some x) = rw (texts-strings ts)
read_parts id endpoint ts (some ls) none = rw (texts-strings ts, texts-strings ls)
read_parts id endpoint ts (some ls) (some x) = rw (texts-strings ts, texts-strings ls)

-- The body says all of a registration: read by the names of its fields it gives it back, also
-- where labels or an authorization are left out.
pub read_registration-registration_json :
    (r : DataPlaneRegistration) → read_registration (registration_json r) ≡ some r
read_registration-registration_json r =
    read_parts r.dataplane_id r.endpoint r.transfer_types r.labels r.authorization
