-- ===== src/Tests/Deadline.antt =====
-- The deadline, with a concrete engine that finds it in the policy document.
use Prim.Native.Char.{code}
use ds_sql_dps_rs.Prelude.{
  String, Bool, true, false, ◌≡◌, refl, ap, eq_iff, arith, Option, none, some, List, [], ◌∷◌, ok,
  ◌==◌, ◌||◌, ◌&&◌, ltb, nat_eq, if◌then◌else◌,
}
use ds_sql_dps_rs.Prelude.Decimal.{to_string}
use ds_sql_dps_rs.ConfigGraph.Json.{
  Json, null, string, arr, obj, Items, nil, cons, Fields, end, field,
}
use ds_sql_dps_rs.ConfigGraph.Ids.{has_hash}
use ds_sql_dps_rs.Dataplane.Config.{Config, file_offer}
use ds_sql_dps_rs.Dataplane.Public.{Engine, allow, other, get_file}
use ds_sql_dps_rs.Dataplane.Tokens.Laws.{granted}
use ds_sql_dps_rs.Dataplane.Handler.{FileOfferHandler}
use ds_sql_dps_rs.Dataplane.Build.{App, build}
use ds_sql_dps_rs.Dataplane.Build.Laws.{build-total}
use ds_sql_dps_rs.Dataplane.System.{Call, starts, token_ops, execute}
use ds_sql_dps_rs.Dataplane.System.Deadline.{
  deadline_member, in_time, ReadsDeadlines, get_file-deadline,
}
use ds_sql_dps_rs.Tests.Memory.{memory, memory-IsInMemory, to_string_injective}
use ds_sql_dps_rs.Tests.ConfigGraph.{vocabulary}
use ds_sql_dps_rs.Tests.Dataplane.{at}
use ds_sql_dps_rs.Tests.Startup.{startup, config, primary, ready}

abbrev text : Json → Option String
text null = none
text (string s) = some s
text (arr xs) = none
text (obj fs) = none

abbrev or_else : Option String → Option String → Option String
or_else none o = o
or_else (some s) o = some s

-- The first right operand in a document.
mutual
  right_operand : Json → Option String
  right_operand null = none
  right_operand (string s) = none
  right_operand (arr xs) = in_items xs
  right_operand (obj fs) = in_fields fs

  in_items : Items → Option String
  in_items nil = none
  in_items (cons x xs) = or_else (right_operand x) (in_items xs)

  in_fields : Fields → Option String
  in_fields end = none
  in_fields (field name x rest) =
      let inside = or_else (right_operand x) (in_fields rest) in
      if name == "rightOperand" then text x else inside

-- The lexicographic order, which is the order in time of timestamps in one format.
lteq : String → String → Bool
lteq String.[] t = true
lteq (String.◌∷◌ c s) String.[] = false
lteq (String.◌∷◌ c s) (String.◌∷◌ d t) =
    ltb (code c) (code d) || nat_eq (code c) (code d) && lteq s t

abbrev punctual : Engine
punctual = record {
  Policy = Option String;
  Request = Option String × String;
  ingest_policy_value = λ j. ok (right_operand j);
  request_for =
      λ p target action claims mode behaviour. (p, elim claims [ [] ↦ "" | ◌∷◌ c cs ↦ c.1 ]);
  evaluate_request = λ r. (if in_time lteq r.1 r.0 then allow else other, "too late");
}

ingested_right :
    (deadline : Option String)
    → or_else (or_else (in_fields (deadline_member deadline)) none) none ≡ deadline
unfolding right_operand
ingested_right none = refl
ingested_right (some d) = refl

punctual-ReadsDeadlines : ReadsDeadlines punctual lteq
unfolding right_operand
punctual-ReadsDeadlines = record {
  policy = λ uid target assigner deadline. deadline;
  ingested = λ uid target assigner deadline. ap (λ d. ok d) (ingested_right deadline);
  decided = λ uid target assigner now deadline. refl;
}

-- Until noon.
abbrev pub morning : Config
morning = record config { policy_not_after = some "12:00" }

pub morning_built :
    (app : App memory) × (build memory startup morning ≡ ok app)
    × (app.handler.default_offer ≡ file_offer morning)
morning_built =
    let b =
      build-total memory memory-IsInMemory vocabulary startup morning primary (ready morning) in
    (b.0, b.1, b.4)

abbrev pub one_start : List Call
one_start = starts (record { id = "f"; dataset_id = "primary" }) ∷ []

pub no_hash : has_hash "primary" ≡ false
unfolding has_hash
no_hash = refl

pub granted_start :
    (h : FileOfferHandler)
    → h.default_offer ≡ file_offer morning
    → granted 0 (token_ops h one_start) ≡ some (record { flow_id = "f"; dataset_id = "primary" })
unfolding token_ops file_offer
granted_start h same =
    ground (arith, (eq_iff h.default_offer.dataset_id "primary").1 (ap (λ o. o.dataset_id) same))

late : in_time lteq "13:00" (some "12:00") ≡ false
unfolding lteq
late = refl

get_file-deadline_example :
    (get_file memory punctual
      (at "13:00")
      (execute memory to_string morning_built.0.handler morning_built.0.world one_start)
      "primary"
      (to_string 0)).status
    ≡ (if in_time lteq "13:00" (some "12:00") then 200 else 403)
get_file-deadline_example =
    get_file-deadline memory memory-IsInMemory vocabulary startup morning morning_built.0
      morning_built.1 primary no_hash to_string to_string_injective one_start
      ((primary, no_hash), tt) punctual (at "13:00") lteq punctual-ReadsDeadlines 0
      (record { flow_id = "f"; dataset_id = "primary" })
      (granted_start morning_built.0.handler morning_built.2) (1 ∷ 2 ∷ []) refl refl
