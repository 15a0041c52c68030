-- ===== src/Tests/Revoked.antt =====
-- A flow that is started, and one that is terminated and started again.
use ds_sql_dps_rs.Prelude.{String, true, ◌≡◌, refl, ap, eq_iff, arith, ok, ◌∷◌, ◌++◌}
use ds_sql_dps_rs.Prelude.Decimal.{to_string}
use ds_sql_dps_rs.Dataplane.Handler.{DataFlow, FileOfferHandler, on_start, status_message}
use ds_sql_dps_rs.Dataplane.Public.{get_file, refuse}
use ds_sql_dps_rs.Dataplane.System.{terminates, accepts, offer_under, policy_answer, execute}
use ds_sql_dps_rs.Dataplane.Config.{file_offer}
use ds_sql_dps_rs.Dataplane.System.Starts.{on_start-get_file}
use ds_sql_dps_rs.Dataplane.System.Revoked.{get_file-terminated}
use ds_sql_dps_rs.Tests.Memory.{memory, memory-IsInMemory, to_string_injective}
use ds_sql_dps_rs.Tests.ConfigGraph.{vocabulary}
use ds_sql_dps_rs.Tests.Dataplane.{engine, at}
use ds_sql_dps_rs.Tests.Startup.{startup, primary}
use ds_sql_dps_rs.Tests.Deadline.{morning, morning_built, one_start, granted_start, no_hash}

abbrev first_flow : DataFlow
first_flow = record { id = "f"; dataset_id = "primary" }

get_file-terminated_example :
    get_file memory engine
      (at "10:00")
      (execute memory to_string morning_built.0.handler morning_built.0.world
        (one_start ++ (terminates first_flow ∷ one_start)))
      "primary"
      (to_string 0)
    ≡ refuse 401 "invalid or expired token"
get_file-terminated_example =
    get_file-terminated memory memory-IsInMemory vocabulary startup morning morning_built.0
      morning_built.1 primary no_hash to_string to_string_injective one_start one_start first_flow
      ((primary, no_hash), (tt, ((primary, no_hash), tt))) 0
      (record { flow_id = "f"; dataset_id = "primary" })
      (granted_start morning_built.0.handler morning_built.2) refl engine (at "10:00") "primary"

own_accepted :
    (h : FileOfferHandler) → h.default_offer ≡ file_offer morning → accepts h "primary" ≡ true
unfolding file_offer
own_accepted h same =
    ground (arith, (eq_iff h.default_offer.dataset_id "primary").1 (ap (λ o. o.dataset_id) same))

on_start-get_file_example :
    (token : String) × ((on_start memory to_string morning_built.0.handler first_flow
        (execute memory to_string morning_built.0.handler morning_built.0.world one_start)).0
      ≡ ok (status_message memory morning_built.0.handler first_flow token))
    × (get_file memory engine
          (at "10:00")
          (on_start memory to_string morning_built.0.handler first_flow
            (execute memory to_string morning_built.0.handler morning_built.0.world one_start)).1
          "primary"
          token
        ≡ policy_answer memory engine (at "10:00") (offer_under morning_built.0.handler "primary"))
on_start-get_file_example =
    on_start-get_file memory memory-IsInMemory vocabulary startup morning morning_built.0
      morning_built.1 primary no_hash to_string to_string_injective one_start
      ((primary, no_hash), tt) first_flow (primary, no_hash)
      (own_accepted morning_built.0.handler morning_built.2) engine (at "10:00")
