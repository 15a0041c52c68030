-- ===== src/Tests/Moments.antt =====
-- The moments of tasks at the same time in TCK mode on the concrete store.
use ds_sql_dps_rs.Prelude.{ℕ, refl, ◌≡◌, List, [], ◌∷◌, All}
use ds_sql_dps_rs.Prelude.Decimal.{to_string}
use ds_sql_dps_rs.Dataplane.Tokens.Laws.{run}
use ds_sql_dps_rs.Dataplane.Concurrent.{Task, get_asked, start_asked, stop_asked, interleave}
use ds_sql_dps_rs.Dataplane.Concurrent.Moments.{Justified, watch}
use ds_sql_dps_rs.Dataplane.Concurrent.Moments.Laws.{interleave-Justified}
use ds_sql_dps_rs.ConfigGraph.Ids.{has_hash}
use ds_sql_dps_rs.ConfigGraph.RoundTrip.{ReadsBack}
use ds_sql_dps_rs.Dataplane.Concurrent.Kept.Served.{IsServed}
use ds_sql_dps_rs.Dataplane.Concurrent.Kept.Answered.{IsAnswered}
use ds_sql_dps_rs.Dataplane.Concurrent.Kept.Laws.{interleave-IsServed, interleave-IsAnswered}
use ds_sql_dps_rs.Tests.ConfigGraph.{vocabulary, sales, sales-History, stock_id}
use ds_sql_dps_rs.Tests.Offers.{sales_id}
use ds_sql_dps_rs.Tests.Memory.{memory, memory-IsInMemory}
use ds_sql_dps_rs.Tests.Dataplane.{engine, at, tck_handler, flow, stock_flow, sales_world}

-- A known dataset and an unknown one, a request with the first token, and a termination.
abbrev tck_tasks : List Task
tck_tasks =
    start_asked flow
    ∷ start_asked stock_flow
    ∷ get_asked (record { env = at "10:00"; dataset_id = "sales"; token = to_string 0 })
    ∷ stop_asked flow
    ∷ []

abbrev schedule : List ℕ
schedule = 0 ∷ 1 ∷ 0 ∷ 2 ∷ 1 ∷ 2 ∷ 3 ∷ 1 ∷ 2 ∷ 2 ∷ []

interleave-Justified_example :
    ((interleave memory engine to_string tck_handler schedule tck_tasks sales_world).1.tokens
      ≡ run to_string
          (watch memory engine to_string tck_handler schedule tck_tasks sales_world [] []).1)
    × All
        (λ m. m.world.tokens ≡ run to_string m.ops)
        (watch memory engine to_string tck_handler schedule tck_tasks sales_world [] []).0
    × All
        (Justified memory engine to_string tck_handler
          (watch memory engine to_string tck_handler schedule tck_tasks sales_world [] []).0)
        (interleave memory engine to_string tck_handler schedule tck_tasks sales_world).0
unfolding run
interleave-Justified_example =
    interleave-Justified memory engine to_string tck_handler schedule tck_tasks sales_world [] refl
      (tt, (tt, (tt, (tt, tt))))

-- The sales offer is served while the stock offer is seeded.
interleave-IsServed_example :
    All
      (λ o.
        All
          (λ m. ReadsBack memory memory-IsInMemory vocabulary m.world.graph o)
          (watch memory engine to_string tck_handler schedule tck_tasks sales_world [] []).0
        × ReadsBack memory memory-IsInMemory vocabulary
            (interleave memory engine to_string tck_handler schedule tck_tasks sales_world).1.graph
            o
        × All
            (IsServed memory memory-IsInMemory vocabulary engine to_string tck_handler o
              (watch memory engine to_string tck_handler schedule tck_tasks sales_world [] []).0)
            (interleave memory engine to_string tck_handler schedule tck_tasks sales_world).0)
      (sales ∷ [])
unfolding has_hash
interleave-IsServed_example =
    interleave-IsServed memory memory-IsInMemory vocabulary engine to_string tck_handler sales_world
      sales-History (refl, tt) schedule tck_tasks [] (tt, (tt, (tt, (tt, tt))))
      ((sales_id, refl), ((stock_id, refl), (tt, (tt, tt))))

-- So is the request for it answered, whatever the seeding has done until then.
interleave-IsAnswered_example :
    All
      (λ o.
        All
          (IsAnswered memory memory-IsInMemory vocabulary engine o
            (watch memory engine to_string tck_handler schedule tck_tasks sales_world [] []).0)
          (interleave memory engine to_string tck_handler schedule tck_tasks sales_world).0)
      (sales ∷ [])
unfolding has_hash
interleave-IsAnswered_example =
    interleave-IsAnswered memory memory-IsInMemory vocabulary engine to_string tck_handler
      sales_world sales-History (refl, tt) schedule tck_tasks [] (tt, (tt, (tt, (tt, tt))))
      ((sales_id, refl), ((stock_id, refl), (tt, (tt, tt))))
