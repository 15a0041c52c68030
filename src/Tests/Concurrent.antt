-- ===== src/Tests/Concurrent.antt =====
-- Tasks at the same time on the concrete store.
use ds_sql_dps_rs.Prelude.{
  ℕ, zero, suc, ◌≤◌, ◌<◌, refl, ◌≡◌, ◌++◌, ok, false, List, [], ◌∷◌, All, arith,
}
use ds_sql_dps_rs.Prelude.Decimal.{to_string}
use ds_sql_dps_rs.Dataplane.Concurrent.{Task, get_asked, start_asked, stop_asked, interleave}
use ds_sql_dps_rs.Dataplane.Concurrent.Finish.{IsDone, turns_of, interleave-IsDone}
use ds_sql_dps_rs.Dataplane.Concurrent.Laws.{Linear, interleave-Linear}
use ds_sql_dps_rs.Dataplane.Concurrent.Since.{AllSince}
use ds_sql_dps_rs.Dataplane.Concurrent.Answers.{Answered, interleave-Answered}
use ds_sql_dps_rs.Dataplane.Handler.{DataFlow}
use ds_sql_dps_rs.Dataplane.System.{Call, execute}
use ds_sql_dps_rs.Dataplane.Build.{App, build}
use ds_sql_dps_rs.Dataplane.Build.Laws.{build-total}
use ds_sql_dps_rs.Tests.ConfigGraph.{vocabulary}
use ds_sql_dps_rs.Tests.Startup.{startup, config, primary, ready}
use ds_sql_dps_rs.Tests.Deadline.{no_hash}
use ds_sql_dps_rs.Tests.Memory.{memory, memory-IsInMemory}
use ds_sql_dps_rs.Tests.Dataplane.{
  engine, at, handler, tck_handler, flow, stock_flow, idle, sales_world,
}

-- A start, a request with the first token, and a termination.
abbrev tasks : List Task
tasks =
    start_asked flow
    ∷ get_asked (record { env = at "10:00"; dataset_id = "sales"; token = to_string 0 })
    ∷ stop_asked flow
    ∷ []

-- The flow is started, then the request begins, is overtaken by the termination, and goes on.
interleave-Linear_example :
    Linear memory engine to_string handler
      (interleave memory engine to_string handler (0 ∷ 0 ∷ []) tasks idle).1
      (λ c. Unit)
      (interleave memory engine to_string handler (0 ∷ 0 ∷ []) tasks idle).0
      (interleave memory engine to_string handler
        (1 ∷ 2 ∷ 1 ∷ 1 ∷ 1 ∷ [])
        (interleave memory engine to_string handler (0 ∷ 0 ∷ []) tasks idle).0
        (interleave memory engine to_string handler (0 ∷ 0 ∷ []) tasks idle).1)
interleave-Linear_example =
    interleave-Linear memory engine to_string handler refl (λ c. Unit) idle tasks
      (tt, (tt, (tt, tt))) (tt, (tt, (tt, tt))) (0 ∷ 0 ∷ []) (1 ∷ 2 ∷ 1 ∷ 1 ∷ 1 ∷ [])

abbrev rounds : List ℕ
rounds = 0 ∷ 1 ∷ 2 ∷ 0 ∷ 1 ∷ 2 ∷ 0 ∷ 1 ∷ 2 ∷ 0 ∷ 1 ∷ 2 ∷ []

-- A turn for each of three tasks, a number of times.
abbrev many_rounds : ℕ → List ℕ
many_rounds zero = []
many_rounds (suc n) = 0 ∷ 1 ∷ 2 ∷ many_rounds n

many_rounds-turns : (n i : ℕ) → i < 3 → n ≤ turns_of i (many_rounds n)
unfolding turns_of
many_rounds-turns zero i lt = omega arith
many_rounds-turns (suc n) i lt = let rest = many_rounds-turns n i lt in ground (arith, rest)

-- The second start is for an unknown dataset, which is seeded with 27 quads.
abbrev seeding_tasks : List Task
seeding_tasks =
    start_asked flow
    ∷ start_asked stock_flow
    ∷ get_asked (record { env = at "10:00"; dataset_id = "stock"; token = to_string 0 })
    ∷ []

interleave-IsDone_example :
    All IsDone
      (interleave memory engine to_string tck_handler (many_rounds 32) seeding_tasks sales_world).0
interleave-IsDone_example =
    interleave-IsDone memory engine to_string tck_handler sales_world seeding_tasks (many_rounds 32)
      (tt, (tt, (tt, tt))) (λ i lt. many_rounds-turns 32 i lt)

plane : (app : App memory) × (build memory startup config ≡ ok app) × (app.handler.tck_mode ≡ false)
plane =
    let b = build-total memory memory-IsInMemory vocabulary startup config primary (ready config) in
    (b.0, b.1, b.5)

abbrev primary_flow : DataFlow
primary_flow = record { id = "f"; dataset_id = "primary" }

abbrev primary_tasks : List Task
primary_tasks =
    start_asked primary_flow
    ∷ get_asked (record { env = at "10:00"; dataset_id = "primary"; token = to_string 0 })
    ∷ stop_asked primary_flow
    ∷ []

interleave-Answered_example :
    (cs : List Call) × (ds : List Call) × ((interleave memory engine to_string plane.0.handler
        (0 ∷ 0 ∷ [])
        primary_tasks
        plane.0.world).1
      ≡ execute memory to_string plane.0.handler plane.0.world cs)
    × ((interleave memory engine to_string plane.0.handler rounds
          (interleave memory engine to_string plane.0.handler
            (0 ∷ 0 ∷ [])
            primary_tasks
            plane.0.world).0
          (interleave memory engine to_string plane.0.handler
            (0 ∷ 0 ∷ [])
            primary_tasks
            plane.0.world).1).1
        ≡ execute memory to_string plane.0.handler plane.0.world (ds ++ cs))
    × AllSince
        (Answered memory engine to_string plane.0.handler cs ds)
        (interleave memory engine to_string plane.0.handler
          (0 ∷ 0 ∷ [])
          primary_tasks
          plane.0.world).0
        (interleave memory engine to_string plane.0.handler rounds
          (interleave memory engine to_string plane.0.handler
            (0 ∷ 0 ∷ [])
            primary_tasks
            plane.0.world).0
          (interleave memory engine to_string plane.0.handler
            (0 ∷ 0 ∷ [])
            primary_tasks
            plane.0.world).1).0
interleave-Answered_example =
    interleave-Answered memory memory-IsInMemory vocabulary startup config plane.0 plane.1 primary
      no_hash to_string engine plane.2 primary_tasks (tt, (tt, (tt, tt)))
      ((primary, no_hash), (tt, (tt, tt))) (0 ∷ 0 ∷ []) rounds
