-- ===== src/Tests/System.antt =====
-- A data plane that is built, called and asked.
use ds_sql_dps_rs.Prelude.{false, ◌≡◌, ◌↔◌, refl, List, [], ◌∷◌, All, ok}
use ds_sql_dps_rs.Prelude.Decimal.{to_string}
use ds_sql_dps_rs.ConfigGraph.Ids.{has_hash}
use ds_sql_dps_rs.Dataplane.Tokens.Laws.{granted}
use ds_sql_dps_rs.Dataplane.Public.{get_file}
use ds_sql_dps_rs.Dataplane.Build.{App, build}
use ds_sql_dps_rs.Dataplane.Build.Laws.{IsReady, build-total}
use ds_sql_dps_rs.Dataplane.Config.{file_offer}
use ds_sql_dps_rs.Dataplane.Main.{
  ctrl_c, Notice, returned, signaling_listening, public_listening, no_control_plane, shutting_down,
  main,
}
use ds_sql_dps_rs.Dataplane.Main.Laws.{IsUp, HasServed, main-success}
use ds_sql_dps_rs.Dataplane.System.{Call, starts, terminates, execute, token_ops, request_answer}
use ds_sql_dps_rs.Dataplane.System.Good.{Good, IsValidCall}
use ds_sql_dps_rs.Dataplane.System.Laws.{Built-invariant, system_refines}
use ds_sql_dps_rs.Tests.Memory.{memory, memory-IsInMemory, to_string_injective}
use ds_sql_dps_rs.Tests.ConfigGraph.{vocabulary}
use ds_sql_dps_rs.Tests.Dataplane.{engine, at}
use ds_sql_dps_rs.Tests.Startup.{
  environment, from_environment, read_environment, startup, config, primary, ready,
}

app_built : (app : App memory) × (build memory startup config ≡ ok app)
app_built =
    let b = build-total memory memory-IsInMemory vocabulary startup config primary (ready config) in
    (b.0, b.1)

primary_plain : has_hash "primary" ≡ false
unfolding has_hash
primary_plain = refl

-- Two flows are started for the offer, the first is terminated.
abbrev calls : List Call
calls =
    terminates (record { id = "f"; dataset_id = "primary" })
    ∷ starts (record { id = "g"; dataset_id = "primary" })
    ∷ starts (record { id = "f"; dataset_id = "primary" })
    ∷ []

calls_valid : All (IsValidCall memory) calls
calls_valid = (tt, ((primary, primary_plain), ((primary, primary_plain), tt)))

system_refines_example :
    get_file memory engine
      (at "10:00")
      (execute memory to_string app_built.0.handler app_built.0.world calls)
      "primary"
      (to_string 1)
    ≡ request_answer memory engine
        (at "10:00")
        app_built.0.handler
        (granted 1 (token_ops app_built.0.handler calls))
        "primary"
system_refines_example =
    system_refines memory memory-IsInMemory vocabulary startup config app_built.0 app_built.1
      primary primary_plain to_string calls calls_valid to_string_injective engine (at "10:00")
      "primary" 1

Built-invariant_example :
    (app_built.0.handler.default_offer ≡ file_offer config)
    × (app_built.0.handler.tck_mode ≡ config.tck_mode)
    × Good memory memory-IsInMemory vocabulary to_string app_built.0.handler
        (execute memory to_string app_built.0.handler app_built.0.world calls)
        calls
Built-invariant_example =
    Built-invariant memory memory-IsInMemory vocabulary startup config app_built.0 app_built.1
      primary primary_plain to_string calls calls_valid

abbrev log : List Notice
log = signaling_listening 40001 ∷ public_listening 40001 ∷ no_control_plane ∷ shutting_down ∷ []

served :
    HasServed memory memory-IsInMemory vocabulary environment startup from_environment
      (λ a. ctrl_c)
      log
served =
    let b =
      build-total memory memory-IsInMemory vocabulary startup from_environment primary
        (ready from_environment) in
    record {
      ready = ready from_environment;
      app = b.0;
      built = b.1;
      history = b.2;
      ends_well = tt;
      logged = refl;
    }

main-success_example :
    (IsReady startup from_environment
      ↔ (app : App memory) × IsUp memory startup from_environment app)
    × (main memory environment startup (λ a. ctrl_c) ≡ returned (ok tt) log
        ↔ HasServed memory memory-IsInMemory vocabulary environment startup from_environment
            (λ a. ctrl_c)
            log)
main-success_example =
    main-success memory memory-IsInMemory vocabulary environment startup from_environment
      (λ a. ctrl_c) log read_environment primary

-- So the process ends in success.
main_succeeds : main memory environment startup (λ a. ctrl_c) ≡ returned (ok tt) log
main_succeeds =
    (main-success memory memory-IsInMemory vocabulary environment startup from_environment
        (λ a. ctrl_c) _ read_environment primary).1.1
      served
