-- ===== src/Tests/Scheduling.antt =====
-- Runs of connectors and their settings at concrete inputs.
use recru_flow.Base.{◌≡◌, refl, inl, inr, true, false, ◌&&◌, some, [], ◌∷◌, arith, length, filter}
use recru_flow.Base.Int.{pos}
use recru_flow.Data.Json.{int, obj}
use recru_flow.Db.{Db, Source}
use recru_flow.Ingestion.Types.{IngestionResult}
use recru_flow.Ingestion.Registry.{connector_disabled, resolve_source_by_connector}
use recru_flow.Ingestion.Lifecycle.{Dispatch, flag, connector_enabled}
use recru_flow.Scheduler.Runs.{
  new_run, is_running, Swept, reconcile_stale_running_runs, reconcile_stale_running_runs_lem,
}
use recru_flow.Scheduler.Service.{run_source_async}
use recru_flow.Scheduler.Service.Finished.{IsFinished, run_source_async-IsFinished}
use recru_flow.Scheduler.Triggers.{interval, parse_schedule}
use recru_flow.Scheduler.Config.{set_source_enabled, set_source_interval, connector_should_auto_run}
use recru_flow.Scheduler.Config.Switch.{parse_schedule-set_source_interval, set_source_enabled_lem}
use recru_flow.Tests.Samples.{host, source, empty_db}

abbrev blocked_run : IngestionResult
blocked_run = record {
  ok = false;
  fetched = 0;
  created = 0;
  error_message = some "failed to fetch NoFluffJobs offers";
  blocked_status = some 403;
}

-- A connector that is blocked, and one that raises.
abbrev blocked_dispatch : Dispatch Unit
blocked_dispatch = λ source force_refresh s. (inl blocked_run, s)

abbrev raising_dispatch : Dispatch Unit
raising_dispatch = λ source force_refresh s. (inr "timeout", s)

-- A database that holds a run which its process left behind.
abbrev stale_db : Db
stale_db = record empty_db { scheduler_runs = new_run 1 1 "automatic" 500 ∷ []; next_id = 7 }

run_source_async-IsFinished_example :
    let out = run_source_async host.clock raising_dispatch "nofluffjobs" "manual" (stale_db, tt) in
    IsFinished stale_db source "manual" (inr "timeout") out.0 out.1.0.scheduler_runs
unfolding resolve_source_by_connector flag new_run
run_source_async-IsFinished_example =
    run_source_async-IsFinished host.clock raising_dispatch "nofluffjobs" "manual" stale_db tt
      (λ source force_refresh s. refl) (omega arith, tt) refl refl

reconcile_stale_running_runs_lem_example :
    ((reconcile_stale_running_runs host.clock stale_db).0
      ≡ length (filter is_running stale_db.scheduler_runs))
    × Swept host.clock stale_db.scheduler_runs
        (reconcile_stale_running_runs host.clock stale_db).1.scheduler_runs
    × (filter is_running (reconcile_stale_running_runs host.clock stale_db).1.scheduler_runs ≡ [])
reconcile_stale_running_runs_lem_example = reconcile_stale_running_runs_lem host.clock stale_db

set_source_enabled_lem_example :
    let after = (set_source_enabled "nofluffjobs" false empty_db).1 in
    ((found : Source) × (resolve_source_by_connector "nofluffjobs" after.sources ≡ inr found)
      × (connector_enabled found ≡ false)
      × (connector_should_auto_run found.config_json
          ≡ (false && flag "auto_fetch_enabled" source.config_json)))
    × (false ≡ false
        → run_source_async host.clock blocked_dispatch "nofluffjobs" "automatic" (after, tt)
          ≡ (inl connector_disabled, (after, tt)))
unfolding resolve_source_by_connector
set_source_enabled_lem_example =
    set_source_enabled_lem host.clock blocked_dispatch "nofluffjobs" "automatic" false empty_db tt
      refl

parse_schedule-set_source_interval_example :
    (found : Source) × (resolve_source_by_connector "nofluffjobs"
        (set_source_interval "nofluffjobs" 120 empty_db).1.sources
      ≡ inr found)
    × (parse_schedule (λ v. true) (λ s. false) (obj found.config_json)
        ≡ some (interval (int (pos 120))))
unfolding resolve_source_by_connector
parse_schedule-set_source_interval_example =
    parse_schedule-set_source_interval (λ v. true) (λ s. false) "nofluffjobs" 120 empty_db
      (omega arith) refl refl
