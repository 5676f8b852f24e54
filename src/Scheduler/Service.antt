-- ===== src/Scheduler/Service.antt =====
-- app/scheduler/service.py: a scheduled or manual run of a connector, with its record.
pub mod Finished
pub mod Fed
use recru_flow.Base.{
  ℕ, zero, suc, ◌+◌, ◌-◌, ◌*◌, ◌/◌, ◌%◌, ◌≤◌, ◌<◌, min, max, String, ◌<>◌, ◌≡◌, refl, sym, ap, ◌∙◌,
  ◌≢◌, ◌↔◌, ◌⊎◌, inl, inr, Bool, true, false, not, ◌&&◌, ◌||◌, Option, none, some, List, [], ◌∷◌,
  ◌++◌, map, foldl, append-nil, append_assoc, arith, str_eq, eq_iff, eq_refl, ltb, leb, ◌==◌,
  if◌then◌else◌, ltb→lt, lt→ltb, leb→le, le→leb, ==_iff, tests, Bool-cases, Option-cases, is_none,
  is_some, get_or, or_else, length, get_elem?, take, drop, filter, any, all, find, All,
  length-append, length-take, length-drop, take-append-drop, length-filter-le, any-append,
  filter-append, All-append, All-map, All-filter, length-filter-not, length-map,
}
use recru_flow.Db.{Db, Source, SchedulerRun}
use recru_flow.Ingestion.Types.{IngestionResult}
use recru_flow.Ingestion.Registry.{Refusal}
use recru_flow.Ingestion.Lifecycle.{
  Session, commit, Callbacks, Dispatch, Ended, refused, returned, raised, record_run_fetch_failure,
  run_with_lifecycle,
}
use recru_flow.Scheduler.Runs.{start_run, finish_run_ok, finish_run_error}

module _ (clock : ℕ → ℕ) where
  -- The three callbacks of `_run_source_async`; the local variable is the id of the run.
  unfoldable pub before_dispatch : String → Source → Option ℕ → Db → Option ℕ × Db
  unfolding start_run
  before_dispatch trigger_type source run db = (
    some (start_run clock source.id trigger_type db).0,
    (start_run clock source.id trigger_type db).1,
  )

  -- Without a run the `assert` fails; `before_dispatch` has always set it.
  unfoldable pub on_success : Source → IngestionResult → Option ℕ → Db → Db
  unfolding record_run_fetch_failure finish_run_ok
  on_success source result none db = db
  on_success source result (some run) db =
      finish_run_ok clock run result.fetched result.created (result.fetched == 0)
        (record_run_fetch_failure clock source result (some run) db)

  unfoldable pub on_error : Source → String → Option ℕ → Session → Session
  unfolding finish_run_error
  on_error source exc none s = s
  on_error source exc (some run) s =
      commit (record s { live = finish_run_error clock run exc s.live })

  unfoldable pub run_callbacks : String → Callbacks (Option ℕ)
  unfolding before_dispatch on_success on_error
  run_callbacks trigger_type = record {
    before_dispatch = some (before_dispatch trigger_type);
    on_success = on_success;
    on_error = on_error;
  }

-- The row of the run, as the record that is returned: `inl` for a refusal, which is raised.
unfoldable pub run_record : Ended × Option ℕ → Db → Refusal ⊎ Option SchedulerRun
unfolding find
run_record (refused refusal, run) db = inl refusal
run_record (returned result, none) db = inr none
run_record (raised exc, none) db = inr none
run_record (returned result, some id) db =
    inr (find (λ (r : SchedulerRun). r.id == id) db.scheduler_runs)
run_record (raised exc, some id) db =
    inr (find (λ (r : SchedulerRun). r.id == id) db.scheduler_runs)

module _ {W : Type 0} (clock : ℕ → ℕ) (dispatch : Dispatch W) where
  -- `_run_source_async`
  unfoldable pub run_source_async :
      String → String → Db × W → (Refusal ⊎ Option SchedulerRun) × (Db × W)
  unfolding run_with_lifecycle run_callbacks run_record
  run_source_async connector trigger_type s =
      let (out, (db, world)) =
        run_with_lifecycle clock dispatch (run_callbacks clock trigger_type) connector false none
          s in
      (run_record out db, (db, world))
