-- ===== src/Scheduler/Service/Finished.antt =====
-- A run that was started never stays marked as running.
use recru_flow.Base.{
  ℕ, ◌<◌, String, ◌≡◌, refl, ap, ◌∙◌, ◌⊎◌, inl, inr, Bool, true, false, Option, some, List, [], ◌∷◌,
  ◌++◌, arith, ◌==◌, Bool-cases, find, All,
}
use recru_flow.Db.{Db, Source, SchedulerRun, utcnow}
use recru_flow.Ingestion.Types.{IngestionResult}
use recru_flow.Ingestion.Registry.{Refusal, resolve_source_by_connector}
use recru_flow.Dlq.Service.{record_failure}
use recru_flow.Ingestion.Lifecycle.{
  Session, open_session, closed, Dispatch, connector_enabled, record_run_fetch_failure,
  run_with_lifecycle, run_resolved, run_source, settle, prepare, stamp, stamp_ok, update_source,
}
use recru_flow.Scheduler.Runs.{
  new_run, update_run, ok_columns, error_columns, start_run, finish_run_ok, finish_run_error,
}
use recru_flow.Scheduler.Service.{
  before_dispatch, on_success, on_error, run_callbacks, run_record, run_source_async,
}

-- The ids of the runs come from the sequence.
abbrev pub Below : ℕ → List SchedulerRun → Type 0
Below id runs = All (λ (r : SchedulerRun). r.id < id) runs

update_run-last :
    (id : ℕ) (change : SchedulerRun → SchedulerRun) (run : SchedulerRun) (runs : List SchedulerRun)
    → Below id runs
    → run.id ≡ id
    → update_run id change (runs ++ (run ∷ [])) ≡ runs ++ (change run ∷ [])
unfolding update_run
update_run-last id change run [] below e = ground (arith, e)
update_run-last id change run (r ∷ runs) below e =
    ground (arith, update_run-last id change run runs below.1 e, below.0)

find-last :
    (id : ℕ) (run : SchedulerRun) (runs : List SchedulerRun)
    → Below id runs
    → run.id ≡ id
    → find (λ (r : SchedulerRun). r.id == id) (runs ++ (run ∷ [])) ≡ some run
unfolding find
find-last id run [] below e = ground (arith, e)
find-last id run (r ∷ runs) below e = ground (arith, find-last id run runs below.1 e, below.0)

-- The record of a run against what its dispatch gave.
abbrev pub Reports : IngestionResult ⊎ String → SchedulerRun → Type 0
Reports (inl result) run =
    (run.status ≡ "ok")
    × (run.fetched_count ≡ some result.fetched)
    × (run.created_count ≡ some result.created)
    × (run.warning ≡ (result.fetched == 0))
Reports (inr exc) run = (run.status ≡ "error") × (run.error_message ≡ some exc)

-- The one row that a run adds, finished and reported.
pub record IsFinished (db : Db) (source : Source) (trigger_type : String)
    (outcome : IngestionResult ⊎ String) (result : Refusal ⊎ Option SchedulerRun)
    (after : List SchedulerRun) : Type 0 where
  pub run : SchedulerRun
  pub returned_run : result ≡ inr (some run)
  pub added : after ≡ db.scheduler_runs ++ (run ∷ [])
  pub of_source : run.source_id ≡ source.id
  pub triggered : run.trigger_type ≡ trigger_type
  pub finished : (now : ℕ) × (run.finished_at ≡ some now)
  pub reports : Reports outcome run

module _ {W : Type 0} (clock : ℕ → ℕ) (dispatch : Dispatch W) where
  -- What the scheduler relies on: a connector's run leaves the records of runs alone.
  abbrev pub KeepsRuns : Type 0
  KeepsRuns =
      (source : Source) (force_refresh : Bool) (s : Session × W)
      → (dispatch source force_refresh s).1.0.live.scheduler_runs ≡ s.0.live.scheduler_runs

  -- The session that a dispatch gets: the run is recorded and committed.
  abbrev pub started : String → Source → Db → Session
  started trigger_type source db = open_session (start_run clock source.id trigger_type db).1

  on_success-runs :
      (source : Source) (result : IngestionResult) (id : ℕ) (db : Db)
      → (on_success clock source result
          (some id)
          (stamp_ok clock dispatch (run_callbacks clock "") source result db)).scheduler_runs
        ≡ update_run id
            (ok_columns result.fetched result.created (result.fetched == 0) (
              clock
                (record_run_fetch_failure clock source result
                  (some id)
                  (stamp_ok clock dispatch (run_callbacks clock "") source result db)).reads))
            db.scheduler_runs
  unfolding on_success finish_run_ok stamp_ok stamp update_source record_run_fetch_failure
      record_failure utcnow
  on_success-runs source result id db = elim (Bool-cases result.ok) [
    | inl good ↦ rw good refl
    | inr bad ↦ rw bad refl
  ]

  -- The row of the run after its columns were written.
  module _ (trigger_type : String) (source : Source) (db : Db)
      (below : Below db.next_id db.scheduler_runs) (change : SchedulerRun → SchedulerRun)
      (outcome : IngestionResult ⊎ String) where
    abbrev row : SchedulerRun
    row = new_run db.next_id source.id trigger_type (clock db.reads)

    written-IsFinished :
        {runs : List SchedulerRun} (result : Refusal ⊎ Option SchedulerRun)
        (before : List SchedulerRun)
        → before ≡ db.scheduler_runs ++ (row ∷ [])
        → runs ≡ update_run db.next_id change before
        → result ≡ inr (find (λ (r : SchedulerRun). r.id == db.next_id) runs)
        → ((change row).id ≡ db.next_id)
        → ((change row).source_id ≡ source.id)
        → ((change row).trigger_type ≡ trigger_type)
        → (now : ℕ) → (change row).finished_at ≡ some now
        → Reports outcome (change row)
        → IsFinished db source trigger_type outcome result runs
    unfolding new_run
    written-IsFinished {runs} result before was e found same_id same_source same_type now done
          reports =
        record {
          run = change row;
          returned_run =
              found
              ∙ ap (λ l. inr (find (λ (r : SchedulerRun). r.id == db.next_id) l)) appended
              ∙ ap (λ o. inr o) (find-last db.next_id (change row) db.scheduler_runs below same_id);
          added = appended;
          of_source = same_source;
          triggered = same_type;
          finished = (now, done);
          reports = reports;
        }
      where
        appended : runs ≡ db.scheduler_runs ++ (change row ∷ [])
        appended =
            e
            ∙ ap (update_run db.next_id change) was
            ∙ update_run-last db.next_id change row db.scheduler_runs below refl

  settle-IsFinished :
      (trigger_type : String) (source : Source) (db : Db)
      (r : (IngestionResult ⊎ String) × (Session × W))
      → Below db.next_id db.scheduler_runs
      → r.1.0.live.scheduler_runs
        ≡ db.scheduler_runs ++ (new_run db.next_id source.id trigger_type (clock db.reads) ∷ [])
      → let out =
          settle clock dispatch (run_callbacks clock trigger_type) source (some db.next_id) r in
        IsFinished db source trigger_type r.0
          (run_record out.0 (closed out.1.0))
          (closed out.1.0).scheduler_runs
  unfolding settle run_callbacks on_success on_error run_record finish_run_ok finish_run_error
      stamp_ok stamp record_run_fetch_failure record_failure update_source new_run utcnow
  settle-IsFinished trigger_type source db (inl result, (s, world)) below kept =
      written-IsFinished trigger_type source db below
        (ok_columns result.fetched result.created (result.fetched == 0) _) (inl result) _
        s.live.scheduler_runs kept (on_success-runs source result db.next_id s.live) refl refl refl
        refl _ refl (refl, refl, refl, refl)
  settle-IsFinished trigger_type source db (inr exc, (s, world)) below kept =
      written-IsFinished trigger_type source db below (error_columns exc (clock s.live.reads))
        (inr exc) _ s.live.scheduler_runs kept refl refl refl refl refl (clock s.live.reads) refl
        (refl, refl)

  -- A run that is started on an enabled source ends with its one new row finished, whether the
  -- dispatch returned or raised: the row is `ok` with the counts and a warning for zero results, or
  -- `error` with the exception, and it is what the caller gets. The ids come from the sequence, and
  -- the dispatch leaves the records of runs alone.
  pub run_source_async-IsFinished :
      (connector trigger_type : String) (db : Db) (world : W) {source : Source}
      → KeepsRuns
      → Below db.next_id db.scheduler_runs
      → resolve_source_by_connector connector db.sources ≡ inr source
      → connector_enabled source ≡ true
      → let out = run_source_async clock dispatch connector trigger_type (db, world) in
        IsFinished db source trigger_type
          (dispatch source false (started trigger_type source db, world)).0
          out.0
          out.1.0.scheduler_runs
  unfolding run_source_async run_with_lifecycle run_resolved run_source prepare run_callbacks
      before_dispatch start_run utcnow
  run_source_async-IsFinished connector trigger_type db world {source} keeps below found enabled =
      rw (found, run_with_lifecycle, run_resolved, enabled, run_source, prepare, run_callbacks)
        (settle-IsFinished trigger_type source db
          (dispatch source false (started trigger_type source db, world)) below
          (keeps source false (started trigger_type source db, world)))
