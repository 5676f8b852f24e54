-- ===== src/Scheduler/Runs.antt =====
-- app/scheduler/runs.py: the record of a run, from its start to its end.
-- A run that a session holds is known by its id, and a flush writes its columns.
use recru_flow.Base.{
  ℕ, ◌+◌, String, ◌≡◌, refl, inl, inr, Bool, true, false, Option, none, some, List, [], ◌∷◌, ◌++◌,
  arith, str_eq, leb, ◌==◌, if◌then◌else◌, Bool-cases, length, filter,
}
use recru_flow.Db.{Db, SchedulerRun, utcnow}

-- The row of a run that begins.
unfoldable pub new_run : ℕ → ℕ → String → ℕ → SchedulerRun
new_run id source_id trigger_type now = record {
  id = id;
  source_id = source_id;
  trigger_type = trigger_type;
  status = "running";
  fetched_count = none;
  created_count = none;
  warning = false;
  error_message = none;
  started_at = now;
  finished_at = none;
}

unfoldable pub update_run :
    ℕ → (SchedulerRun → SchedulerRun) → List SchedulerRun → List SchedulerRun
update_run id change [] = []
update_run id change (run ∷ runs) =
    (if run.id == id then change run else run) ∷ update_run id change runs

-- The columns that the two ends of a run write.
abbrev pub ok_columns : ℕ → ℕ → Bool → ℕ → SchedulerRun → SchedulerRun
ok_columns fetched created warning now run = record run {
  status = "ok";
  fetched_count = some fetched;
  created_count = some created;
  warning = warning;
  finished_at = some now;
}

abbrev pub error_columns : String → ℕ → SchedulerRun → SchedulerRun
error_columns message now run = record run {
  status = "error";
  error_message = some message;
  finished_at = some now;
}

abbrev pub is_running : SchedulerRun → Bool
is_running run = str_eq run.status "running"

abbrev pub interrupted : String
interrupted = "interrupted: process restarted while run was in flight"

-- The latest of the runs, by the start; the first of those that started at once.
unfoldable pub latest : List SchedulerRun → Option SchedulerRun
latest [] = none
latest (run ∷ runs) = elim (latest runs) [
  | none ↦ some run
  | some later ↦ if leb later.started_at run.started_at then some run else some later
]

module _ (clock : ℕ → ℕ) where
  -- The id of the run that is started.
  unfoldable pub start_run : ℕ → String → Db → ℕ × Db
  unfolding utcnow new_run
  start_run source_id trigger_type db =
      let (now, db') = utcnow clock db in
      (
        db.next_id,
        record db' {
          scheduler_runs =
              db.scheduler_runs ++ (new_run db.next_id source_id trigger_type now ∷ []);
          next_id = db.next_id + 1;
        },
      )

  unfoldable pub finish_run_ok : ℕ → ℕ → ℕ → Bool → Db → Db
  unfolding utcnow update_run
  finish_run_ok id fetched created warning db =
      let (now, db') = utcnow clock db in
      record db' {
        scheduler_runs = update_run id (ok_columns fetched created warning now) db.scheduler_runs;
      }

  unfoldable pub finish_run_error : ℕ → String → Db → Db
  unfolding utcnow update_run
  finish_run_error id message db =
      let (now, db') = utcnow clock db in
      record db' { scheduler_runs = update_run id (error_columns message now) db.scheduler_runs }

  -- The loop over the stale runs: each reads the clock.
  unfoldable pub sweep : List SchedulerRun → ℕ → List SchedulerRun × ℕ
  sweep [] reads = ([], reads)
  sweep (run ∷ runs) reads =
      if is_running run
      then (
        error_columns interrupted (clock reads) run ∷ (sweep runs (reads + 1)).0,
        (sweep runs (reads + 1)).1,
      )
      else (run ∷ (sweep runs reads).0, (sweep runs reads).1)

  unfoldable pub reconcile_stale_running_runs : Db → ℕ × Db
  unfolding sweep filter
  reconcile_stale_running_runs db = (
    length (filter is_running db.scheduler_runs),
    record db {
      scheduler_runs = (sweep db.scheduler_runs db.reads).0;
      reads = (sweep db.scheduler_runs db.reads).1;
    },
  )

  -- After the sweep: as many rows as before, none of them running, and every row that was finished
  -- stays as it was, in its place.
  abbrev pub Swept : List SchedulerRun → List SchedulerRun → Type 0
  Swept [] [] = Unit
  Swept (run ∷ runs) (run' ∷ runs') =
      (is_running run' ≡ false)
      × (is_running run ≡ false → run' ≡ run)
      × (is_running run ≡ true
          → (run'.id ≡ run.id) × (run'.status ≡ "error") × (run'.error_message ≡ some interrupted))
      × Swept runs runs'
  Swept _ _ = ⊥

  sweep-Swept : (runs : List SchedulerRun) (reads : ℕ) → Swept runs (sweep runs reads).0
  unfolding sweep
  sweep-Swept [] reads = tt
  sweep-Swept (run ∷ runs) reads = elim (Bool-cases (is_running run)) [
    | inl stale ↦ rw stale (
      refl,
      (λ e. absurd (ground (arith, e))),
      (λ _. (refl, refl, refl)),
      sweep-Swept runs (reads + 1),
    )
    | inr done ↦
        rw done (done, (λ _. refl), (λ e. absurd (ground (arith, e))), sweep-Swept runs reads)
  ]

  filter-Swept : (runs runs' : List SchedulerRun) → Swept runs runs' → filter is_running runs' ≡ []
  unfolding filter
  filter-Swept [] [] s = refl
  filter-Swept (run ∷ runs) (run' ∷ runs') s = rw s.0 (filter-Swept runs runs' s.3)
  filter-Swept [] (run' ∷ runs') s = absurd s
  filter-Swept (run ∷ runs) [] s = absurd s

  -- The sweep at start-up reports how many runs were still marked as running; afterwards none is,
  -- each of them is an error with the reason, and every other run stays as it was.
  pub reconcile_stale_running_runs_lem :
      (db : Db)
      → ((reconcile_stale_running_runs db).0 ≡ length (filter is_running db.scheduler_runs))
        × Swept db.scheduler_runs (reconcile_stale_running_runs db).1.scheduler_runs
        × (filter is_running (reconcile_stale_running_runs db).1.scheduler_runs ≡ [])
  unfolding reconcile_stale_running_runs
  reconcile_stale_running_runs_lem db = (
    refl,
    sweep-Swept db.scheduler_runs db.reads,
    filter-Swept db.scheduler_runs _ (sweep-Swept db.scheduler_runs db.reads),
  )

  -- `get_latest_run_by_source`
  unfoldable pub get_latest_run_by_source : Db → ℕ → Option SchedulerRun
  unfolding latest filter
  get_latest_run_by_source db source_id =
      latest (filter (λ (r : SchedulerRun). r.source_id == source_id) db.scheduler_runs)
