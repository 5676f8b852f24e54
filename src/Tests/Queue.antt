-- ===== src/Tests/Queue.antt =====
-- Failures and their retries at concrete inputs.
use recru_flow.Base.{
  ℕ, ◌+◌, ◌≡◌, refl, ◌≢◌, true, Option, none, some, String, arith, length, filter,
}
use recru_flow.Db.{IngestionFailure}
use recru_flow.Dlq.Service.{
  page_fetch_failed, run_fetch_failed, FailureFields, record_failure, parse_failure_type,
}
use recru_flow.Dlq.Service.Upsert.{row_of, UniqueKeys, IsRecorded, record_failure_lem}
use recru_flow.Dlq.Retry.{
  Actions, DetailRetrySummary, handle, perform_retry, run_detail_retry_batch, connected, get_source,
}
use recru_flow.Dlq.Retry.Batch.{
  Concluded, due_rows, exhausted, perform_retry_lem, run_detail_retry_batch-Accounts,
}
use recru_flow.Dlq.Retry.Spent.{WithinBudget, Spares, record_failure-WithinBudget}
use recru_flow.Dlq.Retry.Budget.{run_detail_retry_batch-WithinBudget}
use recru_flow.Tests.Samples.{host, failing_db, blocked_row}

abbrev failed_page : FailureFields
failed_page = record {
  source_id = 1;
  error_message = "failed to fetch page 2";
  raw_payload = none;
  scheduler_run_id = none;
  page = some 2;
  url = none;
  blocked_status = some (some 429);
}

-- A run that succeeds as a whole but records a failed page on the row of its source.
abbrev half_failing : Actions Unit
half_failing = record {
  trigger_ingest = λ name s.
      (some true, (record_failure host.clock "source:1" page_fetch_failed failed_page s.0, s.1));
  detail_retry = λ name. none;
}

abbrev held : IngestionFailure
held = blocked_row 5 "source:1" "run_fetch_failed" 2

record_failure_lem_example :
    let after =
      (record_failure host.clock "source:1" page_fetch_failed failed_page
        failing_db).ingestion_failures in
    UniqueKeys after
    × ((row : IngestionFailure) × (row_of "source:1" after ≡ some row)
        × IsRecorded page_fetch_failed failed_page
            (host.clock failing_db.reads)
            (row_of "source:1" failing_db.ingestion_failures)
            row)
    × ((j : String) → "source:1" ≢ j → row_of j after ≡ row_of j failing_db.ingestion_failures)
unfolding row_of
record_failure_lem_example =
    record_failure_lem host.clock "source:1" page_fetch_failed failed_page failing_db
      (refl, (refl, tt))

perform_retry_lem_example :
    Concluded host half_failing
      (handle host half_failing run_fetch_failed held (failing_db, tt))
      (perform_retry host half_failing held (failing_db, tt))
unfolding perform_retry parse_failure_type
perform_retry_lem_example =
    perform_retry_lem host half_failing held run_fetch_failed (failing_db, tt) refl

abbrev status_and_page : Option IngestionFailure → Option (String × Option ℕ)
status_and_page none = none
status_and_page (some row) = some (row.status, row.page)

-- The retry closes the row, although the run that it started has just recorded a failed page on it.
retry_example :
    status_and_page (
      row_of "source:1"
        (perform_retry host half_failing held (failing_db, tt)).1.0.ingestion_failures)
    ≡ some ("resolved", some 2)
unfolding perform_retry row_of parse_failure_type connected get_source record_failure
retry_example = refl

abbrev counts : DetailRetrySummary
counts = record { attempted = 1; resolved = 1; still_blocked = 0; abandoned = 1 }

run_detail_retry_batch-Accounts_example :
    (counts.attempted + counts.abandoned ≡ length (due_rows host half_failing 100 failing_db))
    × (counts.resolved + counts.still_blocked ≡ counts.attempted)
    × (counts.abandoned
        ≡ length
            (filter (exhausted host half_failing 3) (due_rows host half_failing 100 failing_db)))
unfolding run_detail_retry_batch parse_failure_type connected get_source
run_detail_retry_batch-Accounts_example =
    run_detail_retry_batch-Accounts host half_failing 3 100 failing_db tt refl

half_failing-Spares : Spares host half_failing 3
half_failing-Spares = record {
  ingest = λ name s h.
      record_failure-WithinBudget host half_failing 3 "source:1" page_fetch_failed failed_page s.0
        h;
  detail = λ name e source url s h. absurd (ground (arith, e));
}

run_detail_retry_batch-WithinBudget_example :
    WithinBudget host half_failing 3
      (run_detail_retry_batch host half_failing 3 100 (failing_db, tt)).1.0
run_detail_retry_batch-WithinBudget_example =
    run_detail_retry_batch-WithinBudget host half_failing 3 half_failing-Spares 100 (failing_db, tt)
      (omega arith, (omega arith, tt))
