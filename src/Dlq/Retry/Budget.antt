-- ===== src/Dlq/Retry/Budget.antt =====
-- The scheduled retry spends no more attempts on a row than it is allowed.
use recru_flow.Base.{ℕ, inl, inr, Option, none, some, List, [], ◌∷◌, arith, leb, Bool-cases, filter}
use recru_flow.Db.{Db, IngestionFailure, utcnow}
use recru_flow.Ingestion.Persist.{Host}
use recru_flow.Dlq.Retry.{
  Actions, update_row, write_abandoned, DetailRetrySummary, is_due, count_retried, after_retry,
  retry_rows, run_detail_retry_batch,
}
use recru_flow.Dlq.Retry.Spent.{
  WithinBudget, Spares, update_rows-budget, perform_retry-WithinBudget,
}

module _ {W : Type 0} (host : Host) (actions : Actions W) where
  module _ (max_attempts : ℕ) (spares : Spares host actions max_attempts) where
    after_retry-WithinBudget :
        (rest : DetailRetrySummary → Db × W → Option DetailRetrySummary × (Db × W))
        (summary : DetailRetrySummary) (retried : Option IngestionFailure × (Db × W))
        → ((before : DetailRetrySummary) (s : Db × W)
            → WithinBudget host actions max_attempts s.0
            → WithinBudget host actions max_attempts (rest before s).1.0)
        → WithinBudget host actions max_attempts retried.1.0
        → WithinBudget host actions max_attempts
            (after_retry host actions max_attempts rest summary retried).1.0
    unfolding after_retry
    after_retry-WithinBudget rest summary (none, s) later h = h
    after_retry-WithinBudget rest summary (some held, s) later h =
        later (count_retried held summary) s h

    retry_rows-WithinBudget :
        (rows : List IngestionFailure) (summary : DetailRetrySummary) (s : Db × W)
        → WithinBudget host actions max_attempts s.0
        → WithinBudget host actions max_attempts
            (retry_rows host actions max_attempts rows summary s).1.0
    unfolding retry_rows update_row
    retry_rows-WithinBudget [] summary s h = h
    retry_rows-WithinBudget (row ∷ rows) summary s h =
        elim (Bool-cases (leb max_attempts row.retry_count)) [
          | inl spent ↦
              rw (spent, retry_rows)
                (retry_rows-WithinBudget rows _ _ (
                  update_rows-budget host actions max_attempts row.id write_abandoned (λ r k. k)
                    s.0.ingestion_failures h))
          | inr left ↦
              rw (left, retry_rows)
                (after_retry-WithinBudget (retry_rows host actions max_attempts rows) summary _
                  (retry_rows-WithinBudget rows)
                  (perform_retry-WithinBudget host actions max_attempts spares _ s
                    (ground (arith, left)) h))
        ]

    -- If no row has spent more attempts than are allowed, and neither a run nor a detail fetch
    -- spends any, then a scheduled batch keeps every row within the allowed attempts, also where
    -- it ends in an exception.
    pub run_detail_retry_batch-WithinBudget :
        (min_age : ℕ) (s : Db × W)
        → WithinBudget host actions max_attempts s.0
        → WithinBudget host actions max_attempts
            (run_detail_retry_batch host actions max_attempts min_age s).1.0
    unfolding run_detail_retry_batch utcnow
    run_detail_retry_batch-WithinBudget min_age s h =
        retry_rows-WithinBudget
          (filter (is_due (host.clock s.0.reads) min_age) s.0.ingestion_failures) _ _ h
