-- ===== src/Dlq/Retry/Spent.antt =====
-- One retry spends no more attempts on a row than it is allowed.
use recru_flow.Base.{
  ℕ, ◌≤◌, String, ◌<>◌, ◌≡◌, refl, inl, inr, Bool, true, false, Option, none, some, List, [], ◌∷◌,
  arith, str_eq, Bool-cases, Option-cases, All,
}
use recru_flow.Data.Text.{show}
use recru_flow.Data.Json.{Fields}
use recru_flow.Schemas.{Offer}
use recru_flow.Db.{Db, Source, IngestionFailure, utcnow}
use recru_flow.Connectors.Http.{Fetched, got, nothing, blocked}
use recru_flow.Dlq.Service.{
  FailureType, FailureFields, upsert, fresh_failure, reopen, record_failure, validation_failed,
  page_fetch_failed, run_fetch_failed, scoring_failed, detail_fetch_blocked,
}
use recru_flow.Ingestion.Persist.{Host, insert_offer, persist_offer}
use recru_flow.Dlq.Retry.{
  Actions, update_rows, update_row, Tried, succeeded, still_failing, raised, handle, connected,
  mark_still_failing, persist_retried, retry_validation_failed, after_ingest, retry_fetch_failed,
  after_detail, fetch_again, retry_detail_fetch_blocked, get_source, externally_recorded,
  write_resolved, write_marked, write_count, conclude, perform_retry,
}
use recru_flow.Dlq.Service.{parse_failure_type}

module _ {W : Type 0} (host : Host) (actions : Actions W) where
  -- No row has spent more than the attempts that are allowed.
  abbrev pub WithinBudget : ℕ → Db → Type 0
  WithinBudget max_attempts db =
      All (λ (r : IngestionFailure). r.retry_count ≤ max_attempts) db.ingestion_failures

  pub update_rows-budget :
      (max_attempts id : ℕ) (change : IngestionFailure → IngestionFailure)
      → ((r : IngestionFailure)
          → r.retry_count ≤ max_attempts
          → (change r).retry_count ≤ max_attempts)
      → (rows : List IngestionFailure)
      → All (λ (r : IngestionFailure). r.retry_count ≤ max_attempts) rows
      → All (λ (r : IngestionFailure). r.retry_count ≤ max_attempts) (update_rows id change rows)
  unfolding update_rows
  update_rows-budget max_attempts id change h [] k = tt
  update_rows-budget max_attempts id change h (row ∷ rows) k =
      (ground (arith, h row, k.0), update_rows-budget max_attempts id change h rows k.1)

  upsert-budget :
      (max_attempts next : ℕ) (key : String) (t : FailureType) (fields : FailureFields) (now : ℕ)
      (rows : List IngestionFailure)
      → All (λ (r : IngestionFailure). r.retry_count ≤ max_attempts) rows
      → All
          (λ (r : IngestionFailure). r.retry_count ≤ max_attempts)
          (upsert next key t fields now rows)
  unfolding upsert fresh_failure reopen
  upsert-budget max_attempts next key t fields now [] h = (omega arith, tt)
  upsert-budget max_attempts next key t fields now (row ∷ rows) h =
      elim (Bool-cases (str_eq row.dedup_key key)) [
        | inl hit ↦ rw hit h
        | inr miss ↦ rw miss (h.0, upsert-budget max_attempts next key t fields now rows h.1)
      ]

  -- Recording a failure spends no attempt.
  pub record_failure-WithinBudget :
      (max_attempts : ℕ) (key : String) (t : FailureType) (fields : FailureFields) (db : Db)
      → WithinBudget max_attempts db
      → WithinBudget max_attempts (record_failure host.clock key t fields db)
  unfolding record_failure
  record_failure-WithinBudget max_attempts key t fields db h =
      upsert-budget max_attempts db.next_id key t fields (host.clock db.reads) db.ingestion_failures
        h

  -- The row that a handler gives back has spent as many attempts as the row it was given.
  abbrev pub SameCount : ℕ → Tried → Type 0
  SameCount n (succeeded row) = row.retry_count ≡ n
  SameCount n (still_failing row) = row.retry_count ≡ n
  SameCount n raised = Unit

  -- A handler's end: the database is within the budget, and the row keeps its count.
  abbrev pub Kept : ℕ → ℕ → Tried × (Db × W) → Type 0
  Kept max_attempts n outcome = WithinBudget max_attempts outcome.1.0 × SameCount n outcome.0

  -- What the handlers rely on: neither a run nor a detail fetch spends attempts.
  pub record Spares (max_attempts : ℕ) : Type 0 where
    pub ingest :
        (name : String) (s : Db × W)
        → WithinBudget max_attempts s.0
        → WithinBudget max_attempts (actions.trigger_ingest name s).1.0
    pub detail :
        (name : String) {hook : Source → String → Db × W → Option (Fetched Bool) × (Db × W)}
        → actions.detail_retry name ≡ some hook
        → (source : Source) (url : String) (s : Db × W) → WithinBudget max_attempts s.0
        → WithinBudget max_attempts (hook source url s).1.0

  module _ (max_attempts : ℕ) (spares : Spares max_attempts) (row : IngestionFailure) where
    mark-Kept :
        (message : String) (s : Db × W)
        → WithinBudget max_attempts s.0
        → Kept max_attempts row.retry_count (mark_still_failing host actions row message s)
    unfolding mark_still_failing utcnow
    mark-Kept message s h = (h, refl)

    persist_offer-failures :
        (offer : Offer) (raw : Fields) (db : Db)
        → (persist_offer host offer raw db).1.ingestion_failures ≡ db.ingestion_failures
    unfolding persist_offer insert_offer
    persist_offer-failures offer raw db = ground arith

    persist_retried-Kept :
        (raw : Fields) (offer : Option Offer) (s : Db × W)
        → WithinBudget max_attempts s.0
        → Kept max_attempts row.retry_count (persist_retried host actions row raw offer s)
    unfolding persist_retried
    persist_retried-Kept raw none s h = mark-Kept (host.complain raw) s h
    persist_retried-Kept raw (some offer) s h = (rw persist_offer-failures h, refl)

    after_ingest-Kept :
        (result : Option Bool × (Db × W))
        → WithinBudget max_attempts result.1.0
        → Kept max_attempts row.retry_count (after_ingest host actions row result)
    unfolding after_ingest
    after_ingest-Kept (none, s) h = (h, tt)
    after_ingest-Kept (some true, s) h = (h, refl)
    after_ingest-Kept (some false, s) h = (h, refl)

    after_detail-Kept :
        (result : Option (Fetched Bool) × (Db × W))
        → WithinBudget max_attempts result.1.0
        → Kept max_attempts row.retry_count (after_detail host actions row result)
    unfolding after_detail
    after_detail-Kept (none, s) h = (h, tt)
    after_detail-Kept (some (got true), s) h = (h, refl)
    after_detail-Kept (some (got false), s) h = (h, refl)
    after_detail-Kept (some nothing, s) h = (h, refl)
    after_detail-Kept (some (blocked code), s) h =
        mark-Kept ("still blocked: HTTP " <> show code) s h

    retry_validation_failed-Kept :
        (s : Db × W)
        → WithinBudget max_attempts s.0
        → Kept max_attempts row.retry_count (retry_validation_failed host actions row s)
    unfolding retry_validation_failed
    retry_validation_failed-Kept s h = elim (Option-cases row.raw_payload) [
      | inl e ↦
          rw (e, retry_validation_failed) (mark-Kept "cannot retry: no raw payload stored" s h)
      | inr (raw, e) ↦ rw (e, retry_validation_failed) (persist_retried-Kept raw _ s h)
    ]

    retry_fetch_failed-Kept :
        (s : Db × W)
        → WithinBudget max_attempts s.0
        → Kept max_attempts row.retry_count (retry_fetch_failed host actions row s)
    unfolding retry_fetch_failed
    retry_fetch_failed-Kept s h =
        elim (Option-cases (connected (get_source row.source_id s.0.sources))) [
          | inl e ↦ rw (e, retry_fetch_failed) (h, tt)
          | inr ((source, name), e) ↦
              rw (e, retry_fetch_failed) (after_ingest-Kept _ (spares.ingest name s h))
        ]

    fetch_again-Kept :
        (source : Source) (name : String) (url : Option String) (s : Db × W)
        → WithinBudget max_attempts s.0
        → Kept max_attempts row.retry_count (fetch_again host actions row source name url s)
    unfolding fetch_again
    fetch_again-Kept source name none s h = mark-Kept "cannot retry: no url stored" s h
    fetch_again-Kept source name (some url) s h = elim (Option-cases (actions.detail_retry name)) [
      | inl e ↦ rw (e, fetch_again) (h, tt)
      | inr (hook, e) ↦
          rw (e, fetch_again) (after_detail-Kept _ (spares.detail name e source url s h))
    ]

    retry_detail_fetch_blocked-Kept :
        (s : Db × W)
        → WithinBudget max_attempts s.0
        → Kept max_attempts row.retry_count (retry_detail_fetch_blocked host actions row s)
    unfolding retry_detail_fetch_blocked
    retry_detail_fetch_blocked-Kept s h =
        elim (Option-cases (connected (get_source row.source_id s.0.sources))) [
          | inl e ↦ rw (e, retry_detail_fetch_blocked) (h, tt)
          | inr ((source, name), e) ↦
              rw (e, retry_detail_fetch_blocked) (fetch_again-Kept source name row.url s h)
        ]

    handle-Kept :
        (failure_type : FailureType) (s : Db × W)
        → WithinBudget max_attempts s.0
        → Kept max_attempts row.retry_count (handle host actions failure_type row s)
    unfolding handle
    handle-Kept validation_failed s h = retry_validation_failed-Kept s h
    handle-Kept page_fetch_failed s h = retry_fetch_failed-Kept s h
    handle-Kept run_fetch_failed s h = retry_fetch_failed-Kept s h
    handle-Kept scoring_failed s h = (h, tt)
    handle-Kept detail_fetch_blocked s h = retry_detail_fetch_blocked-Kept s h

    conclude-WithinBudget :
        (failure_type : FailureType) (tried : Tried × (Db × W))
        → row.retry_count ≤ max_attempts
        → Kept max_attempts row.retry_count tried
        → WithinBudget max_attempts (conclude host actions failure_type tried).1.0
    unfolding conclude update_row
    conclude-WithinBudget failure_type (raised, s) low h = h.0
    conclude-WithinBudget failure_type (succeeded held, (db, world)) low h =
        update_rows-budget max_attempts held.id (write_resolved (host.clock db.reads) held)
          (λ r k. rw h.1 low) db.ingestion_failures h.0
    conclude-WithinBudget failure_type (still_failing held, (db, world)) low h =
        elim (Bool-cases (externally_recorded failure_type)) [
          | inl external ↦ rw external (
              update_rows-budget max_attempts held.id (write_count held) (λ r k. rw h.1 low)
                db.ingestion_failures h.0)
          | inr own ↦ rw own (
              update_rows-budget max_attempts held.id (write_marked held) (λ r k. rw h.1 low)
                db.ingestion_failures h.0)
        ]

    pub perform_retry-WithinBudget :
        (s : Db × W)
        → row.retry_count ≤ max_attempts
        → WithinBudget max_attempts s.0
        → WithinBudget max_attempts (perform_retry host actions row s).1.0
    unfolding perform_retry
    perform_retry-WithinBudget s low h = elim (Option-cases (parse_failure_type row.failure_type)) [
      | inl e ↦ rw (e, perform_retry) h
      | inr (t, e) ↦
          rw (e, perform_retry)
            (conclude-WithinBudget t (handle host actions t row s) low (handle-Kept t s h))
    ]
