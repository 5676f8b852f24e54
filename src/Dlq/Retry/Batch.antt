-- ===== src/Dlq/Retry/Batch.antt =====
-- What a retry does to the table, and how the scheduled batch counts and limits its attempts.
use recru_flow.Base.{
  str_eq, false, ℕ, ◌+◌, String, ◌≡◌, refl, inl, inr, Bool, true, false, not, Option, none, some,
  List, [], ◌∷◌, map, arith, leb, ◌==◌, Bool-cases, length, filter, All,
}
use mathlib.Core.Path.{subst}
use recru_flow.Db.{Db, IngestionFailure, utcnow}
use recru_flow.Dlq.Service.{FailureType, parse_failure_type}
use recru_flow.Ingestion.Persist.{Host}
use recru_flow.Dlq.Retry.{
  Actions, update_rows, update_row, Tried, succeeded, still_failing, raised, handle,
  externally_recorded, write_resolved, write_marked, write_count, conclude, perform_retry,
  DetailRetrySummary, is_due, count_retried, after_retry, retry_rows, run_detail_retry_batch,
}

-- The rows that do not have the id.
abbrev pub others : ℕ → List IngestionFailure → List IngestionFailure
others id rows = filter (λ (r : IngestionFailure). not (r.id == id)) rows

abbrev pub statuses : List IngestionFailure → List String
statuses rows = map (λ (r : IngestionFailure). r.status) rows

module _ (id : ℕ) (change : IngestionFailure → IngestionFailure)
    (same_id : (r : IngestionFailure) → (change r).id ≡ r.id) where
  others-update_rows :
      (rows : List IngestionFailure) → others id (update_rows id change rows) ≡ others id rows
  unfolding filter update_rows
  others-update_rows [] = refl
  others-update_rows (row ∷ rows) = ground (arith, others-update_rows rows, same_id row)

  All-update_rows :
      (P : IngestionFailure → Type 0)
      → ((r : IngestionFailure) → P (change r))
      → (rows : List IngestionFailure)
      → All (λ (r : IngestionFailure). r.id ≡ id → P r) (update_rows id change rows)
  unfolding update_rows
  All-update_rows P h [] = tt
  All-update_rows P h (row ∷ rows) = elim (Bool-cases (row.id == id)) [
    | inl hit ↦ rw hit ((λ _. h row), All-update_rows P h rows)
    | inr miss ↦ rw miss ((λ e. absurd (ground (arith, e, miss))), All-update_rows P h rows)
  ]

statuses-update_rows :
    (id : ℕ) (change : IngestionFailure → IngestionFailure)
    → ((r : IngestionFailure) → (change r).status ≡ r.status)
    → (rows : List IngestionFailure) → statuses (update_rows id change rows) ≡ statuses rows
unfolding update_rows
statuses-update_rows id change same [] = refl
statuses-update_rows id change same (row ∷ rows) =
    ground (arith, statuses-update_rows id change same rows, same row)

-- A row that was closed at a moment.
abbrev pub IsClosed : ℕ → IngestionFailure → Type 0
IsClosed now row = (row.status ≡ "resolved") × (row.resolved_at ≡ some now)

module _ {W : Type 0} (host : Host) (actions : Actions W) where
  -- A success closes the row, but where the session held it as resolved: then its status stays as
  -- the handler left it, and only the date is written.
  abbrev pub Closes : Bool → ℕ → ℕ → List IngestionFailure → List IngestionFailure → Type 0
  Closes false id now before after =
      All (λ (r : IngestionFailure). r.id ≡ id → IsClosed now r) after
  Closes true id now before after =
      (statuses after ≡ statuses before)
      × All (λ (r : IngestionFailure). r.id ≡ id → r.resolved_at ≡ some now) after

  -- What is left after a handler: an exception leaves what the handler left, a success closes the
  -- row, and a failure closes none.
  abbrev pub Concluded : Tried × (Db × W) → Option IngestionFailure × (Db × W) → Type 0
  Concluded (raised, s) outcome = outcome ≡ (none, s)
  Concluded (succeeded row, s) outcome =
      Closes (str_eq row.status "resolved") row.id (host.clock s.0.reads) s.0.ingestion_failures
        outcome.1.0.ingestion_failures
      × (others row.id outcome.1.0.ingestion_failures ≡ others row.id s.0.ingestion_failures)
  Concluded (still_failing row, s) outcome =
      (statuses outcome.1.0.ingestion_failures ≡ statuses s.0.ingestion_failures)
      × (others row.id outcome.1.0.ingestion_failures ≡ others row.id s.0.ingestion_failures)

  conclude-Closes :
      (row : IngestionFailure) (now : ℕ) (rows : List IngestionFailure)
      → Closes
          (str_eq row.status "resolved")
          row.id
          now
          rows
          (update_rows row.id (write_resolved now row) rows)
  conclude-Closes row now rows = elim (Bool-cases (str_eq row.status "resolved")) [
    | inl held ↦ rw held (
      statuses-update_rows row.id (write_resolved now row) (λ r. rw held refl) rows,
      All-update_rows row.id (write_resolved now row) (λ r. refl) (λ r. r.resolved_at ≡ some now)
          (λ r. refl) rows,
    )
    | inr other ↦ rw other (
        All-update_rows row.id (write_resolved now row) (λ r. refl) (IsClosed now)
          (λ r. (rw other refl, refl)) rows)
  ]

  conclude-Concluded :
      (failure_type : FailureType) (tried : Tried × (Db × W))
      → Concluded tried (conclude host actions failure_type tried)
  unfolding conclude update_row
  conclude-Concluded failure_type (raised, s) = refl
  conclude-Concluded failure_type (succeeded row, (db, world)) = (
    conclude-Closes row (host.clock db.reads) db.ingestion_failures,
    others-update_rows row.id (write_resolved (host.clock db.reads) row) (λ r. refl)
        db.ingestion_failures,
  )
  conclude-Concluded failure_type (still_failing row, (db, world)) =
      elim (Bool-cases (externally_recorded failure_type)) [
        | inl external ↦ rw external (
          statuses-update_rows row.id (write_count row) (λ r. refl) db.ingestion_failures,
          others-update_rows row.id (write_count row) (λ r. refl) db.ingestion_failures,
        )
        | inr own ↦ rw own (
          statuses-update_rows row.id (write_marked row) (λ r. refl) db.ingestion_failures,
          others-update_rows row.id (write_marked row) (λ r. refl) db.ingestion_failures,
        )
      ]

  -- The retry of a row of a known type: if its handler succeeds, a row that was not resolved when it
  -- was read is closed at once, also where the handler's own run recorded a new failure on it, and one
  -- that was read as resolved keeps the status that the handler's run left, with the date of this
  -- retry; if the handler fails, no status
  -- changes; no other row changes but by the handler; and an exception leaves what the handler
  -- left.
  pub perform_retry_lem :
      (row : IngestionFailure) (failure_type : FailureType) (s : Db × W)
      → parse_failure_type row.failure_type ≡ some failure_type
      → Concluded (handle host actions failure_type row s) (perform_retry host actions row s)
  unfolding perform_retry
  perform_retry_lem row failure_type s known =
      rw (known, perform_retry)
        (conclude-Concluded failure_type (handle host actions failure_type row s))

  abbrev pub exhausted : ℕ → IngestionFailure → Bool
  exhausted max_attempts row = leb max_attempts row.retry_count

  -- The counts that the loop adds to a summary.
  pub record Accounts (max_attempts : ℕ) (rows : List IngestionFailure)
      (before after : DetailRetrySummary) : Type 0 where
    pub every_row :
        after.attempted + after.abandoned ≡ before.attempted + before.abandoned + length rows
    pub every_attempt :
        after.resolved + after.still_blocked + before.attempted
        ≡ before.resolved + before.still_blocked + after.attempted
    pub every_exhausted :
        after.abandoned ≡ before.abandoned + length (filter (exhausted max_attempts) rows)

  -- What is shown of a summary, where there is one.
  abbrev pub Accounted :
      ℕ → List IngestionFailure → DetailRetrySummary → Option DetailRetrySummary → Type 0
  Accounted max_attempts rows before none = Unit
  Accounted max_attempts rows before (some after) = Accounts max_attempts rows before after

  Accounted-abandon :
      (max_attempts : ℕ) (row : IngestionFailure) (rows : List IngestionFailure)
      (summary : DetailRetrySummary) (o : Option DetailRetrySummary)
      → exhausted max_attempts row ≡ true
      → Accounted max_attempts rows (record summary { abandoned = summary.abandoned + 1 }) o
      → Accounted max_attempts (row ∷ rows) summary o
  unfolding filter
  Accounted-abandon max_attempts row rows summary none spent h = tt
  Accounted-abandon max_attempts row rows summary (some after) spent h = record {
    every_row = omega (arith, h.every_row);
    every_attempt = h.every_attempt;
    every_exhausted = rw spent (omega (arith, h.every_exhausted));
  }

  Accounted-attempt :
      (max_attempts : ℕ) (row held : IngestionFailure) (rows : List IngestionFailure)
      (summary : DetailRetrySummary) (o : Option DetailRetrySummary)
      → exhausted max_attempts row ≡ false
      → Accounted max_attempts rows (count_retried held summary) o
      → Accounted max_attempts (row ∷ rows) summary o
  unfolding filter count_retried
  Accounted-attempt max_attempts row held rows summary none left h = tt
  Accounted-attempt max_attempts row held rows summary (some after) left h = record {
    every_row = ground (arith, h.every_row);
    every_attempt = ground (arith, h.every_attempt);
    every_exhausted = ground (arith, h.every_exhausted, left);
  }

  after_retry-Accounted :
      (max_attempts : ℕ) (row : IngestionFailure) (rows : List IngestionFailure)
      (rest : DetailRetrySummary → Db × W → Option DetailRetrySummary × (Db × W))
      (summary : DetailRetrySummary) (retried : Option IngestionFailure × (Db × W))
      → exhausted max_attempts row ≡ false
      → ((before : DetailRetrySummary) (s : Db × W)
          → Accounted max_attempts rows before (rest before s).0)
      → Accounted max_attempts
          (row ∷ rows)
          summary
          (after_retry host actions max_attempts rest summary retried).0
  unfolding after_retry
  after_retry-Accounted max_attempts row rows rest summary (none, s) left h = tt
  after_retry-Accounted max_attempts row rows rest summary (some held, s) left h =
      Accounted-attempt max_attempts row held rows summary (rest (count_retried held summary) s).0
        left (h (count_retried held summary) s)

  retry_rows-Accounted :
      (max_attempts : ℕ) (rows : List IngestionFailure) (summary : DetailRetrySummary) (s : Db × W)
      → Accounted max_attempts rows summary (retry_rows host actions max_attempts rows summary s).0
  unfolding retry_rows filter
  retry_rows-Accounted max_attempts [] summary s = record {
    every_row = omega arith;
    every_attempt = omega arith;
    every_exhausted = omega arith;
  }
  retry_rows-Accounted max_attempts (row ∷ rows) summary s =
      elim (Bool-cases (exhausted max_attempts row)) [
        | inl spent ↦
            rw (spent, retry_rows)
              (Accounted-abandon max_attempts row rows summary _ spent
                (retry_rows-Accounted max_attempts rows _ _))
        | inr left ↦
            rw (left, retry_rows)
              (after_retry-Accounted max_attempts row rows
                (retry_rows host actions max_attempts rows) summary _ left
                (retry_rows-Accounted max_attempts rows))
      ]

  abbrev no_counts : DetailRetrySummary
  no_counts = record { attempted = 0; resolved = 0; still_blocked = 0; abandoned = 0 }

  -- The rows that a batch takes up.
  abbrev pub due_rows : ℕ → Db → List IngestionFailure
  due_rows min_age db = filter (is_due (host.clock db.reads) min_age) db.ingestion_failures

  -- A scheduled batch that returns a summary has counted every row that was due: those with no
  -- attempt left as abandoned, each other one as attempted, and each attempt as either resolved
  -- or still blocked.
  pub run_detail_retry_batch-Accounts :
      (max_attempts min_age : ℕ) (db : Db) (world : W) {summary : DetailRetrySummary}
      → (run_detail_retry_batch host actions max_attempts min_age (db, world)).0 ≡ some summary
      → (summary.attempted + summary.abandoned ≡ length (due_rows min_age db))
        × (summary.resolved + summary.still_blocked ≡ summary.attempted)
        × (summary.abandoned ≡ length (filter (exhausted max_attempts) (due_rows min_age db)))
  unfolding run_detail_retry_batch utcnow
  run_detail_retry_batch-Accounts max_attempts min_age db world {summary} e =
      let accounts = subst (Accounted max_attempts (due_rows min_age db) no_counts) e (
        retry_rows-Accounted max_attempts (due_rows min_age db) no_counts
          (record db { reads = db.reads + 1 }, world)) in
      (
        omega (arith, accounts.every_row),
        omega (arith, accounts.every_attempt),
        omega (arith, accounts.every_exhausted),
      )
