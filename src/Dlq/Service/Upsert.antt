-- ===== src/Dlq/Service/Upsert.antt =====
-- One row per failing resource: what `record_failure` does to the row of its key, and that every
-- other row stays as it is.
use recru_flow.Base.{
  ap, inl, inr, Option-cases, ℕ, String, ◌≡◌, refl, ◌∙◌, ◌≢◌, Option, none, some, List, [], ◌∷◌,
  arith, str_eq, eq_iff, eq_refl, if◌then◌else◌,
}
use recru_flow.Db.{Db, IngestionFailure}
use recru_flow.Dlq.Service.{
  FailureType, value_of, parse_failure_type, validation_failed, page_fetch_failed, run_fetch_failed,
  scoring_failed, detail_fetch_blocked, FailureFields, fresh_failure, reopen, upsert,
  record_failure,
}

-- The row with a key.
unfoldable pub row_of : String → List IngestionFailure → Option IngestionFailure
row_of key [] = none
row_of key (row ∷ rows) = if str_eq row.dedup_key key then some row else row_of key rows

-- `dedup_key` is unique.
abbrev pub UniqueKeys : List IngestionFailure → Type 0
UniqueKeys [] = Unit
UniqueKeys (row ∷ rows) = (row_of row.dedup_key rows ≡ none) × UniqueKeys rows

-- The row that the key has after the upsert, from the one before it.
abbrev pub recorded :
    ℕ → String → FailureType → FailureFields → ℕ → Option IngestionFailure → IngestionFailure
recorded id key failure_type fields now none = fresh_failure id key failure_type fields now
recorded id key failure_type fields now (some row) = reopen failure_type fields now row

module _ (id : ℕ) (key : String) (failure_type : FailureType) (fields : FailureFields)
    (now : ℕ) where
  pub row_of-upsert :
      (j : String) (rows : List IngestionFailure)
      → row_of j (upsert id key failure_type fields now rows) ≡ (
          if str_eq key j
          then some (recorded id key failure_type fields now (row_of key rows))
          else row_of j rows)
  unfolding row_of upsert
  row_of-upsert j [] = refl
  row_of-upsert j (row ∷ rows) =
      ground (
        arith,
        row_of-upsert j rows,
        eq_iff row.dedup_key key,
        eq_iff row.dedup_key j,
        eq_iff key j,
      )

  pub upsert-UniqueKeys :
      (rows : List IngestionFailure)
      → UniqueKeys rows
      → UniqueKeys (upsert id key failure_type fields now rows)
  unfolding row_of upsert
  upsert-UniqueKeys [] u = (refl, tt)
  upsert-UniqueKeys (row ∷ rows) u = ground (
    arith,
    upsert-UniqueKeys rows u.1,
    row_of-upsert row.dedup_key rows,
    eq_iff row.dedup_key key,
    eq_iff key row.dedup_key,
  )

  -- The row of the key after the upsert.
  pub upsert-recorded :
      (rows : List IngestionFailure)
      → row_of key (upsert id key failure_type fields now rows)
        ≡ some (recorded id key failure_type fields now (row_of key rows))
  upsert-recorded rows = row_of-upsert key rows ∙ rw eq_refl refl

  -- The row of the key is open after the upsert.
  pub upsert-opens :
      (rows : List IngestionFailure)
      → (row : IngestionFailure) × (row_of key (upsert id key failure_type fields now rows)
          ≡ some row)
        × (row.status ≡ "open")
        × (row.failure_type ≡ value_of failure_type)
        × (row.source_id ≡ fields.source_id)
  unfolding fresh_failure reopen
  upsert-opens rows = elim (Option-cases (row_of key rows)) [
    | inl new ↦ (fresh_failure id key failure_type fields now, found new, refl, refl, refl)
    | inr (row, old) ↦ (reopen failure_type fields now row, found old, refl, refl, refl)
  ]
    where
      found :
          {o : Option IngestionFailure}
          → row_of key rows ≡ o
          → row_of key (upsert id key failure_type fields now rows)
            ≡ some (recorded id key failure_type fields now o)
      found e =
          row_of-upsert key rows
          ∙ rw eq_refl (ap (λ o. some (recorded id key failure_type fields now o)) e)

-- A recorded failure is open, of its type and unresolved, also where the row was closed before, and
-- it keeps the count of retries that were spent on it.
pub record IsRecorded (failure_type : FailureType) (fields : FailureFields) (now : ℕ)
    (old : Option IngestionFailure) (row : IngestionFailure) : Type 0 where
  pub open_again : row.status ≡ "open"
  pub typed : row.failure_type ≡ value_of failure_type
  pub message : row.error_message ≡ fields.error_message
  pub unresolved : row.resolved_at ≡ none
  pub dated : row.occurred_at ≡ now
  pub spent : row.retry_count ≡ elim old [ none ↦ 0 | some before ↦ before.retry_count ]

recorded-IsRecorded :
    (id : ℕ) (key : String) (failure_type : FailureType) (fields : FailureFields) (now : ℕ)
    (old : Option IngestionFailure)
    → IsRecorded failure_type fields now old (recorded id key failure_type fields now old)
unfolding fresh_failure reopen
recorded-IsRecorded id key failure_type fields now none = record {
  open_again = refl;
  typed = refl;
  message = refl;
  unresolved = refl;
  dated = refl;
  spent = refl;
}
recorded-IsRecorded id key failure_type fields now (some row) = record {
  open_again = refl;
  typed = refl;
  message = refl;
  unresolved = refl;
  dated = refl;
  spent = refl;
}

-- On a table where every key has one row, record_failure keeps it so, leaves a row of its key
-- that is open, unresolved and dated now with the new type and message and the attempts already
-- spent, and changes the row of no other key.
pub record_failure_lem :
    (clock : ℕ → ℕ) (key : String) (failure_type : FailureType) (fields : FailureFields) (db : Db)
    → UniqueKeys db.ingestion_failures
    → let after = (record_failure clock key failure_type fields db).ingestion_failures in
      UniqueKeys after
      × ((row : IngestionFailure) × (row_of key after ≡ some row)
          × IsRecorded failure_type fields (clock db.reads) (row_of key db.ingestion_failures) row)
      × ((j : String) → key ≢ j → row_of j after ≡ row_of j db.ingestion_failures)
unfolding record_failure
record_failure_lem clock key failure_type fields db u = (
  upsert-UniqueKeys db.next_id key failure_type fields (clock db.reads) db.ingestion_failures u,
  (
    recorded db.next_id key failure_type fields (clock db.reads) (row_of key db.ingestion_failures),
    row_of-upsert db.next_id key failure_type fields (clock db.reads) key db.ingestion_failures
        ∙ rw eq_refl,
    recorded-IsRecorded db.next_id key failure_type fields (clock db.reads)
        (row_of key db.ingestion_failures),
  ),
  λ j other. ground (
    arith,
    row_of-upsert db.next_id key failure_type fields (clock db.reads) j db.ingestion_failures,
    eq_iff key j,
  ),
)

-- Reading back the text of a failure type gives the type.
pub parse-value_of : (t : FailureType) → parse_failure_type (value_of t) ≡ some t
unfolding value_of parse_failure_type
parse-value_of validation_failed = refl
parse-value_of page_fetch_failed = refl
parse-value_of run_fetch_failed = refl
parse-value_of scoring_failed = refl
parse-value_of detail_fetch_blocked = refl
