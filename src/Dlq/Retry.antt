-- ===== src/Dlq/Retry.antt =====
-- app/dlq/retry.py: the retry of one failure row, and the scheduled retry of blocked ones.
-- A row that the session holds is a value, and a commit writes its changed columns to the table.
-- The retry of a scoring failure is in Scoring/Retry: on an ingestion row it raises, for want of an
-- offer id.
pub mod Batch
pub mod Spent
pub mod Budget
use recru_flow.Base.{
  ℕ, zero, suc, ◌+◌, ◌-◌, ◌*◌, ◌/◌, ◌%◌, ◌≤◌, ◌<◌, min, max, String, ◌<>◌, ◌≡◌, refl, sym, ap, ◌∙◌,
  ◌≢◌, ◌↔◌, ◌⊎◌, inl, inr, Bool, true, false, not, ◌&&◌, ◌||◌, Option, none, some, List, [], ◌∷◌,
  ◌++◌, map, foldl, append-nil, append_assoc, arith, str_eq, eq_iff, eq_refl, ltb, leb, ◌==◌,
  if◌then◌else◌, ltb→lt, lt→ltb, leb→le, le→leb, ==_iff, tests, Bool-cases, Option-cases, is_none,
  is_some, get_or, or_else, length, get_elem?, take, drop, filter, any, all, find, All,
  length-append, length-take, length-drop, take-append-drop, length-filter-le, any-append,
  filter-append, All-append, All-map, All-filter, length-filter-not, length-map,
}
use recru_flow.Data.Text.{show}
use recru_flow.Data.Json.{Fields}
use recru_flow.Schemas.{Offer}
use recru_flow.Db.{Db, Source, IngestionFailure, utcnow}
use recru_flow.Connectors.Http.{Fetched, got, nothing, blocked}
use recru_flow.Dlq.Service.{
  FailureType, validation_failed, page_fetch_failed, run_fetch_failed, scoring_failed,
  detail_fetch_blocked, parse_failure_type,
}
use recru_flow.Ingestion.Persist.{Host, model_validate, persist_offer}

-- What the retries call. `trigger_ingest` runs a connector in a session of its own and gives
-- `result.ok`; the registry may have a `detail_retry` for a connector. Both work on the database and
-- on the world `W`, and `none` is an exception.
pub record Actions (W : Type 0) : Type 0 where
  pub trigger_ingest : String → Db × W → Option Bool × (Db × W)
  pub detail_retry : String → Option (Source → String → Db × W → Option (Fetched Bool) × (Db × W))

-- `session.get(Source, id)`
unfoldable pub get_source : ℕ → List Source → Option Source
unfolding find
get_source id = find (λ (s : Source). s.id == id)

-- `source is not None and source.connector is not None`
unfoldable pub connected : Option Source → Option (Source × String)
connected none = none
connected (some source) = elim source.connector [ none ↦ none | some name ↦ some (source, name) ]

-- An `UPDATE` of the row with an id.
unfoldable pub update_rows :
    ℕ → (IngestionFailure → IngestionFailure) → List IngestionFailure → List IngestionFailure
update_rows id change [] = []
update_rows id change (row ∷ rows) =
    (if row.id == id then change row else row) ∷ update_rows id change rows

unfoldable pub update_row : ℕ → (IngestionFailure → IngestionFailure) → Db → Db
unfolding update_rows
update_row id change db = record db {
  ingestion_failures = update_rows id change db.ingestion_failures;
}

-- How a handler ends: its flag with the row as it left it, or an exception.
pub data Tried : Type 0 where
  succeeded still_failing : IngestionFailure → Tried
  raised : Tried

module _ {W : Type 0} (host : Host) (actions : Actions W) where
  unfoldable pub mark_still_failing : IngestionFailure → String → Db × W → Tried × (Db × W)
  unfolding utcnow
  mark_still_failing row error_message (db, world) =
      let (now, db') = utcnow host.clock db in
      (
        still_failing (record row { error_message = error_message; occurred_at = now }),
        (db', world),
      )

  -- The offer that the stored payload gives, if it is valid by now.
  unfoldable pub persist_retried :
      IngestionFailure → Fields → Option Offer → Db × W → Tried × (Db × W)
  unfolding mark_still_failing persist_offer
  persist_retried row raw none s = mark_still_failing row (host.complain raw) s
  persist_retried row raw (some offer) (db, world) =
      (succeeded row, ((persist_offer host offer raw db).1, world))

  unfoldable pub retry_validation_failed : IngestionFailure → Db × W → Tried × (Db × W)
  unfolding mark_still_failing persist_retried
  retry_validation_failed row s = elim row.raw_payload [
    | none ↦ mark_still_failing row "cannot retry: no raw payload stored" s
    | some raw ↦ persist_retried row raw (model_validate host raw) s
  ]

  -- The flag of the run is the flag of the handler.
  unfoldable pub after_ingest : IngestionFailure → Option Bool × (Db × W) → Tried × (Db × W)
  after_ingest row (none, s) = (raised, s)
  after_ingest row (some true, s) = (succeeded row, s)
  after_ingest row (some false, s) = (still_failing row, s)

  unfoldable pub retry_fetch_failed : IngestionFailure → Db × W → Tried × (Db × W)
  unfolding after_ingest
  retry_fetch_failed row (db, world) = elim (connected (get_source row.source_id db.sources)) [
    | none ↦ (raised, (db, world))
    | some (_, name) ↦ after_ingest row (actions.trigger_ingest name (db, world))
  ]

  -- The flag of the fetch, or the marks of a block.
  unfoldable pub after_detail :
      IngestionFailure → Option (Fetched Bool) × (Db × W) → Tried × (Db × W)
  unfolding mark_still_failing
  after_detail row (none, s) = (raised, s)
  after_detail row (some (got true), s) = (succeeded row, s)
  after_detail row (some (got false), s) = (still_failing row, s)
  after_detail row (some nothing, s) = (still_failing row, s)
  after_detail row (some (blocked code), s) =
      mark_still_failing row ("still blocked: HTTP " <> show code) s

  -- The fetch of the one URL by the connector's own hook.
  unfoldable pub fetch_again :
      IngestionFailure → Source → String → Option String → Db × W → Tried × (Db × W)
  unfolding mark_still_failing after_detail
  fetch_again row source name none s = mark_still_failing row "cannot retry: no url stored" s
  fetch_again row source name (some url) s = elim (actions.detail_retry name) [
    | none ↦ (raised, s)
    | some hook ↦ after_detail row (hook source url s)
  ]

  unfoldable pub retry_detail_fetch_blocked : IngestionFailure → Db × W → Tried × (Db × W)
  unfolding fetch_again
  retry_detail_fetch_blocked row (db, world) =
      elim (connected (get_source row.source_id db.sources)) [
        | none ↦ (raised, (db, world))
        | some (source, name) ↦ fetch_again row source name row.url (db, world)
      ]

  -- `RETRY_HANDLERS[failure_type](session, row)`
  unfoldable pub handle : FailureType → IngestionFailure → Db × W → Tried × (Db × W)
  unfolding retry_validation_failed retry_fetch_failed retry_detail_fetch_blocked
  handle validation_failed = retry_validation_failed
  handle page_fetch_failed = retry_fetch_failed
  handle run_fetch_failed = retry_fetch_failed
  handle scoring_failed = λ row s. (raised, s)
  handle detail_fetch_blocked = retry_detail_fetch_blocked

-- `_EXTERNALLY_RECORDED_FAILURE_TYPES`
unfoldable pub externally_recorded : FailureType → Bool
externally_recorded page_fetch_failed = true
externally_recorded run_fetch_failed = true
externally_recorded _ = false

-- The columns that a commit writes for a resolved row, for one that its handler marked, and for one
-- whose failure another session recorded. A status that the session already holds as resolved is no
-- change, and is not written.
abbrev pub write_resolved : ℕ → IngestionFailure → IngestionFailure → IngestionFailure
write_resolved now row old = record old {
  status = if str_eq row.status "resolved" then old.status else "resolved";
  resolved_at = some now;
  retry_count = row.retry_count;
}

abbrev pub write_marked : IngestionFailure → IngestionFailure → IngestionFailure
write_marked row old = record old {
  error_message = row.error_message;
  occurred_at = row.occurred_at;
  retry_count = row.retry_count;
}

abbrev pub write_count : IngestionFailure → IngestionFailure → IngestionFailure
write_count row old = record old { retry_count = row.retry_count }

abbrev pub write_abandoned : IngestionFailure → IngestionFailure
write_abandoned old = record old { status = "abandoned" }

-- `session.refresh(row)`
unfoldable pub refresh : IngestionFailure → Db → IngestionFailure
unfolding find
refresh row db = get_or (find (λ (r : IngestionFailure). r.id == row.id) db.ingestion_failures) row

module _ {W : Type 0} (host : Host) (actions : Actions W) where
  -- `perform_retry` after its handler: the row that the session then holds, or an exception.
  unfoldable pub conclude : FailureType → Tried × (Db × W) → Option IngestionFailure × (Db × W)
  unfolding utcnow update_row externally_recorded refresh
  conclude failure_type (raised, s) = (none, s)
  conclude failure_type (succeeded row, (db, world)) =
      let (now, db') = utcnow host.clock db in
      (
        some (record row { status = "resolved"; resolved_at = some now }),
        (update_row row.id (write_resolved now row) db', world),
      )
  conclude failure_type (still_failing row, (db, world)) =
      if externally_recorded failure_type
      then (
        some (refresh row (update_row row.id (write_count row) db)),
        (update_row row.id (write_count row) db, world),
      )
      else (some row, (update_row row.id (write_marked row) db, world))

  -- A row whose type is not known raises `UnknownFailureTypeError`.
  unfoldable pub perform_retry : IngestionFailure → Db × W → Option IngestionFailure × (Db × W)
  unfolding conclude handle
  perform_retry row s = elim (parse_failure_type row.failure_type) [
    | none ↦ (none, s)
    | some failure_type ↦ conclude failure_type (handle host actions failure_type row s)
  ]

pub record DetailRetrySummary : Type 0 where
  pub attempted : ℕ
  pub resolved : ℕ
  pub still_blocked : ℕ
  pub abandoned : ℕ

-- The query of the batch: open, blocked, and old enough.
unfoldable pub is_due : ℕ → ℕ → IngestionFailure → Bool
is_due now min_age row =
    str_eq row.status "open" && is_some row.blocked_status && leb (row.occurred_at + min_age) now

-- One row of the summary after its retry.
unfoldable pub count_retried : IngestionFailure → DetailRetrySummary → DetailRetrySummary
count_retried row summary =
    if str_eq row.status "resolved"
    then record summary { attempted = summary.attempted + 1; resolved = summary.resolved + 1 }
    else record summary {
      attempted = summary.attempted + 1;
      still_blocked = summary.still_blocked + 1;
    }

module _ {W : Type 0} (host : Host) (actions : Actions W) (max_attempts : ℕ) where
  -- The loop below one retry, where `rest` is the loop over the rows that are left.
  unfoldable pub after_retry :
      (DetailRetrySummary → Db × W → Option DetailRetrySummary × (Db × W))
      → DetailRetrySummary
      → Option IngestionFailure × (Db × W)
      → Option DetailRetrySummary × (Db × W)
  unfolding count_retried
  after_retry rest summary (none, s) = (none, s)
  after_retry rest summary (some row, s) = rest (count_retried row summary) s

  unfoldable pub retry_rows :
      List IngestionFailure → DetailRetrySummary → Db × W → Option DetailRetrySummary × (Db × W)
  unfolding after_retry perform_retry update_row
  retry_rows [] summary s = (some summary, s)
  retry_rows (row ∷ rows) summary s = elim (leb max_attempts row.retry_count) [
    | true ↦
        retry_rows rows (record summary { abandoned = summary.abandoned + 1 })
          (update_row row.id write_abandoned s.0, s.1)
    | false ↦
        after_retry (retry_rows rows) summary
          (perform_retry host actions (record row { retry_count = row.retry_count + 1 }) s)
  ]

  -- `run_detail_retry_batch`, where an age is in the unit of the clock.
  unfoldable pub run_detail_retry_batch : ℕ → Db × W → Option DetailRetrySummary × (Db × W)
  unfolding utcnow filter is_due retry_rows
  run_detail_retry_batch min_age (db, world) =
      let (now, db') = utcnow host.clock db in
      retry_rows (filter (is_due now min_age) db'.ingestion_failures)
        (record { attempted = 0; resolved = 0; still_blocked = 0; abandoned = 0 }) (db', world)
