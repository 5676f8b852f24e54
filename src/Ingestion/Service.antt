-- ===== src/Ingestion/Service.antt =====
-- app/ingestion/service.py: an ingestion on request, and what its three endings leave.
use recru_flow.Base.{
  ℕ, String, ◌≡◌, ◌⊎◌, inl, inr, Bool, true, false, none, some, map, ◌==◌, if◌then◌else◌,
}
use recru_flow.Db.{Db, Source, IngestionFailure}
use recru_flow.Dlq.Service.{source_key}
use recru_flow.Dlq.Service.Upsert.{row_of}
use recru_flow.Ingestion.Types.{IngestionResult}
use recru_flow.Ingestion.Registry.{Refusal}
use recru_flow.Ingestion.Lifecycle.{
  Session, rollback, undone, Callbacks, Dispatch, Ended, refused, returned, raised,
  record_run_fetch_failure, run_with_lifecycle,
}

module _ (clock : ℕ → ℕ) where
  -- `on_success` and `on_error` of `_trigger_ingest_async`.
  abbrev pub callbacks : Callbacks Unit
  callbacks = record {
    before_dispatch = none;
    on_success = λ source result a db. record_run_fetch_failure clock source result none db;
    on_error = λ source exc a s. rollback s;
  }

-- The response: `inl` for an exception that the caller sees.
unfoldable pub respond : Ended → Refusal ⊎ IngestionResult
respond (refused refusal) = inl refusal
respond (returned result) = inr result
respond (raised exc) = inr (record {
  ok = false;
  fetched = 0;
  created = 0;
  error_message = some exc;
  blocked_status = none;
})

module _ {W : Type 0} (clock : ℕ → ℕ) (dispatch : Dispatch W) where
  -- `_trigger_ingest_async`
  unfoldable pub trigger_ingest : String → Bool → Db × W → (Refusal ⊎ IngestionResult) × (Db × W)
  unfolding respond run_with_lifecycle
  trigger_ingest connector force_refresh s =
      let (out, s') =
        run_with_lifecycle clock dispatch (callbacks clock) connector force_refresh tt s in
      (respond out.0, s')

  -- What is left after the dispatch of a source. A result leaves its work committed: an `ok` one
  -- stamps the source and records nothing, any other leaves the row of the source open. An exception
  -- leaves what the dispatch itself had committed.
  abbrev pub Left :
      Source
      → (IngestionResult ⊎ String) × (Session × W)
      → (Refusal ⊎ IngestionResult) × (Db × W)
      → Type 0
  Left source (inr exc, (s, world)) out = out ≡ (respond (raised exc), (undone s, world))
  Left source (inl result, (s, world)) out =
      (out.0 ≡ inr result)
      × (out.1.0.offers ≡ s.live.offers)
      × (result.ok ≡ true
          → (out.1.0.ingestion_failures ≡ s.live.ingestion_failures)
            × (out.1.0.sources
                ≡ map
                    (λ (x : Source).
                      if x.id == source.id
                      then record x { last_fetched_at = some (clock s.live.reads) }
                      else x)
                    s.live.sources))
      × (result.ok ≡ false
          → (out.1.0.sources ≡ s.live.sources)
            × ((row : IngestionFailure) × (row_of (source_key source.id) out.1.0.ingestion_failures
                  ≡ some row)
                × (row.status ≡ "open")
                × (row.failure_type ≡ "run_fetch_failed")
                × (row.source_id ≡ source.id)))
