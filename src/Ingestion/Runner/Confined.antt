-- ===== src/Ingestion/Runner/Confined.antt =====
-- A run touches the offers and the failures of ingestion, and leaves the records of runs alone.
use recru_flow.Base.{
  either_branch, ℕ, zero, suc, ◌+◌, ◌≡◌, refl, ◌∙◌, inl, inr, Bool, true, false, ◌||◌, Option, none,
  some, List, [], ◌∷◌, arith, ◌==◌, Bool-cases, Option-cases, is_some,
}
use recru_flow.Data.Json.{get, Fields}
use recru_flow.Schemas.{Offer}
use recru_flow.Db.{Db, OfferRow, SchedulerRun, utcnow}
use recru_flow.Connectors.Http.{Fetched, got, nothing, blocked}
use recru_flow.Dlq.Service.{record_failure}
use recru_flow.Ingestion.Types.{IngestionResult}
use recru_flow.Ingestion.Persist.{
  Host, reject, normalize_and_validate, insert_offer, persist_offer, persist_valid, ingest_offer,
}
use recru_flow.Ingestion.Runner.{
  Feed, Params, Progress, before_since, after_until, tally, store, effective_date, visit_dated,
  Moment, parse_moment, range_raises, visit_mapped, visit, visit_all, page_failed, visit_page,
  next_page, after_fetch, run_pages, run_paginated_ingestion,
}

module _ {C W : Type 0} (host : Host) (feed : Feed C W) (params : Params) where
  persist_valid-runs :
      (raw : Fields) (r : Option Offer × Db)
      → (persist_valid host raw r).1.scheduler_runs ≡ r.1.scheduler_runs
  unfolding persist_valid persist_offer insert_offer
  persist_valid-runs raw (none, db) = refl
  persist_valid-runs raw (some offer, db) = ground arith

  ingest_offer-runs :
      (mapped raw : Fields) (db : Db)
      → (ingest_offer host mapped raw db).1.scheduler_runs ≡ db.scheduler_runs
  unfolding ingest_offer normalize_and_validate reject record_failure
  ingest_offer-runs mapped raw db =
      persist_valid-runs raw (normalize_and_validate host mapped db) ∙ ground arith

  tally-runs :
      (r : Option (OfferRow × Bool) × Db) (p : Progress W)
      → (tally r p).db.scheduler_runs ≡ r.1.scheduler_runs
  unfolding tally
  tally-runs (none, db) p = refl
  tally-runs (some (_, true), db) p = refl
  tally-runs (some (_, false), db) p = refl

  store-runs :
      (raw mapped : Fields) (p : Progress W)
      → (store host feed params raw mapped p).db.scheduler_runs ≡ p.db.scheduler_runs
  unfolding store
  store-runs raw mapped p =
      tally-runs (ingest_offer host mapped raw p.db) p ∙ ingest_offer-runs mapped raw p.db

  effective_date-runs :
      (mapped : Fields) (db : Db)
      → (effective_date host feed params mapped db).1.scheduler_runs ≡ db.scheduler_runs
  unfolding effective_date utcnow
  effective_date-runs mapped db = elim (Option-cases (parse_moment host (get "posted_at" mapped))) [
    | inl undated ↦ rw (undated, effective_date) refl
    | inr (date, dated) ↦ rw (dated, effective_date) refl
  ]

  visit_dated-runs :
      (raw mapped : Fields) (dated : Moment × Db) (p : Progress W) (all_older : Bool)
      → (visit_dated host feed params raw mapped dated (p, all_older)).0.db.scheduler_runs
        ≡ dated.1.scheduler_runs
  unfolding visit_dated
  visit_dated-runs raw mapped (date, db) p all_older =
      let keeps = λ (s : Progress W × Bool). s.0.db.scheduler_runs ≡ db.scheduler_runs in
      either_branch keeps (range_raises host feed params date) refl (
        either_branch keeps (before_since params.since date.at || after_until params.until date.at)
          refl (store-runs raw mapped (record p { db = db })))

  visit-runs :
      (raw : Fields) (state : Progress W × Bool)
      → (visit host feed params raw state).0.db.scheduler_runs ≡ state.0.db.scheduler_runs
  unfolding visit visit_mapped
  visit-runs raw (p, all_older) = elim (Option-cases (feed.map_offer params.source_id raw)) [
    | inl raises ↦ rw (raises, visit) refl
    | inr (mapped, given) ↦
        rw (given, visit)
          (either_branch (λ (s : Progress W × Bool). s.0.db.scheduler_runs ≡ p.db.scheduler_runs)
            (is_some params.since || is_some params.until)
            (visit_dated-runs raw mapped (effective_date host feed params mapped p.db) p all_older
              ∙ effective_date-runs mapped p.db)
            (store-runs raw mapped p))
  ]

  visit_all-runs :
      (offers : List Fields) (state : Progress W × Bool)
      → (visit_all host feed params offers state).0.db.scheduler_runs ≡ state.0.db.scheduler_runs
  unfolding visit_all
  visit_all-runs [] state = refl
  visit_all-runs (raw ∷ offers) state =
      either_branch (λ (s : Progress W × Bool). s.0.db.scheduler_runs ≡ state.0.db.scheduler_runs)
        state.0.raised refl
        (visit_all-runs offers (visit host feed params raw state) ∙ visit-runs raw state)

  module _ (runs : List SchedulerRun) where
    page_failed-runs :
        (page_index : ℕ) (status : Option ℕ) (p : Progress W)
        → p.db.scheduler_runs ≡ runs
        → (page_failed host feed params page_index status p).1.db.scheduler_runs ≡ runs
    unfolding page_failed record_failure
    page_failed-runs page_index status p h = elim (Bool-cases (page_index == 0)) [
      | inl e ↦ rw e h
      | inr e ↦ rw e h
    ]

    after_fetch-runs :
        (rest : C → Progress W → IngestionResult × Progress W) (page_index : ℕ)
        (page : Fetched (List Fields × Option C)) (p : Progress W)
        → ((cursor : C) (q : Progress W)
            → q.db.scheduler_runs ≡ runs
            → (rest cursor q).1.db.scheduler_runs ≡ runs)
        → p.db.scheduler_runs ≡ runs
        → (after_fetch host feed params rest page_index page p).1.db.scheduler_runs ≡ runs
    unfolding after_fetch visit_page
    after_fetch-runs rest page_index nothing p continues h = page_failed-runs page_index none p h
    after_fetch-runs rest page_index (blocked code) p continues h =
        page_failed-runs page_index (some code) p h
    after_fetch-runs rest page_index (got (offers, next)) p continues h =
        let visited = visit_page host feed params offers p in
        let h' : visited.0.db.scheduler_runs ≡ runs = visit_all-runs offers _ ∙ h in
        elim (Option-cases (next_page host feed params next visited)) [
          | inl ends ↦ rw (ends, after_fetch) h'
          | inr (cursor, goes_on) ↦ rw (goes_on, after_fetch) (continues cursor visited.0 h')
        ]

    run_pages-runs :
        (left page_index : ℕ) (cursor : C) (p : Progress W)
        → p.db.scheduler_runs ≡ runs
        → (run_pages host feed params left page_index cursor p).1.db.scheduler_runs ≡ runs
    unfolding run_pages
    run_pages-runs zero page_index cursor p h = h
    run_pages-runs (suc left) page_index cursor p h =
        after_fetch-runs (run_pages host feed params left (page_index + 1)) page_index
          (feed.fetch_page cursor params.page_size p.world).0 _
          (run_pages-runs left (page_index + 1)) h

  -- A run of a connector leaves the records of runs as they were.
  pub run_paginated_ingestion-runs :
      (initial_cursor : C) (db : Db) (world : W)
      → (run_paginated_ingestion host feed params initial_cursor db world).1.db.scheduler_runs
        ≡ db.scheduler_runs
  unfolding run_paginated_ingestion
  run_paginated_ingestion-runs initial_cursor db world =
      run_pages-runs db.scheduler_runs params.max_pages 0 initial_cursor _ refl
