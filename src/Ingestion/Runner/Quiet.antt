-- ===== src/Ingestion/Runner/Quiet.antt =====
-- A run without a fetch range, of a connector that maps every offer, raises nothing.
use recru_flow.Base.{
  either_branch, ℕ, zero, suc, ◌+◌, ◌≡◌, refl, sym, ap, ◌∙◌, inl, inr, Bool, true, false, Option,
  none, some, List, [], ◌∷◌, arith, ◌==◌, Option-cases, is_some,
}
use recru_flow.Data.Json.{Fields}
use recru_flow.Db.{Db, OfferRow}
use recru_flow.Connectors.Http.{Fetched, got, nothing, blocked}
use recru_flow.Ingestion.Types.{IngestionResult}
use recru_flow.Ingestion.Persist.{Host, ingest_offer}
use recru_flow.Ingestion.Runner.{
  Feed, Params, Progress, tally, store, visit_mapped, visit, visit_all, page_failed, visit_page,
  next_page, after_fetch, run_pages, run_paginated_ingestion,
}

module _ {C W : Type 0} (host : Host) (feed : Feed C W) (params : Params)
    (no_since : params.since ≡ none) (no_until : params.until ≡ none)
    (maps : (raw : Fields) → is_some (feed.map_offer params.source_id raw) ≡ true) where
  tally-raised :
      (r : Option (OfferRow × Bool) × Db) (p : Progress W) → (tally r p).raised ≡ p.raised
  unfolding tally
  tally-raised (none, db) p = refl
  tally-raised (some (_, true), db) p = refl
  tally-raised (some (_, false), db) p = refl

  visit-raised :
      (raw : Fields) (state : Progress W × Bool)
      → (visit host feed params raw state).0.raised ≡ state.0.raised
  unfolding visit visit_mapped store
  visit-raised raw (p, all_older) = elim (Option-cases (feed.map_offer params.source_id raw)) [
    | inl raises ↦
        let never : false ≡ true = ap is_some (sym raises) ∙ maps raw in
        absurd (ground (arith, never))
    | inr (mapped, given) ↦
        rw (given, visit, no_since, no_until) (tally-raised (ingest_offer host mapped raw p.db) p)
  ]

  visit_all-raised :
      (offers : List Fields) (state : Progress W × Bool)
      → (visit_all host feed params offers state).0.raised ≡ state.0.raised
  unfolding visit_all
  visit_all-raised [] state = refl
  visit_all-raised (raw ∷ offers) state =
      either_branch (λ (s : Progress W × Bool). s.0.raised ≡ state.0.raised) state.0.raised refl
        (visit_all-raised offers (visit host feed params raw state) ∙ visit-raised raw state)

  page_failed-raised :
      (page_index : ℕ) (status : Option ℕ) (p : Progress W)
      → (page_failed host feed params page_index status p).1.raised ≡ p.raised
  unfolding page_failed
  page_failed-raised page_index status p =
      either_branch (λ (o : IngestionResult × Progress W). o.1.raised ≡ p.raised) (page_index == 0)
        refl refl

  after_fetch-raised :
      (rest : C → Progress W → IngestionResult × Progress W) (page_index : ℕ)
      (page : Fetched (List Fields × Option C)) (p : Progress W)
      → ((cursor : C) (q : Progress W) → q.raised ≡ false → (rest cursor q).1.raised ≡ false)
      → p.raised ≡ false
      → (after_fetch host feed params rest page_index page p).1.raised ≡ false
  unfolding after_fetch visit_page
  after_fetch-raised rest page_index nothing p continues h =
      page_failed-raised page_index none p ∙ h
  after_fetch-raised rest page_index (blocked code) p continues h =
      page_failed-raised page_index (some code) p ∙ h
  after_fetch-raised rest page_index (got (offers, next)) p continues h =
      let visited = visit_page host feed params offers p in
      let h' : visited.0.raised ≡ false = visit_all-raised offers _ ∙ h in
      elim (Option-cases (next_page host feed params next visited)) [
        | inl ends ↦ rw (ends, after_fetch) h'
        | inr (cursor, goes_on) ↦ rw (goes_on, after_fetch) (continues cursor visited.0 h')
      ]

  run_pages-raised :
      (left page_index : ℕ) (cursor : C) (p : Progress W)
      → p.raised ≡ false
      → (run_pages host feed params left page_index cursor p).1.raised ≡ false
  unfolding run_pages
  run_pages-raised zero page_index cursor p h = h
  run_pages-raised (suc left) page_index cursor p h =
      after_fetch-raised (run_pages host feed params left (page_index + 1)) page_index
        (feed.fetch_page cursor params.page_size p.world).0 _
        (run_pages-raised left (page_index + 1)) h

  pub run_paginated_ingestion-raised :
      (initial_cursor : C) (db : Db) (world : W)
      → (run_paginated_ingestion host feed params initial_cursor db world).1.raised ≡ false
  unfolding run_paginated_ingestion
  run_paginated_ingestion-raised initial_cursor db world =
      run_pages-raised params.max_pages 0 initial_cursor _ refl
