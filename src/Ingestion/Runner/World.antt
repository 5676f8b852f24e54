-- ===== src/Ingestion/Runner/World.antt =====
-- The runner changes the world only by its fetches.
use mathlib.Core.Path.{subst}
use recru_flow.Base.{
  either_branch, ℕ, zero, suc, ◌+◌, ◌≡◌, refl, sym, ◌∙◌, inl, inr, Bool, true, false, ◌||◌, Option,
  none, some, List, [], ◌∷◌, ◌==◌, Bool-cases, Option-cases, is_some,
}
use recru_flow.Data.Json.{Fields}
use recru_flow.Db.{Db, OfferRow}
use recru_flow.Connectors.Http.{Fetched, got, nothing, blocked}
use recru_flow.Ingestion.Types.{IngestionResult}
use recru_flow.Ingestion.Persist.{Host, ingest_offer}
use recru_flow.Ingestion.Runner.{
  Feed, Params, Progress, before_since, after_until, tally, store, effective_date, visit_dated,
  Moment, range_raises, visit_mapped, visit, visit_all, page_failed, visit_page, next_page,
  after_fetch, run_pages, run_paginated_ingestion,
}

module _ {C W : Type 0} (host : Host) (feed : Feed C W) (params : Params) where
  tally-world : (r : Option (OfferRow × Bool) × Db) (p : Progress W) → (tally r p).world ≡ p.world
  unfolding tally
  tally-world (none, db) p = refl
  tally-world (some (_, true), db) p = refl
  tally-world (some (_, false), db) p = refl

  visit_dated-world :
      (raw mapped : Fields) (dated : Moment × Db) (p : Progress W) (all_older : Bool)
      → (visit_dated host feed params raw mapped dated (p, all_older)).0.world ≡ p.world
  unfolding visit_dated store
  visit_dated-world raw mapped (date, db) p all_older =
      let keeps = λ (s : Progress W × Bool). s.0.world ≡ p.world in
      either_branch keeps (range_raises host feed params date) refl (
        either_branch keeps (before_since params.since date.at || after_until params.until date.at)
          refl (tally-world (ingest_offer host mapped raw db) _))

  visit-world :
      (raw : Fields) (state : Progress W × Bool)
      → (visit host feed params raw state).0.world ≡ state.0.world
  unfolding visit visit_mapped store
  visit-world raw (p, all_older) = elim (Option-cases (feed.map_offer params.source_id raw)) [
    | inl raises ↦ rw (raises, visit) refl
    | inr (mapped, given) ↦
        rw (given, visit)
          (either_branch (λ (s : Progress W × Bool). s.0.world ≡ p.world)
            (is_some params.since || is_some params.until)
            (visit_dated-world raw mapped (effective_date host feed params mapped p.db) p all_older)
            (tally-world (ingest_offer host mapped raw p.db) p))
  ]

  visit_all-world :
      (offers : List Fields) (state : Progress W × Bool)
      → (visit_all host feed params offers state).0.world ≡ state.0.world
  unfolding visit_all
  visit_all-world [] state = refl
  visit_all-world (raw ∷ offers) state =
      either_branch (λ (s : Progress W × Bool). s.0.world ≡ state.0.world) state.0.raised refl
        (visit_all-world offers (visit host feed params raw state) ∙ visit-world raw state)

  -- A property of the world that every fetch keeps is kept by a run.
  module _ (P : W → Type 0)
      (kept : (cursor : C) (n : ℕ) (w : W) → P w → P (feed.fetch_page cursor n w).1) where
    after_fetch-world :
        (rest : C → Progress W → IngestionResult × Progress W) (page_index : ℕ)
        (page : Fetched (List Fields × Option C)) (p : Progress W)
        → ((cursor : C) (q : Progress W) → P q.world → P (rest cursor q).1.world)
        → P p.world
        → P (after_fetch host feed params rest page_index page p).1.world
    unfolding after_fetch page_failed visit_page
    after_fetch-world rest page_index nothing p continues h = elim (Bool-cases (page_index == 0)) [
      | inl e ↦ rw e h
      | inr e ↦ rw e h
    ]
    after_fetch-world rest page_index (blocked code) p continues h =
        elim (Bool-cases (page_index == 0)) [ inl e ↦ rw e h | inr e ↦ rw e h ]
    after_fetch-world rest page_index (got (offers, next)) p continues h =
        let visited = visit_page host feed params offers p in
        let h' : P visited.0.world = subst P (sym (visit_all-world offers _)) h in
        elim (Option-cases (next_page host feed params next visited)) [
          | inl ends ↦ rw (ends, after_fetch) h'
          | inr (cursor, goes_on) ↦ rw (goes_on, after_fetch) (continues cursor visited.0 h')
        ]

    run_pages-world :
        (left page_index : ℕ) (cursor : C) (p : Progress W)
        → P p.world
        → P (run_pages host feed params left page_index cursor p).1.world
    unfolding run_pages
    run_pages-world zero page_index cursor p h = h
    run_pages-world (suc left) page_index cursor p h =
        after_fetch-world (run_pages host feed params left (page_index + 1)) page_index
          (feed.fetch_page cursor params.page_size p.world).0 _
          (run_pages-world left (page_index + 1)) (kept cursor params.page_size p.world h)

    pub run_paginated_ingestion-world :
        (initial_cursor : C) (db : Db) (w : W)
        → P w
        → P (run_paginated_ingestion host feed params initial_cursor db w).1.world
    unfolding run_paginated_ingestion
    run_paginated_ingestion-world initial_cursor db w h =
        run_pages-world params.max_pages 0 initial_cursor _ h
