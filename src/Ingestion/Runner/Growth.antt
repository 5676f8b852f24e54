-- ===== src/Ingestion/Runner/Growth.antt =====
-- What a run adds to the table of offers: as many rows as it reports, at the end, all of them dated
-- within the fetch range, none of them known before. A run that failed adds nothing.
use mathlib.Core.Path.{subst}
use recru_flow.Base.{
  either_branch, ℕ, zero, suc, ◌+◌, ◌≡◌, refl, sym, ap, ◌∙◌, inl, inr, Bool, true, false, ◌||◌,
  Option, none, some, List, [], ◌∷◌, ◌++◌, append-nil, append_assoc, arith, ◌==◌, ==_iff,
  Bool-cases, Option-cases, is_some, length, All, length-append, All-append,
}
use recru_flow.Data.Json.{Fields, get}
use recru_flow.Db.{Db, OfferRow, utcnow}
use recru_flow.Connectors.Http.{Fetched, got, nothing, blocked}
use recru_flow.Dlq.Service.{record_failure}
use recru_flow.Ingestion.Types.{IngestionResult}
use recru_flow.Ingestion.Persist.{Host}
use recru_flow.Ingestion.Persist.Insert.{
  AllNew, known, added, added-AllNew, Ingested, invalid, persisted, ingest_offer-Ingested,
}
use recru_flow.Ingestion.Runner.{
  Feed, Params, Progress, before_since, after_until, finished, tally, store, effective_date,
  visit_dated, Moment, parse_moment, range_raises, visit_mapped, visit, visit_all, page_failed,
  visit_page, next_page, after_fetch, run_pages, run_paginated_ingestion,
}

module _ {C W : Type 0} (host : Host) (feed : Feed C W) (params : Params) where
  -- A raw offer whose date can be read, once it is mapped, is dated within the bounds of the run.
  abbrev pub InRange : Fields → Type 0
  InRange raw =
      (mapped : Fields) (date : ℕ)
      → feed.map_offer params.source_id raw ≡ some mapped
      → host.parse_datetime (get "posted_at" mapped) ≡ some date
      → (before_since params.since date ≡ false) × (after_until params.until date ≡ false)

  -- The rows that were added to `rows`.
  pub record IsGrown (rows : List OfferRow) (p : Progress W) : Type 0 where
    pub new : List OfferRow
    pub grown : p.db.offers ≡ rows ++ new
    pub counted : length new ≡ p.total_created
    pub within : All (λ (row : OfferRow). InRange row.raw_payload) new
    pub fresh : AllNew [] p.db.offers

  IsGrown-db :
      {rows : List OfferRow} {p : Progress W} (q : Progress W)
      → q.db.offers ≡ p.db.offers
      → q.total_created ≡ p.total_created
      → IsGrown rows p
      → IsGrown rows q
  IsGrown-db q same count g = record {
    new = g.new;
    grown = same ∙ g.grown;
    counted = g.counted ∙ sym count;
    within = g.within;
    fresh = rw same g.fresh;
  }

  tally-IsGrown :
      (raw mapped : Fields) {rows : List OfferRow} (p : Progress W)
      {r : Option (OfferRow × Bool) × Db}
      → Ingested host mapped raw p.db r
      → InRange raw
      → IsGrown rows p
      → IsGrown rows (tally r p)
  unfolding tally
  tally-IsGrown raw mapped p (invalid _ same) h g = IsGrown-db _ same refl g
  tally-IsGrown raw mapped p (persisted _ (known _ same _)) h g = IsGrown-db _ same refl g
  tally-IsGrown raw mapped {rows} p (persisted {offer} _ (added {row} k e stored hash more f)) h g =
      record {
        new = g.new ++ (row ∷ []);
        grown = more ∙ ap (λ l. l ++ (row ∷ [])) g.grown ∙ append_assoc rows g.new (row ∷ []);
        counted = omega (arith, length-append g.new (row ∷ []), g.counted);
        within = All-append _ g.new (row ∷ []) g.within (rw stored h, tt);
        fresh = rw more (added-AllNew host offer p.db.offers row k e hash g.fresh);
      }

  store-IsGrown :
      (raw mapped : Fields) {rows : List OfferRow} (p : Progress W)
      → InRange raw
      → IsGrown rows p
      → IsGrown rows (store host feed params raw mapped p)
  unfolding store
  store-IsGrown raw mapped p h g =
      tally-IsGrown raw _ p (ingest_offer-Ingested host mapped raw p.db) h g

  -- Either the offer has its own date, or the clock was read and no row changed.
  effective_date-own :
      (mapped : Fields) (db : Db) {date : ℕ}
      → host.parse_datetime (get "posted_at" mapped) ≡ some date
      → (effective_date host feed params mapped db).0.at ≡ date
  unfolding effective_date parse_moment
  effective_date-own mapped db e = rw (e, effective_date, parse_moment) refl

  effective_date-offers :
      (mapped : Fields) (db : Db) → (effective_date host feed params mapped db).1.offers ≡ db.offers
  unfolding effective_date utcnow parse_moment
  effective_date-offers mapped db =
      elim (Option-cases (host.parse_datetime (get "posted_at" mapped))) [
        | inl undated ↦ rw (undated, effective_date, parse_moment) refl
        | inr (date, dated) ↦ rw (dated, effective_date, parse_moment) refl
      ]

  visit_dated-IsGrown :
      (raw mapped : Fields) {rows : List OfferRow} (dated : Moment × Db) (p : Progress W)
      (all_older : Bool)
      → dated.1.offers ≡ p.db.offers
      → feed.map_offer params.source_id raw ≡ some mapped
      → ((date : ℕ) → host.parse_datetime (get "posted_at" mapped) ≡ some date → dated.0.at ≡ date)
      → IsGrown rows p
      → IsGrown rows (visit_dated host feed params raw mapped dated (p, all_older)).0
  unfolding visit_dated
  visit_dated-IsGrown raw mapped (date, db) p all_older same given own g =
      elim (Bool-cases (range_raises host feed params date)) [
        | inl raises ↦ rw raises (IsGrown-db _ same refl g)
        | inr compares ↦
            rw compares
              (elim (Bool-cases
                (before_since params.since date.at || after_until params.until date.at)) [
                  | inl outside ↦ rw outside (IsGrown-db _ same refl g)
                  | inr inside ↦
                      rw inside
                        (store-IsGrown raw mapped _ (in_range inside) (IsGrown-db _ same refl g))
                ])
      ]
    where
      in_range :
          (before_since params.since date.at || after_until params.until date.at) ≡ false
          → InRange raw
      in_range inside other d other_given e =
          let same_mapped : some other ≡ some mapped = sym other_given ∙ given in
          let is_mapped : other ≡ mapped = cc in
          let at : date.at ≡ d =
            own d (subst (λ m. host.parse_datetime (get "posted_at" m) ≡ some d) is_mapped e) in
          rw (sym at) (ground arith)

  visit_mapped-IsGrown :
      (raw mapped : Fields) {rows : List OfferRow} (p : Progress W) (all_older : Bool)
      → feed.map_offer params.source_id raw ≡ some mapped
      → IsGrown rows p
      → IsGrown rows (visit_mapped host feed params raw mapped (p, all_older)).0
  unfolding visit_mapped
  visit_mapped-IsGrown raw mapped p all_older given g =
      elim (Bool-cases (is_some params.since || is_some params.until)) [
        | inl ranged ↦ rw ranged (
            visit_dated-IsGrown raw mapped (effective_date host feed params mapped p.db) p all_older
              (effective_date-offers mapped p.db) given (λ d e. effective_date-own mapped p.db e) g)
        | inr open_range ↦
            rw open_range (store-IsGrown raw mapped p (λ other d given' e. ground arith) g)
      ]

  visit-IsGrown :
      (raw : Fields) {rows : List OfferRow} (p : Progress W) (all_older : Bool)
      → IsGrown rows p
      → IsGrown rows (visit host feed params raw (p, all_older)).0
  unfolding visit
  visit-IsGrown raw p all_older g = elim (Option-cases (feed.map_offer params.source_id raw)) [
    | inl raises ↦ rw (raises, visit) (IsGrown-db _ refl refl g)
    | inr (mapped, given) ↦ rw (given, visit) (visit_mapped-IsGrown raw mapped p all_older given g)
  ]

  visit_all-IsGrown :
      (offers : List Fields) {rows : List OfferRow} (state : Progress W × Bool)
      → IsGrown rows state.0
      → IsGrown rows (visit_all host feed params offers state).0
  unfolding visit_all
  visit_all-IsGrown [] state g = g
  visit_all-IsGrown (raw ∷ offers) {rows} state g =
      let later =
        visit_all-IsGrown offers (visit host feed params raw state)
          (visit-IsGrown raw state.0 state.1 g) in
      either_branch (λ (s : Progress W × Bool). IsGrown rows s.0) state.0.raised g later

  visit_page-IsGrown :
      (offers : List Fields) {rows : List OfferRow} (p : Progress W)
      → IsGrown rows p
      → IsGrown rows (visit_page host feed params offers p).0
  unfolding visit_page
  visit_page-IsGrown offers p g = visit_all-IsGrown offers _ (IsGrown-db _ refl refl g)

  -- The result of a run against the table that it leaves.
  pub record IsRun (rows : List OfferRow) (outcome : IngestionResult × Progress W) : Type 0 where
    pub growth : IsGrown rows outcome.1
    pub reported : outcome.0.ok ≡ true → outcome.0.created ≡ length growth.new
    pub failed :
        outcome.0.ok ≡ false → (outcome.0.created ≡ 0) × (outcome.0.fetched ≡ 0) × (growth.new ≡ [])

  finished-IsRun :
      {rows : List OfferRow} (p : Progress W) → IsGrown rows p → IsRun rows (finished p, p)
  unfolding finished
  finished-IsRun p g = record { growth = g; reported = λ _. sym g.counted; failed = λ e. cc }

  page_failed-IsRun :
      {rows : List OfferRow} (page_index : ℕ) (status : Option ℕ) (p : Progress W)
      → (page_index ≡ 0 → p.total_created ≡ 0)
      → IsGrown rows p
      → IsRun rows (page_failed host feed params page_index status p)
  unfolding page_failed finished record_failure IsGrown-db
  page_failed-IsRun page_index status p start g = elim (Bool-cases (page_index == 0)) [
    | inl first ↦ rw first (record {
      growth = g;
      reported = λ e. cc;
      failed =
          λ e. (refl, refl, nil_of_zero g.new (g.counted ∙ start ((==_iff page_index 0).0 first)));
    })
    | inr later ↦ rw later (record {
      growth = IsGrown-db _ refl refl g;
      reported = λ _. sym g.counted;
      failed = λ e. cc;
    })
  ]
    where
      nil_of_zero : (l : List OfferRow) → length l ≡ 0 → l ≡ []
      nil_of_zero [] e = refl
      nil_of_zero (x ∷ l) e = absurd (omega (arith, e))

  after_fetch-IsRun :
      {rows : List OfferRow} (rest : C → Progress W → IngestionResult × Progress W) (page_index : ℕ)
      (page : Fetched (List Fields × Option C)) (p : Progress W)
      → ((cursor : C) (q : Progress W) → IsGrown rows q → IsRun rows (rest cursor q))
      → (page_index ≡ 0 → p.total_created ≡ 0)
      → IsGrown rows p
      → IsRun rows (after_fetch host feed params rest page_index page p)
  unfolding after_fetch
  after_fetch-IsRun rest page_index nothing p continues start g =
      page_failed-IsRun page_index none p start g
  after_fetch-IsRun rest page_index (blocked code) p continues start g =
      page_failed-IsRun page_index (some code) p start g
  after_fetch-IsRun rest page_index (got (offers, next)) p continues start g =
      let visited = visit_page host feed params offers p in
      let grown = visit_page-IsGrown offers p g in
      elim (Option-cases (next_page host feed params next visited)) [
        | inl ends ↦ rw (ends, after_fetch) (finished-IsRun visited.0 grown)
        | inr (cursor, goes_on) ↦ rw (goes_on, after_fetch) (continues cursor visited.0 grown)
      ]

  run_pages-IsRun :
      {rows : List OfferRow} (left page_index : ℕ) (cursor : C) (p : Progress W)
      → (page_index ≡ 0 → p.total_created ≡ 0)
      → IsGrown rows p
      → IsRun rows (run_pages host feed params left page_index cursor p)
  unfolding run_pages
  run_pages-IsRun zero page_index cursor p start g = finished-IsRun p g
  run_pages-IsRun (suc left) page_index cursor p start g =
      after_fetch-IsRun (run_pages host feed params left (page_index + 1)) page_index
        (feed.fetch_page cursor params.page_size p.world).0 _
        (λ c q h. run_pages-IsRun left (page_index + 1) c q (λ e. absurd (omega (arith, e))) h)
        start (IsGrown-db _ refl refl g)

  -- From a table without repeated hashes or contents, a run only appends rows to it: as many as
  -- it reports as created if it reports success, none if it reports a failure, none of them with
  -- a date of its own outside the fetch range, and none that repeats a hash or a content.
  pub run_paginated_ingestion-IsRun :
      (initial_cursor : C) (db : Db) (world : W)
      → AllNew [] db.offers
      → IsRun db.offers (run_paginated_ingestion host feed params initial_cursor db world)
  unfolding run_paginated_ingestion
  run_paginated_ingestion-IsRun initial_cursor db world u =
      run_pages-IsRun params.max_pages 0 initial_cursor _ (λ _. refl)
        (record {
          new = [];
          grown = sym (append-nil db.offers);
          counted = refl;
          within = tt;
          fresh = u;
        })
