-- ===== src/Connectors/Pracuj/Run/Resume.antt =====
-- What one run takes of the listing, and where the next one goes on.
use mathlib.Core.Path.{subst}
use recru_flow.Base.{
  ap, ℕ, zero, suc, ◌*◌, ◌≤◌, ◌<◌, String, ◌≡◌, refl, ◌⊎◌, inl, inr, Bool, true, false, Option,
  none, some, List, [], ◌∷◌, ◌==◌, map, All, arith, if◌then◌else◌,
}
use recru_flow.Base.Int.{ℤ, pos, negsuc}
use recru_flow.Data.Json.{
  Value, obj, arr, str, float, bool, datetime, int, truthy, Fields, get, put, lookup-put,
}
use recru_flow.Db.{Db, Source}
use recru_flow.Connectors.Http.{Fetched}
use recru_flow.Ingestion.Types.{IngestionResult}
use recru_flow.Ingestion.Persist.{Host}
use recru_flow.Ingestion.Lifecycle.{update_source}
use recru_flow.Ingestion.Runner.{Moment, resolve_fetch_range}
use recru_flow.Ingestion.Runner.Quiet.{run_paginated_ingestion-raised}
use recru_flow.Connectors.Pracuj.Listing.{Crawl, Found, collect_offers}
use recru_flow.Connectors.Pracuj.Listing.Details.{Bounded}
use recru_flow.Connectors.Pracuj.Listing.Bounds.{listing_of, collect_offers-Bounded}
use recru_flow.Connectors.Pracuj.Enumeration.{
  Settings, at_least_one, start_page_of, enumerate_pracuj_offers, whole_listing,
}
use recru_flow.Connectors.Pracuj.Run.{
  after_ingestion, feed, params, ingest_found, after_enumeration, record_mid_run_failure,
  category_filter, run_terms, save_listing_cursor, record_blocked_details,
}

at_least_one_pos : (n : ℤ) → 1 ≤ at_least_one n
unfolding at_least_one
at_least_one_pos (pos zero) = omega arith
at_least_one_pos (pos (suc n)) = omega arith
at_least_one_pos (negsuc n) = omega arith

either_pos : (b : Bool) (n : ℤ) → 1 ≤ (if b then at_least_one n else 1)
either_pos true n = at_least_one_pos n
either_pos false n = omega arith

-- The start page is 1 or more, whatever is stored.
start_page_of_pos : (to_int : Value → ℤ) (v : Value) → 1 ≤ start_page_of to_int v
unfolding start_page_of
start_page_of_pos to_int (int n) = at_least_one_pos n
start_page_of_pos to_int (obj d) = either_pos (truthy (obj d)) (to_int (obj d))
start_page_of_pos to_int (arr vs) = either_pos (truthy (arr vs)) (to_int (arr vs))
start_page_of_pos to_int (str s) = either_pos (truthy (str s)) (to_int (str s))
start_page_of_pos to_int (float m k) = either_pos (truthy (float m k)) (to_int (float m k))
start_page_of_pos to_int (bool b) = either_pos (truthy (bool b)) (to_int (bool b))
start_page_of_pos to_int (datetime t) = either_pos (truthy (datetime t)) (to_int (datetime t))
start_page_of_pos to_int (Value.null) = either_pos (truthy (Value.null)) (to_int (Value.null))

-- The stored page reads back.
start_page_of-stored :
    (to_int : Value → ℤ) (page : ℕ) (config : Fields)
    → 1 ≤ page
    → start_page_of to_int
        (get "listing_page_cursor" (put "listing_page_cursor" (int (pos page)) config))
      ≡ page
unfolding start_page_of at_least_one get
start_page_of-stored to_int zero config h = absurd (omega (arith, h))
start_page_of-stored to_int (suc n) config h =
    rw (lookup-put "listing_page_cursor" "listing_page_cursor" (int (pos (suc n))) config, get)
      (ground arith)

-- The page where a run over everything starts, from the settings of a source.
abbrev pub starts_at : (Value → ℤ) → Source → ℕ
starts_at to_int source = start_page_of to_int (get "listing_page_cursor" source.config_json)

-- If the row is that of the source, its next run starts at the page.
abbrev pub GoesOnAt : (Value → ℤ) → ℕ → ℕ → Source → Type 0
GoesOnAt to_int source_id page row = ((row.id == source_id) ≡ false) ⊎ (starts_at to_int row ≡ page)

goes_on-GoesOnAt :
    (to_int : Value → ℤ) (source : Source) (page : ℕ) (rows : List Source)
    → 1 ≤ page
    → All (GoesOnAt to_int source.id page) (
        map
          (λ (s : Source).
            if s.id == source.id
            then record s {
              config_json = put "listing_page_cursor" (int (pos page)) source.config_json;
            }
            else s)
          rows)
goes_on-GoesOnAt to_int source page [] some_page = tt
goes_on-GoesOnAt to_int source page (row ∷ rows) some_page =
    (here (row.id == source.id) refl, goes_on-GoesOnAt to_int source page rows some_page)
  where
    here :
        (same : Bool)
        → (row.id == source.id) ≡ same
        → GoesOnAt to_int source.id page (
            if same
            then record row {
              config_json = put "listing_page_cursor" (int (pos page)) source.config_json;
            }
            else row)
    here true e = inr (start_page_of-stored to_int page source.config_json some_page)
    here false e = inl e

save_listing_cursor-GoesOnAt :
    (host : Host) (to_int : Value → ℤ) (source : Source) (page : ℕ) (db : Db)
    → 1 ≤ page
    → All (GoesOnAt to_int source.id page) (save_listing_cursor host source (some page) db).sources
unfolding save_listing_cursor update_source
save_listing_cursor-GoesOnAt host to_int source page db some_page =
    goes_on-GoesOnAt to_int source page db.sources some_page

-- Without a fetch range the runner raises nothing, for every offer is mapped.
ingest_found-raised :
    (host : Host) (source : Source) (settings : Settings) (force_refresh : Bool)
    (offers : List Fields) (db : Db)
    → resolve_fetch_range host (get "fetch_range" source.config_json) ≡ (none, none)
    → (ingest_found host source settings force_refresh offers db).1.raised ≡ false
unfolding ingest_found
ingest_found-raised host source settings force_refresh offers db open_range =
    run_paginated_ingestion-raised host (feed host source settings force_refresh offers)
      (params host source settings force_refresh)
      (ap (λ (r : Option Moment × Option Moment). r.0) open_range)
      (ap (λ (r : Option Moment × Option Moment). r.1) open_range) (λ raw. refl) 0 db tt

module _ {B : Type 0} (host : Host) (load : String → Option Value)
    (fetch_html : String → B → Fetched String × B) (listing_base : String → String)
    (to_int : Value → ℤ) (source : Source) (settings : Settings) (force_refresh : Bool) where
  -- Where a run over everything has no fetch range, has room for some offer, and reads the listing from
  -- the page where it starts, it returns; and afterwards the next run of the source starts at the page that the
  -- enumeration named as the next one, which lies beyond the page where this run started, or is the
  -- first page again.
  pub run_terms-resumes :
      (db : Db) (browser : B) (found : Found) (crawl : Crawl B)
      → resolve_fetch_range host (get "fetch_range" source.config_json) ≡ (none, none)
      → 0 < settings.page_size * settings.max_pages
      → collect_offers host load fetch_html
          (listing_base (category_filter host source.config_json))
          (starts_at to_int source)
          settings.page_size
          settings.max_pages
          (record { browser = browser; blocked_urls = [] })
        ≡ some (found, crawl)
      → found.enumeration_ok ≡ true
      → (result : IngestionResult) × (after : Db) × (run_terms host load fetch_html listing_base
            to_int source settings force_refresh [] db browser
          ≡ some (result, after))
        × All (GoesOnAt to_int source.id found.next_start_page) after.sources
        × ((starts_at to_int source < found.next_start_page) ⊎ (found.next_start_page ≡ 1))
  unfolding run_terms enumerate_pracuj_offers after_enumeration whole_listing
  run_terms-resumes db browser found crawl open_range room collected ok =
      let start = starts_at to_int source in
      let listing =
        listing_of host load fetch_html (listing_base (category_filter host source.config_json))
          start settings.page_size settings.max_pages in
      let good : Bounded listing start (settings.page_size * settings.max_pages) settings.max_pages
          [] (some (found, crawl)) =
        subst
          (Bounded listing start (settings.page_size * settings.max_pages) settings.max_pages [])
          collected
          (collect_offers-Bounded host load fetch_html _ start settings.page_size settings.max_pages
            (start_page_of_pos to_int (get "listing_page_cursor" source.config_json)) room [] _
            refl) in
      let (result, p) = ingest_found host source settings force_refresh found.offers (
        record_mid_run_failure host source found.mid_run_failure found.listing_blocked_status db) in
      let quiet =
        ingest_found-raised host source settings force_refresh found.offers
          (record_mid_run_failure host source found.mid_run_failure found.listing_blocked_status db)
          open_range in
      let recorded = record_blocked_details host source crawl.blocked_urls p.db in
      (
        result,
        save_listing_cursor host source (some found.next_start_page) recorded,
        rw
            (
              collected, run_terms, enumerate_pracuj_offers, ok, after_enumeration, quiet,
              after_ingestion,
            )
            refl,
        save_listing_cursor-GoesOnAt host to_int source found.next_start_page recorded
            good.next_pos,
        good.onwards ok,
      )
