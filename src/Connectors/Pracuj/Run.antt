-- ===== src/Connectors/Pracuj/Run.antt =====
-- `PracujConnector.run` and `PracujConnector.retry_detail_fetch`.
pub mod Resume
use recru_flow.Base.{
  ℕ, zero, suc, ◌+◌, ◌-◌, ◌*◌, ◌/◌, ◌%◌, ◌≤◌, ◌<◌, min, max, String, ◌<>◌, ◌≡◌, refl, sym, ap, ◌∙◌,
  ◌≢◌, ◌↔◌, ◌⊎◌, inl, inr, Bool, true, false, not, ◌&&◌, ◌||◌, Option, none, some, List, [], ◌∷◌,
  ◌++◌, map, foldl, append-nil, append_assoc, arith, str_eq, eq_iff, eq_refl, ltb, leb, ◌==◌,
  if◌then◌else◌, ltb→lt, lt→ltb, leb→le, le→leb, ==_iff, tests, Bool-cases, Option-cases, is_none,
  is_some, get_or, or_else, length, get_elem?, take, drop, filter, any, all, find, All,
  length-append, length-take, length-drop, take-append-drop, length-filter-le, any-append,
  filter-append, All-append, All-map, All-filter, length-filter-not, length-map,
}
use recru_flow.Base.Int.{ℤ, pos}
use recru_flow.Data.Text.{show}
use recru_flow.Data.Json.{Value, int, str, Fields, get, put, truthy}
use recru_flow.Schemas.{Offer, Profile}
use recru_flow.Db.{Db, Source}
use recru_flow.Connectors.Http.{Fetched, got, nothing, blocked}
use recru_flow.Dlq.Service.{
  FailureFields, detail_fetch_blocked, page_fetch_failed, record_failure, source_key,
  build_detail_url_dedup_key,
}
use recru_flow.Ingestion.Types.{IngestionResult}
use recru_flow.Ingestion.FetchScope.{FetchScopeResolution, resolve_fetch_scope_terms}
use recru_flow.Ingestion.Persist.{Host, str_of, normalize_and_validate, persist_offer}
use recru_flow.Ingestion.Runner.{
  Feed, Params, Progress, resolve_fetch_range, run_paginated_ingestion,
}
use recru_flow.Ingestion.Lifecycle.{update_source}
use recru_flow.Connectors.Pracuj.Listing.{Crawl, offer_record}
use recru_flow.Connectors.Pracuj.Enumeration.{
  Settings, Enumerated, start_page_of, enumerate_pracuj_offers,
}
use recru_flow.Connectors.Pracuj.Mapping.{map_offer}

abbrev pub name : String
name = "Pracuj.pl"

-- `offers[cursor : cursor + page_size]` and the cursor behind it.
unfoldable pub prefetched :
    List Fields → ℕ → ℕ → Unit {0} → Fetched (List Fields × Option ℕ) × Unit {0}
unfolding take drop
prefetched offers cursor page_size world = (
  got (
    take page_size (drop cursor offers),
    if ltb (cursor + page_size) (length offers) then some (cursor + page_size) else none,
  ),
  world,
)

-- The row of a listing page that failed in the middle of a run.
abbrev page_failure : Source → Option ℕ → FailureFields
page_failure source status = record {
  source_id = source.id;
  error_message = "failed to fetch " <> (name <> " page mid-run");
  raw_payload = none;
  scheduler_run_id = none;
  page = none;
  url = none;
  blocked_status = some status;
}

abbrev blocked_detail : Source → String → ℕ → FailureFields
blocked_detail source url status = record {
  source_id = source.id;
  error_message = name <> (" detail fetch blocked: HTTP " <> show status);
  raw_payload = none;
  scheduler_run_id = none;
  page = none;
  url = some url;
  blocked_status = some (some status);
}

abbrev failed : Option String → Option ℕ → IngestionResult
failed message status = record {
  ok = false;
  fetched = 0;
  created = 0;
  error_message = message;
  blocked_status = status;
}

module _ (host : Host) (source : Source) where
  unfoldable pub record_mid_run_failure : Bool → Option ℕ → Db → Db
  unfolding record_failure source_key
  record_mid_run_failure mid_run status db =
      if mid_run
      then record_failure host.clock (source_key source.id) page_fetch_failed
          (page_failure source status) db
      else db

  unfoldable pub record_blocked_details : List (String × ℕ) → Db → Db
  unfolding record_failure
  record_blocked_details [] db = db
  record_blocked_details ((url, status) ∷ rest) db = record_blocked_details rest (
      record_failure host.clock (build_detail_url_dedup_key host.sha256 source.id url)
        detail_fetch_blocked (blocked_detail source url status) db)

  -- `source.config_json = {**config, "listing_page_cursor": next_start_page}`, of a run over everything.
  unfoldable pub save_listing_cursor : Option ℕ → Db → Db
  unfolding update_source put
  save_listing_cursor none db = db
  save_listing_cursor (some page) db =
      update_source source.id
        (λ s. record s {
          config_json = put "listing_page_cursor" (int (pos page)) source.config_json;
        })
        db

  module _ (settings : Settings) (force_refresh : Bool) where
    abbrev pub params : Params
    params = record {
      source_id = source.id;
      source_name = name;
      page_size = settings.page_size;
      max_pages = settings.max_pages;
      already_seen_stop_threshold = settings.already_seen_stop_threshold;
      force_refresh = force_refresh;
      since = (resolve_fetch_range host (get "fetch_range" source.config_json)).0;
      until = (resolve_fetch_range host (get "fetch_range" source.config_json)).1;
      sorted_by_recency = false;
    }

    abbrev pub feed : List Fields → Feed ℕ (Unit {0})
    feed offers = record {
      fetch_page = prefetched offers;
      map_offer = λ source_id raw. some (map_offer host source_id raw);
    }

    -- The run of the runner over the offers that were found.
    unfoldable pub ingest_found : List Fields → Db → IngestionResult × Progress (Unit {0})
    unfolding run_paginated_ingestion prefetched
    ingest_found offers db = run_paginated_ingestion host (feed offers) params 0 db tt

    -- The part of `run` below the runner, which an exception of the runner skips.
    unfoldable pub after_ingestion :
        Enumerated
        → List (String × ℕ)
        → IngestionResult × Progress (Unit {0})
        → Option (IngestionResult × Db)
    unfolding record_blocked_details save_listing_cursor
    after_ingestion e blocked_urls (result, p) =
        if p.raised
        then none
        else some (
          result,
          save_listing_cursor e.next_start_page (record_blocked_details blocked_urls p.db),
        )

    -- The part of `run` below the enumeration; none is an exception.
    unfoldable pub after_enumeration :
        Enumerated → List (String × ℕ) → Db → Option (IngestionResult × Db)
    unfolding ingest_found record_mid_run_failure after_ingestion
    after_enumeration e blocked_urls db =
        if e.enumeration_ok
        then after_ingestion e blocked_urls (
            ingest_found e.offers
              (record_mid_run_failure e.mid_run_failure e.listing_blocked_status db))
        else some
            (failed (some ("failed to fetch " <> (name <> " offers"))) e.listing_blocked_status, db)

-- `str(config.get("category_filter") or "it")`
unfoldable pub category_filter : Host → Fields → String
unfolding truthy str_of get
category_filter host config =
    if truthy (get "category_filter" config)
    then str_of host (get "category_filter" config)
    else "it"

module _ {B : Type 0} (host : Host) (load : String → Option Value)
    (fetch_html : String → B → Fetched String × B) (listing_base : String → String)
    (to_int : Value → ℤ) (source : Source) (settings : Settings) (force_refresh : Bool) where
  -- The part of `run` for terms that are known; `none` is an exception.
  unfoldable pub run_terms : List String → Db → B → Option (IngestionResult × Db)
  unfolding enumerate_pracuj_offers start_page_of after_enumeration category_filter get
  run_terms terms db browser =
      elim (enumerate_pracuj_offers host load fetch_html listing_base settings terms
        (category_filter host source.config_json)
        (start_page_of to_int (get "listing_page_cursor" source.config_json))
        (record { browser = browser; blocked_urls = [] })) [
          | none ↦ none
          | some (e, crawl) ↦
              after_enumeration host source settings force_refresh e crawl.blocked_urls db
        ]

  -- `PracujConnector.run`
  unfoldable pub run : (Fields → Option Profile) → Db → B → Option (IngestionResult × Db)
  unfolding resolve_fetch_scope_terms run_terms
  run read_profile db browser =
      elim (resolve_fetch_scope_terms read_profile source.config_json db) [
        | none ↦ none
        | some scope ↦ elim scope.blocked_reason [
          | some reason ↦ some (failed (some reason) none, db)
          | none ↦ run_terms scope.terms db browser
        ]
      ]

  unfoldable pub retry_record : Option Fields → Db → Bool × Db
  unfolding normalize_and_validate persist_offer map_offer
  retry_record none db = (false, db)
  retry_record (some raw) db =
      let (offer, db') = normalize_and_validate host (map_offer host source.id raw) db in
      elim offer [ none ↦ (false, db') | some o ↦ (true, (persist_offer host o raw db').1) ]

  unfoldable pub retry_page : Fetched String → Db → Fetched Bool × Db
  unfolding retry_record
  retry_page (blocked status) db = (blocked status, db)
  retry_page nothing db = (got false, db)
  retry_page (got html) db =
      let (done, db') = retry_record (offer_record host load fetch_html html) db in (got done, db')

  -- `retry_detail_fetch`: a block is raised.
  unfoldable pub retry_detail_fetch : String → Db × B → Fetched Bool × (Db × B)
  unfolding retry_page
  retry_detail_fetch url (db, browser) =
      let (html, browser') = fetch_html url browser in
      let (done, db') = retry_page html db in (done, (db', browser'))
