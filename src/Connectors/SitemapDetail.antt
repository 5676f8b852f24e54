-- ===== src/Connectors/SitemapDetail.antt =====
-- app/connectors/sitemap_detail.py and the cursors of app/connectors/sitemap.py: a connector that walks
-- a list of pages, one request for each, and goes on next time where it stopped.
-- Its pauses between requests are left out.
pub mod Noted
pub mod Resume
pub mod Run
use recru_flow.Base.{
  ℕ, zero, suc, ◌+◌, ◌-◌, ◌*◌, ◌/◌, ◌%◌, ◌≤◌, ◌<◌, min, max, String, ◌<>◌, ◌≡◌, refl, sym, ap, ◌∙◌,
  ◌≢◌, ◌↔◌, ◌⊎◌, inl, inr, Bool, true, false, not, ◌&&◌, ◌||◌, Option, none, some, List, [], ◌∷◌,
  ◌++◌, map, foldl, append-nil, append_assoc, arith, str_eq, eq_iff, eq_refl, ltb, leb, ◌==◌,
  if◌then◌else◌, ltb→lt, lt→ltb, leb→le, le→leb, ==_iff, tests, Bool-cases, Option-cases, is_none,
  is_some, get_or, or_else, length, get_elem?, take, drop, filter, any, all, find, All,
  length-append, length-take, length-drop, take-append-drop, length-filter-le, any-append,
  filter-append, All-append, All-map, All-filter, length-filter-not, length-map,
}
use recru_flow.Base.Int.{ℤ, pos, negsuc}
use recru_flow.Data.Text.{show}
use recru_flow.Data.Json.{Value, int, Fields, get, put, truthy}
use recru_flow.Schemas.{Offer}
use recru_flow.Db.{Db, Source}
use recru_flow.Connectors.ProxyPool.{Outside}
use recru_flow.Connectors.Http.{Outcome, Fetched, got, nothing, blocked, Net}
use recru_flow.Connectors.Http as Http
use recru_flow.Dlq.Service.{
  FailureFields, detail_fetch_blocked, record_failure, build_detail_url_dedup_key,
}
use recru_flow.Ingestion.Types.{IngestionResult}
use recru_flow.Ingestion.Persist.{Host, normalize_and_validate, persist_offer}
use recru_flow.Ingestion.Runner.{Moment, Feed, Params, Progress, run_paginated_ingestion}
use recru_flow.Ingestion.Lifecycle.{update_source}

-- `int(config.get("sitemap_cursor", 0) or 0)`; `to_int` is Python's `int` of a value that is none.
unfoldable pub sitemap_cursor : (Value → ℤ) → Value → ℤ
unfolding truthy
sitemap_cursor to_int (int n) = n
sitemap_cursor to_int v = if truthy v then to_int v else pos 0

-- `cursor if 0 <= cursor < url_count else 0`
unfoldable pub within_urls : ℤ → ℕ → ℕ
within_urls (pos n) url_count = if ltb n url_count then n else 0
within_urls (negsuc n) url_count = 0

unfoldable pub resolve_sitemap_cursor : (Value → ℤ) → Fields → ℕ → ℕ
unfolding sitemap_cursor within_urls get
resolve_sitemap_cursor to_int config url_count =
    within_urls (sitemap_cursor to_int (get "sitemap_cursor" config)) url_count

unfoldable pub next_sitemap_cursor : Option ℕ → ℕ
next_sitemap_cursor final_cursor = get_or final_cursor 0

-- The cursor behind a page.
unfoldable pub cursor_after : List String → ℕ → ℕ → Option ℕ
cursor_after urls cursor page_size =
    if ltb (cursor + page_size) (length urls) then some (cursor + page_size) else none

-- What a connector says of its own pages: its name, the data in a page, and their mapping, which gives
-- none where it raises.
pub record Site : Type 0 where
  pub name : String
  pub extract_detail_json : String → String → Option Fields
  pub map_offer : ℕ → Fields → Option Fields

-- `page_size`, `max_pages` and `already_seen_stop_threshold`, as `int` reads them from the settings.
pub record Settings : Type 0 where
  pub page_size : ℕ
  pub max_pages : ℕ
  pub already_seen_stop_threshold : ℕ

-- The requests with the variables that `fetch_page` shares with `_run_over_urls`.
pub record Walk : Type 0 where
  pub net : Net String
  pub last_cursor : Option ℕ
  pub blocked_urls : List (String × ℕ)

module _ (host : Host) (outside : Outside)
    (send : List (String × Outcome String) → String → String → Outcome String) (site : Site) where
  -- `_fetch_detail_html`: the loop of `_get`, with the text of the response.
  unfoldable pub fetch_detail_html : String → Net String → Fetched String × Net String
  unfolding Http.get
  fetch_detail_html url net = Http.get outside send url net

  -- One URL of a page, once it was fetched: the offer in it, or the block that is noted.
  unfoldable pub take_detail : String → Fetched String × Net String → Walk → List Fields × Walk
  take_detail url (blocked code, net) walk =
      ([], record walk { net = net; blocked_urls = walk.blocked_urls ++ ((url, code) ∷ []) })
  take_detail url (nothing, net) walk = ([], record walk { net = net })
  take_detail url (got html, net) walk = elim (site.extract_detail_json html url) [
    | none ↦ ([], record walk { net = net })
    | some parsed ↦ (parsed ∷ [], record walk { net = net })
  ]

  unfoldable pub collect : List String → Walk → List Fields × Walk
  unfolding fetch_detail_html take_detail
  collect [] walk = ([], walk)
  collect (url ∷ urls) walk =
      let (found, walk') = take_detail url (fetch_detail_html url walk.net) walk in
      let (offers, walk'') = collect urls walk' in (found ++ offers, walk'')

  -- `fetch_page`, below the slice of the URLs.
  unfoldable pub fetch_chunk :
      List String → Option ℕ → Walk → Fetched (List Fields × Option ℕ) × Walk
  unfolding collect
  fetch_chunk [] next walk = (got ([], none), record walk { last_cursor = none })
  fetch_chunk (url ∷ urls) next walk =
      let (offers, walk') = collect (url ∷ urls) walk in
      (got (offers, next), record walk' { last_cursor = next })

  unfoldable pub fetch_page : List String → ℕ → ℕ → Walk → Fetched (List Fields × Option ℕ) × Walk
  unfolding fetch_chunk cursor_after take drop
  fetch_page urls cursor page_size walk =
      fetch_chunk (take page_size (drop cursor urls)) (cursor_after urls cursor page_size) walk

  abbrev pub feed : List String → Feed ℕ Walk
  feed urls = record { fetch_page = fetch_page urls; map_offer = site.map_offer }

  -- The failure of a URL that was blocked.
  abbrev pub blocked_fields : Source → String → ℕ → FailureFields
  blocked_fields source url code = record {
    source_id = source.id;
    error_message = site.name <> (" detail fetch blocked: HTTP " <> show code);
    raw_payload = none;
    scheduler_run_id = none;
    page = none;
    url = some url;
    blocked_status = some (some code);
  }

  abbrev pub detail_key : Source → String → String
  detail_key source url = build_detail_url_dedup_key host.sha256 source.id url

  unfoldable pub record_blocked : Source → List (String × ℕ) → Db → Db
  unfolding record_failure
  record_blocked source [] db = db
  record_blocked source ((url, code) ∷ rest) db = record_blocked source rest (
      record_failure host.clock (detail_key source url) detail_fetch_blocked
        (blocked_fields source url code) db)

  abbrev pub params : Source → Settings → Bool → Option Moment → Option Moment → Params
  params source settings force_refresh since until = record {
    source_id = source.id;
    source_name = site.name;
    page_size = settings.page_size;
    max_pages = settings.max_pages;
    already_seen_stop_threshold = settings.already_seen_stop_threshold;
    force_refresh = force_refresh;
    since = since;
    until = until;
    sorted_by_recency = false;
  }

  -- `source.config_json = {**config, "sitemap_cursor": ...}`
  unfoldable pub save_cursor : Source → Option ℕ → Db → Db
  unfolding update_source put next_sitemap_cursor
  save_cursor source last_cursor = update_source source.id (λ s. record s {
    config_json =
        put "sitemap_cursor" (int (pos (next_sitemap_cursor last_cursor))) source.config_json;
  })

  module _ (to_int : Value → ℤ) (source : Source) (settings : Settings) where
    -- The run of `_run_over_urls`, up to its loop over the blocked URLs.
    unfoldable pub walk_urls :
        List String
        → Bool
        → Option Moment × Option Moment
        → Db
        → Net String
        → IngestionResult × Progress Walk
    unfolding run_paginated_ingestion resolve_sitemap_cursor fetch_page
    walk_urls urls force_refresh (since, until) db net =
        let initial_cursor = resolve_sitemap_cursor to_int source.config_json (length urls) in
        run_paginated_ingestion host (feed urls) (params source settings force_refresh since until)
          initial_cursor db
          (record { net = net; last_cursor = some initial_cursor; blocked_urls = [] })

    -- `_run_over_urls` below the runner: an exception of the runner leaves the blocked URLs unrecorded
    -- and the cursor unsaved.
    unfoldable pub after_walk :
        Bool → IngestionResult × Progress Walk → Option IngestionResult × (Db × Net String)
    unfolding record_blocked save_cursor
    after_walk persist_cursor (result, p) =
        let recorded = record_blocked source p.world.blocked_urls p.db in
        if p.raised then (none, (p.db, p.world.net)) else (
          some result,
          (
            if persist_cursor then save_cursor source p.world.last_cursor recorded else recorded,
            p.world.net,
          ),
        )

    -- `_run_over_urls`; none is an exception.
    unfoldable pub run_over_urls :
        List String
        → Bool
        → Option Moment × Option Moment
        → Bool
        → Db
        → Net String
        → Option IngestionResult × (Db × Net String)
    unfolding walk_urls after_walk
    run_over_urls urls force_refresh range persist_cursor db net =
        after_walk persist_cursor (walk_urls urls force_refresh range db net)

  -- `retry_detail_fetch`, once the offer was looked for in the page.
  unfoldable pub retry_mapped : Fields → Option Fields → Db → Option Bool × Db
  unfolding normalize_and_validate persist_offer
  retry_mapped parsed none db = (none, db)
  retry_mapped parsed (some mapped) db =
      let (offer, db') = normalize_and_validate host mapped db in
      elim offer [
        | none ↦ (some false, db')
        | some o ↦ (some true, (persist_offer host o parsed db').1)
      ]

  unfoldable pub retry_parsed : Source → Option Fields → Db → Option Bool × Db
  unfolding retry_mapped
  retry_parsed source none db = (some false, db)
  retry_parsed source (some parsed) db = retry_mapped parsed (site.map_offer source.id parsed) db

  -- A block is raised, and so is what the mapping raises, which is none.
  unfoldable pub retry_fetched : Source → String → Fetched String → Db → Option (Fetched Bool) × Db
  unfolding retry_parsed
  retry_fetched source url (blocked code) db = (some (blocked code), db)
  retry_fetched source url nothing db = (some (got false), db)
  retry_fetched source url (got html) db =
      let (done, db') = retry_parsed source (site.extract_detail_json html url) db in
      (elim done [ none ↦ none | some b ↦ some (got b) ], db')

  -- `retry_detail_fetch`
  unfoldable pub retry_detail_fetch :
      Source → String → Db × Net String → Option (Fetched Bool) × (Db × Net String)
  unfolding fetch_detail_html retry_fetched
  retry_detail_fetch source url (db, net) =
      let (html, net') = fetch_detail_html url net in
      let (done, db') = retry_fetched source url html db in (done, (db', net'))
