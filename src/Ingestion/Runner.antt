-- ===== src/Ingestion/Runner.antt =====
-- app/ingestion/runner.py: the fetch, filter, persist and early-stop loop that all connectors share.
-- A rate limit only sleeps, and is left out.
pub mod Growth
pub mod World
pub mod Quiet
pub mod Confined
use recru_flow.Base.{
  ℕ, zero, suc, ◌+◌, ◌-◌, ◌*◌, ◌/◌, ◌%◌, ◌≤◌, ◌<◌, min, max, String, ◌<>◌, ◌≡◌, refl, sym, ap, ◌∙◌,
  ◌≢◌, ◌↔◌, ◌⊎◌, inl, inr, Bool, true, false, not, ◌&&◌, ◌||◌, Option, none, some, List, [], ◌∷◌,
  ◌++◌, map, foldl, append-nil, append_assoc, arith, str_eq, eq_iff, eq_refl, ltb, leb, ◌==◌,
  if◌then◌else◌, ltb→lt, lt→ltb, leb→le, le→leb, ==_iff, tests, Bool-cases, Option-cases, is_none,
  is_some, get_or, or_else, length, get_elem?, take, drop, filter, any, all, find, All,
  length-append, length-take, length-drop, take-append-drop, length-filter-le, any-append,
  filter-append, All-append, All-map, All-filter, length-filter-not, length-map,
}
use recru_flow.Data.Text.{show}
use recru_flow.Data.Json.{Value, obj, as_str, Fields, get}
use recru_flow.Db.{Db, OfferRow, utcnow}
use recru_flow.Connectors.Http.{Fetched, got, nothing, blocked}
use recru_flow.Dlq.Service.{page_fetch_failed, record_failure, source_key}
use recru_flow.Ingestion.Types.{IngestionResult}
use recru_flow.Ingestion.Persist.{Host, ingest_offer}

-- A `datetime`, and whether it is naive: Python refuses to compare a naive one with an aware one.
pub record Moment : Type 0 where
  pub at : ℕ
  pub naive : Bool

unfoldable pub parse_moment : Host → Value → Option Moment
parse_moment host v = elim (host.parse_datetime v) [
  | none ↦ none
  | some at ↦ some (record { at = at; naive = host.is_naive v })
]

-- `resolve_fetch_range`, of the value under "fetch_range": no bounds unless the mode is "range".
unfoldable pub resolve_fetch_range : Host → Value → Option Moment × Option Moment
unfolding get parse_moment
resolve_fetch_range host (obj fetch_range) =
    if str_eq (get_or (as_str (get "mode" fetch_range)) "") "range"
    then (parse_moment host (get "since" fetch_range), parse_moment host (get "until" fetch_range))
    else (none, none)
resolve_fetch_range host _ = (none, none)

-- A connector's `fetch_page` and `map_offer`, over the cursors `C` and the world `W` that its
-- requests change. A `map_offer` that gives none raises.
pub record Feed (C W : Type 0) : Type 0 where
  pub fetch_page : C → ℕ → W → Fetched (List Fields × Option C) × W
  pub map_offer : ℕ → Fields → Option Fields

pub record Params : Type 0 where
  pub source_id : ℕ
  pub source_name : String
  pub page_size : ℕ
  pub max_pages : ℕ
  pub already_seen_stop_threshold : ℕ
  pub force_refresh : Bool
  pub since : Option Moment
  pub until : Option Moment
  pub sorted_by_recency : Bool

-- The local variables of the loop, and whether an exception has left it.
pub record Progress (W : Type 0) : Type 0 where
  pub db : Db
  pub world : W
  pub total_fetched : ℕ
  pub total_created : ℕ
  pub consecutive_already_seen : ℕ
  pub raised : Bool

-- `since is not None and date < since`
abbrev pub before_since : Option Moment → ℕ → Bool
before_since none date = false
before_since (some since) date = ltb date since.at

-- `until is not None and date > until`
abbrev pub after_until : Option Moment → ℕ → Bool
after_until none date = false
after_until (some until) date = ltb until.at date

-- The comparison with a bound raises a `TypeError`.
abbrev pub clashes : Option Moment → Bool → Bool
clashes none naive = false
clashes (some bound) true = not bound.naive
clashes (some bound) false = bound.naive

unfoldable pub finished : {W : Type 0} → Progress W → IngestionResult
finished p = record {
  ok = true;
  fetched = p.total_fetched;
  created = p.total_created;
  error_message = none;
  blocked_status = none;
}

-- The counters after `ingest_offer`: a new offer, a known one, or one that was not valid.
unfoldable pub tally : {W : Type 0} → Option (OfferRow × Bool) × Db → Progress W → Progress W
tally (none, db) p = record p { db = db }
tally (some (_, true), db) p = record p {
  db = db;
  total_created = p.total_created + 1;
  consecutive_already_seen = 0;
}
tally (some (_, false), db) p = record p {
  db = db;
  consecutive_already_seen = p.consecutive_already_seen + 1;
}

module _ {C W : Type 0} (host : Host) (feed : Feed C W) (params : Params) where
  -- Persist one mapped offer, and count it.
  unfoldable pub store : Fields → Fields → Progress W → Progress W
  unfolding tally
  store raw mapped p = tally (ingest_offer host mapped raw p.db) p

  -- The date that the range is held against: the offer's own, or `datetime.now(UTC)`.
  unfoldable pub effective_date : Fields → Db → Moment × Db
  unfolding utcnow get parse_moment
  effective_date mapped db = elim (parse_moment host (get "posted_at" mapped)) [
    | none ↦ (record { at = (utcnow host.clock db).0; naive = false }, (utcnow host.clock db).1)
    | some posted_at ↦ (posted_at, db)
  ]

  -- A comparison with the range raises. The date is held against `until` only if it is not before
  -- `since`.
  unfoldable pub range_raises : Moment → Bool
  range_raises date =
      clashes params.since date.naive
      || (not (before_since params.since date.at) && clashes params.until date.naive)

  -- The rest of the body for one raw offer, once its date is known; the flag is
  -- `page_all_older_than_since`.
  unfoldable pub visit_dated : Fields → Fields → Moment × Db → Progress W × Bool → Progress W × Bool
  unfolding store range_raises
  visit_dated raw mapped (date, db) (p, all_older) =
      let p' : Progress W = record p { db = db } in
      let still_older = all_older && before_since params.since date.at in
      if range_raises date
      then (record p' { raised = true }, all_older)
      else if before_since params.since date.at || after_until params.until date.at
      then (p', still_older)
      else (store raw mapped p', still_older)

  -- The body of the loop over the offers of a page, for an offer that was mapped.
  unfoldable pub visit_mapped : Fields → Fields → Progress W × Bool → Progress W × Bool
  unfolding visit_dated effective_date store
  visit_mapped raw mapped (p, all_older) =
      if is_some params.since || is_some params.until
      then visit_dated raw mapped (effective_date mapped p.db) (p, all_older)
      else (store raw mapped p, all_older)

  unfoldable pub visit : Fields → Progress W × Bool → Progress W × Bool
  unfolding visit_mapped
  visit raw (p, all_older) = elim (feed.map_offer params.source_id raw) [
    | none ↦ (record p { raised = true }, all_older)
    | some mapped ↦ visit_mapped raw mapped (p, all_older)
  ]

  unfoldable pub visit_all : List Fields → Progress W × Bool → Progress W × Bool
  unfolding visit
  visit_all [] state = state
  visit_all (raw ∷ offers) state =
      let later = visit_all offers (visit raw state) in if state.0.raised then state else later

  -- A page that could not be fetched.
  unfoldable pub page_failed : ℕ → Option ℕ → Progress W → IngestionResult × Progress W
  unfolding finished record_failure source_key
  page_failed page_index blocked_status p =
      if page_index == 0
      then (
        record {
          ok = false;
          fetched = 0;
          created = 0;
          error_message = some ("failed to fetch " <> (params.source_name <> " offers"));
          blocked_status = blocked_status;
        },
        p,
      )
      else (
        finished p,
        record p {
          db =
              record_failure host.clock (source_key params.source_id) page_fetch_failed
                (record {
                  source_id = params.source_id;
                  error_message =
                      "failed to fetch " <> (params.source_name <> (" page " <> show page_index));
                  raw_payload = none;
                  scheduler_run_id = none;
                  page = some page_index;
                  url = none;
                  blocked_status = some blocked_status;
                })
                p.db;
        },
      )

  -- The page's offers, counted and visited, with the flag as it starts.
  unfoldable pub visit_page : List Fields → Progress W → Progress W × Bool
  unfolding visit_all
  visit_page offers p = visit_all offers (
    record p { total_fetched = p.total_fetched + length offers },
    params.sorted_by_recency && is_some params.since && ltb 0 (length offers),
  )

  -- What ends the loop after a page, in its order: an exception, a page that is wholly too old, no
  -- further page, and enough offers in a row that were seen before.
  unfoldable pub next_page : Option C → Progress W × Bool → Option C
  next_page cursor (p, all_older) =
      if p.raised
      then none
      else if all_older
      then none
      else if not params.force_refresh
          && leb params.already_seen_stop_threshold p.consecutive_already_seen
      then none
      else cursor

  -- The body of the loop below the fetch, where `rest` is the loop from the next page on.
  unfoldable pub after_fetch :
      (C → Progress W → IngestionResult × Progress W)
      → ℕ
      → Fetched (List Fields × Option C)
      → Progress W
      → IngestionResult × Progress W
  unfolding page_failed visit_page next_page finished
  after_fetch rest page_index nothing p = page_failed page_index none p
  after_fetch rest page_index (blocked code) p = page_failed page_index (some code) p
  after_fetch rest page_index (got (offers, next)) p =
      let visited = visit_page offers p in
      elim (next_page next visited) [
        | none ↦ (finished visited.0, visited.0)
        | some cursor ↦ rest cursor visited.0
      ]

  -- The loop over the pages that are left.
  unfoldable pub run_pages : ℕ → ℕ → C → Progress W → IngestionResult × Progress W
  unfolding after_fetch
  run_pages zero page_index cursor p = (finished p, p)
  run_pages (suc left) page_index cursor p =
      let (page, world) = feed.fetch_page cursor params.page_size p.world in
      after_fetch (run_pages left (page_index + 1)) page_index page (record p { world = world })

  -- `run_paginated_ingestion`; where an exception left the loop, the result is not returned.
  unfoldable pub run_paginated_ingestion : C → Db → W → IngestionResult × Progress W
  unfolding run_pages
  run_paginated_ingestion initial_cursor db world =
      run_pages params.max_pages 0 initial_cursor (record {
        db = db;
        world = world;
        total_fetched = 0;
        total_created = 0;
        consecutive_already_seen = 0;
        raised = false;
      })

-- What the caller of a run has: its result, or an exception.
unfoldable pub returned : {W : Type 0} → IngestionResult × Progress W → Option IngestionResult
returned (result, p) = if p.raised then none else some result
