-- ===== src/Connectors/JobBoard.antt =====
-- app/connectors/base.py: the run that the API connectors share, over everything or over the terms of
-- the active profile.
pub mod Terms
use recru_flow.Base.{
  ℕ, zero, suc, ◌+◌, ◌-◌, ◌*◌, ◌/◌, ◌%◌, ◌≤◌, ◌<◌, min, max, String, ◌<>◌, ◌≡◌, refl, sym, ap, ◌∙◌,
  ◌≢◌, ◌↔◌, ◌⊎◌, inl, inr, Bool, true, false, not, ◌&&◌, ◌||◌, Option, none, some, List, [], ◌∷◌,
  ◌++◌, map, foldl, append-nil, append_assoc, arith, str_eq, eq_iff, eq_refl, ltb, leb, ◌==◌,
  if◌then◌else◌, ltb→lt, lt→ltb, leb→le, le→leb, ==_iff, tests, Bool-cases, Option-cases, is_none,
  is_some, get_or, or_else, length, get_elem?, take, drop, filter, any, all, find, All,
  length-append, length-take, length-drop, take-append-drop, length-filter-le, any-append,
  filter-append, All-append, All-map, All-filter, length-filter-not, length-map,
}
use recru_flow.Data.Json.{Value, Fields, get}
use recru_flow.Schemas.{Profile}
use recru_flow.Db.{Db, Source}
use recru_flow.Connectors.Http.{Fetched, got, nothing, blocked}
use recru_flow.Ingestion.Types.{IngestionResult}
use recru_flow.Ingestion.FetchScope.{
  FetchScopeResolution, Mode, everything, filtered, resolve_fetch_scope_terms,
}
use recru_flow.Ingestion.Persist.{Host}
use recru_flow.Ingestion.Runner.{
  returned, Feed, Params, Progress, resolve_fetch_range, run_paginated_ingestion,
}

-- What a connector says of itself: the hooks of `JobBoardConnector`. `request` is `fetch_json` at the
-- URL, the parameters and the headers that it builds for a cursor.
pub record Board (C W : Type 0) : Type 0 where
  pub name : String
  pub request : Fields → C → ℕ → W → Fetched Value × W
  pub extract_offers : Value → Option (List Fields)
  pub next_cursor : Value → List Fields → C → ℕ → Option C
  pub map_offer : ℕ → Fields → Option Fields
  pub supports_fetch_scope : Bool
  pub apply_fetch_scope_term : Fields → String → Fields

-- The settings of the runner, with those that the connector overrides.
pub record RunnerKwargs : Type 0 where
  pub page_size : ℕ
  pub max_pages : ℕ
  pub already_seen_stop_threshold : ℕ

-- A result, or none for an exception, beside the database and the world that the run leaves.
abbrev pub Ended : Type 0 → Type 0
Ended W = Option IngestionResult × (Db × W)

module _ {C W : Type 0} (board : Board C W) where
  -- `fetch_page` below the request.
  unfoldable pub read_page : C → ℕ → Fetched Value → Fetched (List Fields × Option C)
  read_page cursor page_size nothing = nothing
  read_page cursor page_size (blocked code) = blocked code
  read_page cursor page_size (got payload) = elim (board.extract_offers payload) [
    | none ↦ nothing
    | some offers ↦ got (offers, board.next_cursor payload offers cursor page_size)
  ]

  unfoldable pub fetch_page : Fields → C → ℕ → W → Fetched (List Fields × Option C) × W
  unfolding read_page
  fetch_page config cursor page_size world =
      let (payload, world') = board.request config cursor page_size world in
      (read_page cursor page_size payload, world')

  abbrev pub feed : Fields → Feed C W
  feed config = record { fetch_page = fetch_page config; map_offer = board.map_offer }

module _ {C W : Type 0} (host : Host) (board : Board C W) (first_cursor : C) (kwargs : RunnerKwargs)
    (source : Source) (force_refresh : Bool) where
  abbrev pub params : Params
  params = record {
    source_id = source.id;
    source_name = board.name;
    page_size = kwargs.page_size;
    max_pages = kwargs.max_pages;
    already_seen_stop_threshold = kwargs.already_seen_stop_threshold;
    force_refresh = force_refresh;
    since = (resolve_fetch_range host (get "fetch_range" source.config_json)).0;
    until = (resolve_fetch_range host (get "fetch_range" source.config_json)).1;
    sorted_by_recency = true;
  }

  unfoldable pub run_config : Fields → Db → W → IngestionResult × Progress W
  unfolding run_paginated_ingestion fetch_page
  run_config config db world =
      run_paginated_ingestion host (feed board config) params first_cursor db world

  -- `total_fetched` and `total_created`, and the end of the loop over the terms.
  abbrev pub all_done : ℕ → ℕ → IngestionResult
  all_done fetched created = record {
    ok = true;
    fetched = fetched;
    created = created;
    error_message = none;
    blocked_status = none;
  }

  -- The run of one term within the loop, where `rest` is the loop over the other terms.
  unfoldable pub after_term :
      (ℕ → ℕ → Db → W → Ended W) → ℕ → ℕ → IngestionResult × Progress W → Ended W
  after_term rest fetched created (result, p) =
      let continued = rest (fetched + result.fetched) (created + result.created) p.db p.world in
      if p.raised then (none, (p.db, p.world)) else if result.ok then continued else (
        some (record {
          ok = false;
          fetched = fetched + result.fetched;
          created = created + result.created;
          error_message = result.error_message;
          blocked_status = none;
        }),
        (p.db, p.world),
      )

  unfoldable pub run_terms : List String → ℕ → ℕ → Db → W → Ended W
  unfolding after_term run_config
  run_terms [] fetched created db world = (some (all_done fetched created), (db, world))
  run_terms (term ∷ terms) fetched created db world =
      after_term (run_terms terms) fetched created
        (run_config (board.apply_fetch_scope_term source.config_json term) db world)

  -- The run without a scope.
  unfoldable pub run_everything : Db → W → Ended W
  unfolding run_config returned
  run_everything db world =
      let (result, p) = run_config source.config_json db world in
      (returned (result, p), (p.db, p.world))

  -- A run that is refused before its first request.
  abbrev pub refused : String → IngestionResult
  refused reason = record {
    ok = false;
    fetched = 0;
    created = 0;
    error_message = some reason;
    blocked_status = none;
  }

  unfoldable pub run_mode : Mode → List String → Db → W → Ended W
  unfolding run_terms run_everything
  run_mode filtered terms db world = run_terms terms 0 0 db world
  run_mode everything terms db world = run_everything db world

  unfoldable pub run_scoped : FetchScopeResolution → Db → W → Ended W
  unfolding run_mode
  run_scoped scope db world = elim scope.blocked_reason [
    | some reason ↦ (some (refused reason), (db, world))
    | none ↦ run_mode scope.mode scope.terms db world
  ]

  -- `JobBoardConnector.run`; it also raises where the validation of the profile does.
  unfoldable pub run : (Fields → Option Profile) → Db → W → Ended W
  unfolding run_scoped run_everything resolve_fetch_scope_terms
  run read_profile db world =
      if board.supports_fetch_scope
      then elim (resolve_fetch_scope_terms read_profile source.config_json db) [
        | none ↦ (none, (db, world))
        | some scope ↦ run_scoped scope db world
      ]
      else run_everything db world
