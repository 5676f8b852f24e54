-- ===== src/Connectors/SitemapDetail/Run.antt =====
-- `run` of app/connectors/sitemap_detail.py, over everything or over the terms of the active profile.
pub mod Leaves
use recru_flow.Base.{
  ℕ, zero, suc, ◌+◌, ◌-◌, ◌*◌, ◌/◌, ◌%◌, ◌≤◌, ◌<◌, min, max, String, ◌<>◌, ◌≡◌, refl, sym, ap, ◌∙◌,
  ◌≢◌, ◌↔◌, ◌⊎◌, inl, inr, Bool, true, false, not, ◌&&◌, ◌||◌, Option, none, some, List, [], ◌∷◌,
  ◌++◌, map, foldl, append-nil, append_assoc, arith, str_eq, eq_iff, eq_refl, ltb, leb, ◌==◌,
  if◌then◌else◌, ltb→lt, lt→ltb, leb→le, le→leb, ==_iff, tests, Bool-cases, Option-cases, is_none,
  is_some, get_or, or_else, length, get_elem?, take, drop, filter, any, all, find, All,
  length-append, length-take, length-drop, take-append-drop, length-filter-le, any-append,
  filter-append, All-append, All-map, All-filter, length-filter-not, length-map,
}
use recru_flow.Base.Int.{ℤ}
use recru_flow.Data.Json.{Value, str, Fields, get}
use recru_flow.Schemas.{Profile}
use recru_flow.Db.{Db, Source}
use recru_flow.Connectors.ProxyPool.{Outside}
use recru_flow.Connectors.Http.{Outcome, Fetched, got, nothing, blocked, Net}
use recru_flow.Ingestion.Types.{IngestionResult}
use recru_flow.Ingestion.FetchScope.{
  FetchScopeResolution, Mode, everything, filtered, resolve_fetch_scope_terms,
}
use recru_flow.Ingestion.Persist.{Host}
use recru_flow.Ingestion.Runner.{resolve_fetch_range}
use recru_flow.Connectors.SitemapDetail.{Site, Settings, run_over_urls}

-- The hooks that enumerate the URLs, for the settings of the source.
pub record Sitemaps : Type 0 where
  pub supports_fetch_scope : Bool
  pub fetch_sitemap_urls : Fields → Net String → Fetched (List String) × Net String
  pub fetch_filtered_sitemap_urls :
      Fields → String → Net String → Fetched (List String) × Net String

-- A result, or none for an exception, beside the database and the requests that the run leaves.
abbrev pub Ended : Type 0
Ended = Option IngestionResult × (Db × Net String)

abbrev failing : String → ℕ → ℕ → Option ℕ → IngestionResult
failing reason fetched created status = record {
  ok = false;
  fetched = fetched;
  created = created;
  error_message = some reason;
  blocked_status = status;
}

abbrev all_done : ℕ → ℕ → IngestionResult
all_done fetched created = record {
  ok = true;
  fetched = fetched;
  created = created;
  error_message = none;
  blocked_status = none;
}

module _ (host : Host) (outside : Outside)
    (send : List (String × Outcome String) → String → String → Outcome String) (site : Site)
    (to_int : Value → ℤ) (sitemaps : Sitemaps) (source : Source) (settings : Settings)
    (force_refresh : Bool) where
  -- `_run_over_urls` with the range of the settings.
  unfoldable pub over_urls : List String → Bool → Db → Net String → Ended
  unfolding run_over_urls
  over_urls urls persist_cursor =
      run_over_urls host outside send site to_int source settings urls force_refresh
        (resolve_fetch_range host (get "fetch_range" source.config_json)) persist_cursor

  -- The end of the body of the loop over the terms, where `rest` is the loop over the other terms.
  unfoldable pub after_urls : (ℕ → ℕ → Db → Net String → Ended) → ℕ → ℕ → Ended → Ended
  after_urls rest fetched created (none, (db, net)) = (none, (db, net))
  after_urls rest fetched created (some result, (db, net)) =
      let continued = rest (fetched + result.fetched) (created + result.created) db net in
      if result.ok then continued else (
        some (record {
          ok = false;
          fetched = fetched + result.fetched;
          created = created + result.created;
          error_message = result.error_message;
          blocked_status = none;
        }),
        (db, net),
      )

  abbrev all_message : String
  all_message = "failed to fetch " <> (site.name <> " offers")

  abbrev filtered_message : String → String
  filtered_message term = all_message <> (" filtered by " <> host.repr (str term))

  -- One term, once its URLs were asked for.
  unfoldable pub run_term :
      (ℕ → ℕ → Db → Net String → Ended)
      → ℕ
      → ℕ
      → String
      → Fetched (List String) × Net String
      → Db
      → Ended
  unfolding after_urls over_urls
  run_term rest fetched created term (got urls, net) db =
      after_urls rest fetched created (over_urls urls false db net)
  run_term rest fetched created term (nothing, net) db =
      (some (failing (filtered_message term) fetched created none), (db, net))
  run_term rest fetched created term (blocked status, net) db =
      (some (failing (filtered_message term) fetched created (some status)), (db, net))

  unfoldable pub run_terms : List String → ℕ → ℕ → Db → Net String → Ended
  unfolding run_term
  run_terms [] fetched created db net = (some (all_done fetched created), (db, net))
  run_terms (term ∷ terms) fetched created db net =
      run_term (run_terms terms) fetched created term
        (sitemaps.fetch_filtered_sitemap_urls source.config_json term net) db

  -- The run over everything, once the sitemap was read.
  unfoldable pub run_listing : Fetched (List String) × Net String → Db → Ended
  unfolding over_urls
  run_listing (got urls, net) db = over_urls urls true db net
  run_listing (nothing, net) db = (some (failing all_message 0 0 none), (db, net))
  run_listing (blocked status, net) db = (some (failing all_message 0 0 (some status)), (db, net))

  unfoldable pub run_everything : Db → Net String → Ended
  unfolding run_listing
  run_everything db net = run_listing (sitemaps.fetch_sitemap_urls source.config_json net) db

  unfoldable pub run_mode : Mode → List String → Db → Net String → Ended
  unfolding run_terms run_everything
  run_mode filtered terms db net = run_terms terms 0 0 db net
  run_mode everything terms db net = run_everything db net

  unfoldable pub run_scoped : FetchScopeResolution → Db → Net String → Ended
  unfolding run_mode
  run_scoped scope db net = elim scope.blocked_reason [
    | some reason ↦ (some (failing reason 0 0 none), (db, net))
    | none ↦ run_mode scope.mode scope.terms db net
  ]

  -- `SitemapDetailPageConnector.run`; it also raises where the validation of the profile does.
  unfoldable pub run : (Fields → Option Profile) → Db → Net String → Ended
  unfolding run_scoped run_everything resolve_fetch_scope_terms
  run read_profile db net =
      if sitemaps.supports_fetch_scope
      then elim (resolve_fetch_scope_terms read_profile source.config_json db) [
        | none ↦ (none, (db, net))
        | some scope ↦ run_scoped scope db net
      ]
      else run_everything db net
