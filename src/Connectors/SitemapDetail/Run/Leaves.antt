-- ===== src/Connectors/SitemapDetail/Run/Leaves.antt =====
-- What the run of a connector over sitemaps leaves, whether it is narrowed to terms or not.
use mathlib.Core.Path.{subst}
use recru_flow.Base.{
  either_branch, ℕ, ◌+◌, String, ◌≡◌, refl, sym, ◌∙◌, inl, inr, Bool, true, false, Option, none,
  some, List, [], ◌∷◌, if◌then◌else◌, Bool-cases, Option-cases, length,
}
use recru_flow.Base.Int.{ℤ}
use recru_flow.Data.Json.{Value, Fields, get}
use recru_flow.Schemas.{Profile}
use recru_flow.Db.{Db, Source, OfferRow}
use recru_flow.Connectors.ProxyPool.{Outside}
use recru_flow.Connectors.Http.{Outcome, Fetched, got, nothing, blocked, Net}
use recru_flow.Dlq.Service.{record_failure}
use recru_flow.Ingestion.Types.{IngestionResult}
use recru_flow.Ingestion.FetchScope.{
  FetchScopeResolution, Mode, everything, filtered, resolve_fetch_scope_terms,
}
use recru_flow.Ingestion.Lifecycle.{update_source}
use recru_flow.Ingestion.Persist.{Host}
use recru_flow.Ingestion.Persist.Insert.{AllNew}
use recru_flow.Ingestion.Runner.{resolve_fetch_range, Progress}
use recru_flow.Connectors.JobBoard.Terms.{
  RunLeaves, raised-RunLeaves, RunLeaves-trans, Appends-start, Appends, nothing_new,
  run_paginated_ingestion-Appends,
}
use recru_flow.Connectors.SitemapDetail.{
  after_walk, Walk, Site, Settings, feed, params, resolve_sitemap_cursor, walk_urls, record_blocked,
  save_cursor, run_over_urls,
}
use recru_flow.Connectors.SitemapDetail.Run.{
  Sitemaps, Ended, over_urls, after_urls, run_term, run_terms, run_listing, run_everything,
  run_mode, run_scoped, run,
}

module _ (host : Host) (outside : Outside)
    (send : List (String × Outcome String) → String → String → Outcome String) (site : Site)
    (to_int : Value → ℤ) (sitemaps : Sitemaps) (source : Source) (settings : Settings)
    (force_refresh : Bool) where
  record_blocked-offers :
      (urls : List (String × ℕ)) (db : Db)
      → (record_blocked host outside send site source urls db).offers ≡ db.offers
  unfolding record_blocked record_failure
  record_blocked-offers [] db = refl
  record_blocked-offers ((url, code) ∷ rest) db = record_blocked-offers rest _

  save_cursor-offers :
      (persist_cursor : Bool) (last : Option ℕ) (db : Db)
      → (if persist_cursor then save_cursor host outside send site source last db else db).offers
        ≡ db.offers
  unfolding save_cursor update_source
  save_cursor-offers true last db = refl
  save_cursor-offers false last db = refl

  after_walk-RunLeaves :
      (persist_cursor : Bool) (before : List OfferRow) (result : IngestionResult)
      (p : Progress Walk)
      → Appends before 0 result.created p.db.offers
      → RunLeaves before 0
          (after_walk host outside send site to_int source settings persist_cursor (result, p))
  unfolding after_walk
  after_walk-RunLeaves persist_cursor before result p a =
      let recorded = record_blocked host outside send site source p.world.blocked_urls p.db in
      let same =
        save_cursor-offers persist_cursor p.world.last_cursor recorded
        ∙ record_blocked-offers p.world.blocked_urls p.db in
      either_branch (RunLeaves {W = Net String} before 0) p.raised
        (raised-RunLeaves before 0 result.created p.db p.world.net a)
        (subst (Appends before 0 result.created) (sym same) a)

  over_urls-RunLeaves :
      (urls : List String) (persist_cursor : Bool) (db : Db) (net : Net String)
      → AllNew [] db.offers
      → RunLeaves db.offers 0 (
          over_urls host outside send site to_int sitemaps source settings force_refresh urls
            persist_cursor db net)
  unfolding over_urls run_over_urls walk_urls
  over_urls-RunLeaves urls persist_cursor db net h =
      let (since, until) = resolve_fetch_range host (get "fetch_range" source.config_json) in
      let first = resolve_sitemap_cursor to_int source.config_json (length urls) in
      let (result, p) =
        walk_urls host outside send site to_int source settings urls force_refresh (since, until) db
          net in
      after_walk-RunLeaves persist_cursor db.offers result p (
        run_paginated_ingestion-Appends host (feed host outside send site urls)
          (params host outside send site source settings force_refresh since until) first db
          (record { net = net; last_cursor = some first; blocked_urls = [] }) h)

  after_urls-RunLeaves :
      (rest : ℕ → ℕ → Db → Net String → Ended) (fetched start : ℕ) (before : List OfferRow)
      (ended : Ended)
      → RunLeaves before 0 ended
      → ((fetched' start' : ℕ) (db' : Db) (net' : Net String)
          → AllNew [] db'.offers
          → RunLeaves db'.offers start' (rest fetched' start' db' net'))
      → RunLeaves before start (
          after_urls host outside send site to_int sitemaps source settings force_refresh rest
            fetched start ended)
  unfolding after_urls
  after_urls-RunLeaves rest fetched start before (none, (db, net)) (count, a) continues =
      raised-RunLeaves before start count db net a
  after_urls-RunLeaves rest fetched start before (some result, (db, net)) a continues =
      either_branch (RunLeaves {W = Net String} before start) result.ok
        (RunLeaves-trans before db.offers start result.created _ a
          (continues (fetched + result.fetched) (start + result.created) db net a.fresh))
        (Appends-start before db.offers start result.created a)

  run_term-RunLeaves :
      (rest : ℕ → ℕ → Db → Net String → Ended) (fetched start : ℕ) (term : String)
      (urls : Fetched (List String)) (net : Net String) (db : Db)
      → AllNew [] db.offers
      → ((fetched' start' : ℕ) (db' : Db) (net' : Net String)
          → AllNew [] db'.offers
          → RunLeaves db'.offers start' (rest fetched' start' db' net'))
      → RunLeaves db.offers start (
          run_term host outside send site to_int sitemaps source settings force_refresh rest fetched
            start term
            (urls, net)
            db)
  unfolding run_term
  run_term-RunLeaves rest fetched start term nothing net db h continues =
      nothing_new db.offers start h
  run_term-RunLeaves rest fetched start term (blocked status) net db h continues =
      nothing_new db.offers start h
  run_term-RunLeaves rest fetched start term (got urls) net db h continues =
      after_urls-RunLeaves rest fetched start db.offers _ (over_urls-RunLeaves urls false db net h)
        continues

  run_terms-RunLeaves :
      (terms : List String) (fetched start : ℕ) (db : Db) (net : Net String)
      → AllNew [] db.offers
      → RunLeaves db.offers start (
          run_terms host outside send site to_int sitemaps source settings force_refresh terms
            fetched start db net)
  unfolding run_terms
  run_terms-RunLeaves [] fetched start db net h = nothing_new db.offers start h
  run_terms-RunLeaves (term ∷ terms) fetched start db net h =
      let (urls, net') = sitemaps.fetch_filtered_sitemap_urls source.config_json term net in
      run_term-RunLeaves
        (run_terms host outside send site to_int sitemaps source settings force_refresh terms)
        fetched start term urls net' db h
        (λ fetched' start' db' net' h'. run_terms-RunLeaves terms fetched' start' db' net' h')

  run_listing-RunLeaves :
      (urls : Fetched (List String)) (net : Net String) (db : Db)
      → AllNew [] db.offers
      → RunLeaves db.offers 0 (
          run_listing host outside send site to_int sitemaps source settings force_refresh
            (urls, net)
            db)
  unfolding run_listing
  run_listing-RunLeaves nothing net db h = nothing_new db.offers 0 h
  run_listing-RunLeaves (blocked status) net db h = nothing_new db.offers 0 h
  run_listing-RunLeaves (got urls) net db h = over_urls-RunLeaves urls true db net h

  run_everything-RunLeaves :
      (db : Db) (net : Net String)
      → AllNew [] db.offers
      → RunLeaves db.offers 0 (
          run_everything host outside send site to_int sitemaps source settings force_refresh db
            net)
  unfolding run_everything
  run_everything-RunLeaves db net h =
      let (urls, net') = sitemaps.fetch_sitemap_urls source.config_json net in
      run_listing-RunLeaves urls net' db h

  run_scoped-RunLeaves :
      (scope : FetchScopeResolution) (db : Db) (net : Net String)
      → AllNew [] db.offers
      → RunLeaves db.offers 0 (
          run_scoped host outside send site to_int sitemaps source settings force_refresh scope db
            net)
  unfolding run_scoped
  run_scoped-RunLeaves scope db net h = elim (Option-cases scope.blocked_reason) [
    | inr (reason, given) ↦ rw (given, run_scoped) (nothing_new db.offers 0 h)
    | inl allowed ↦ rw (allowed, run_scoped) (by_mode scope.mode)
  ]
    where
      by_mode :
          (mode : Mode)
          → RunLeaves db.offers 0 (
              run_mode host outside send site to_int sitemaps source settings force_refresh mode
                scope.terms db net)
      by_mode filtered = unfold run_mode in run_terms-RunLeaves scope.terms 0 0 db net h
      by_mode everything = unfold run_mode in run_everything-RunLeaves db net h

  -- From a table without repeated hashes or contents, the run over the sitemaps of a connector appends
  -- to the offers just as many rows as it reports as created, over all its terms and also where the
  -- URLs of a term or the sitemap cannot be fetched; if it raises, whatever it changed is rows that it
  -- appended; and no run repeats a hash or a content.
  pub run-Leaves :
      (read_profile : Fields → Option Profile) (db : Db) (net : Net String)
      → AllNew [] db.offers
      → RunLeaves db.offers 0 (
          run host outside send site to_int sitemaps source settings force_refresh read_profile db
            net)
  unfolding run
  run-Leaves read_profile db net h = elim (Bool-cases sitemaps.supports_fetch_scope) [
    | inr unscoped ↦ rw (unscoped, run) (run_everything-RunLeaves db net h)
    | inl scoped ↦
        rw (scoped, run)
          (elim (Option-cases (resolve_fetch_scope_terms read_profile source.config_json db)) [
            | inl raises ↦ rw raises (0, nothing_new db.offers 0 h)
            | inr (scope, resolved) ↦ rw resolved (run_scoped-RunLeaves scope db net h)
          ])
  ]
