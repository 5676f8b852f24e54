-- ===== src/Connectors/JobBoard/Terms.antt =====
-- What the run of a connector leaves, whether it is narrowed to terms or not.
use recru_flow.Base.{
  either_branch, ℕ, ◌+◌, String, ◌≡◌, refl, sym, ap, ◌∙◌, inl, inr, Bool, Option, none, some, List,
  [], ◌∷◌, ◌++◌, append-nil, append_assoc, arith, Bool-cases, Option-cases, length, length-append,
}
use recru_flow.Data.Json.{Fields}
use recru_flow.Schemas.{Profile}
use recru_flow.Db.{Db, Source, OfferRow}
use recru_flow.Ingestion.Types.{IngestionResult}
use recru_flow.Ingestion.FetchScope.{
  FetchScopeResolution, Mode, everything, filtered, resolve_fetch_scope_terms,
}
use recru_flow.Ingestion.Persist.{Host}
use recru_flow.Ingestion.Persist.Insert.{AllNew}
use recru_flow.Ingestion.Runner.{returned, Feed, Params, Progress, run_paginated_ingestion}
use recru_flow.Ingestion.Runner.Growth.{run_paginated_ingestion-IsRun}
use recru_flow.Connectors.JobBoard.{
  Board, RunnerKwargs, Ended, feed, params, run_config, after_term, run_terms, run_everything,
  run_scoped, run, run_mode,
}

-- The table grew by as many rows as the count did, and repeats none.
pub record Appends (before : List OfferRow) (start count : ℕ) (after : List OfferRow) : Type 0 where
  pub new : List OfferRow
  pub grown : after ≡ before ++ new
  pub counted : count ≡ start + length new
  pub fresh : AllNew [] after

pub Appends-trans :
    (before between after : List OfferRow) (start count middle last : ℕ)
    → Appends before 0 count between
    → middle ≡ start + count
    → Appends between middle last after
    → Appends before start last after
Appends-trans before between after start count middle last a e b = record {
  new = a.new ++ b.new;
  grown = b.grown ∙ ap (λ os. os ++ b.new) a.grown ∙ append_assoc before a.new b.new;
  counted = omega (arith, a.counted, b.counted, length-append a.new b.new);
  fresh = b.fresh;
}

-- No row is new, whatever was counted before.
pub nothing_new :
    (rows : List OfferRow) (count : ℕ) → AllNew [] rows → Appends rows count count rows
nothing_new rows count h = record {
  new = [];
  grown = sym (append-nil rows);
  counted = omega arith;
  fresh = h;
}

-- What a run leaves of a table: it appends what it reports, and an exception leaves it with some rows
-- that were appended.
abbrev pub RunLeaves : {W : Type 0} → List OfferRow → ℕ → Option IngestionResult × (Db × W) → Type 0
RunLeaves before start (none, (db, world)) = (count : ℕ) × Appends before start count db.offers
RunLeaves before start (some result, (db, world)) = Appends before start result.created db.offers

-- A run that ends after what it appended.
pub Appends-start :
    (before after : List OfferRow) (start count : ℕ)
    → Appends before 0 count after
    → Appends before start (start + count) after
Appends-start before after start count a = record {
  new = a.new;
  grown = a.grown;
  counted = omega (arith, a.counted);
  fresh = a.fresh;
}

pub raised-RunLeaves :
    {W : Type 0} (before : List OfferRow) (start count : ℕ) (db : Db) (world : W)
    → Appends before 0 count db.offers
    → (last : ℕ) × Appends before start last db.offers
raised-RunLeaves before start count db world a =
    (start + count, Appends-start before db.offers start count a)

-- A run that went on from the table that an earlier one left.
pub RunLeaves-trans :
    {W : Type 0} (before between : List OfferRow) (start count : ℕ)
    (ended : Option IngestionResult × (Db × W))
    → Appends before 0 count between
    → RunLeaves between (start + count) ended
    → RunLeaves before start ended
RunLeaves-trans before between start count (none, (db, world)) a (last, b) =
    (last, Appends-trans before between _ start count _ last a refl b)
RunLeaves-trans before between start count (some result, (db, world)) a b =
    Appends-trans before between _ start count _ _ a refl b

-- A run of the runner appends what it reports.
pub run_paginated_ingestion-Appends :
    {C W : Type 0} (host : Host) (feed : Feed C W) (params : Params) (first_cursor : C) (db : Db)
    (world : W)
    → AllNew [] db.offers
    → let (result, p) = run_paginated_ingestion host feed params first_cursor db world in
      Appends db.offers 0 result.created p.db.offers
run_paginated_ingestion-Appends host feed params first_cursor db world h =
    let (result, p) = run_paginated_ingestion host feed params first_cursor db world in
    let good = run_paginated_ingestion-IsRun host feed params first_cursor db world h in
    record {
      new = good.growth.new;
      grown = good.growth.grown;
      counted = elim (Bool-cases result.ok) [
        | inl ok ↦ omega (arith, good.reported ok)
        | inr fails ↦ omega (arith, (good.failed fails).0, ap length (good.failed fails).2)
      ];
      fresh = good.growth.fresh;
    }

module _ {C W : Type 0} (host : Host) (board : Board C W) (first_cursor : C) (kwargs : RunnerKwargs)
    (source : Source) (force_refresh : Bool) where
  abbrev ran : Fields → Db → W → IngestionResult × Progress W
  ran = run_config host board first_cursor kwargs source force_refresh

  abbrev over_terms : List String → ℕ → ℕ → Db → W → Ended W
  over_terms = run_terms host board first_cursor kwargs source force_refresh

  ran-Appends :
      (config : Fields) (db : Db) (world : W)
      → AllNew [] db.offers
      → Appends db.offers 0 (ran config db world).0.created (ran config db world).1.db.offers
  unfolding run_config
  ran-Appends config db world h =
      run_paginated_ingestion-Appends host (feed board config)
        (params host board first_cursor kwargs source force_refresh) first_cursor db world h

  after_term-RunLeaves :
      (rest : ℕ → ℕ → Db → W → Ended W) (fetched start : ℕ) (before : List OfferRow)
      (result : IngestionResult) (p : Progress W)
      → Appends before 0 result.created p.db.offers
      → RunLeaves p.db.offers
          (start + result.created)
          (rest (fetched + result.fetched) (start + result.created) p.db p.world)
      → RunLeaves before start (
          after_term host board first_cursor kwargs source force_refresh rest fetched start
            (result, p))
  unfolding after_term
  after_term-RunLeaves rest fetched start before result p a continued =
      either_branch (RunLeaves {W = W} before start) p.raised
        (raised-RunLeaves before start result.created p.db p.world a)
        (either_branch (RunLeaves {W = W} before start) result.ok
          (RunLeaves-trans before p.db.offers start result.created _ a continued)
          (Appends-start before p.db.offers start result.created a))

  run_terms-RunLeaves :
      (terms : List String) (fetched start : ℕ) (db : Db) (world : W)
      → AllNew [] db.offers
      → RunLeaves db.offers start (over_terms terms fetched start db world)
  unfolding run_terms
  run_terms-RunLeaves [] fetched start db world h = nothing_new db.offers start h
  run_terms-RunLeaves (term ∷ terms) fetched start db world h =
      let config = board.apply_fetch_scope_term source.config_json term in
      let (result, p) = ran config db world in
      let a = ran-Appends config db world h in
      after_term-RunLeaves (over_terms terms) fetched start db.offers result p a (
        run_terms-RunLeaves terms (fetched + result.fetched) (start + result.created) p.db p.world
          a.fresh)

  run_everything-RunLeaves :
      (db : Db) (world : W)
      → AllNew [] db.offers
      → RunLeaves db.offers 0
          (run_everything host board first_cursor kwargs source force_refresh db world)
  unfolding run_everything returned
  run_everything-RunLeaves db world h =
      let (result, p) = ran source.config_json db world in
      let a = ran-Appends source.config_json db world h in
      either_branch (λ o. RunLeaves {W = W} db.offers 0 (o, (p.db, p.world))) p.raised
        (raised-RunLeaves db.offers 0 result.created p.db p.world a) a

  run_scoped-RunLeaves :
      (scope : FetchScopeResolution) (db : Db) (world : W)
      → AllNew [] db.offers
      → RunLeaves db.offers 0
          (run_scoped host board first_cursor kwargs source force_refresh scope db world)
  unfolding run_scoped
  run_scoped-RunLeaves scope db world h = elim (Option-cases scope.blocked_reason) [
    | inr (reason, given) ↦ rw (given, run_scoped) (nothing_new db.offers 0 h)
    | inl allowed ↦ rw (allowed, run_scoped) (by_mode scope.mode)
  ]
    where
      by_mode :
          (mode : Mode)
          → RunLeaves db.offers 0 (
              run_mode host board first_cursor kwargs source force_refresh mode scope.terms db
                world)
      by_mode filtered = unfold run_mode in run_terms-RunLeaves scope.terms 0 0 db world h
      by_mode everything = unfold run_mode in run_everything-RunLeaves db world h

  -- From a table without repeated hashes or contents, the run of a connector appends to the offers
  -- just as many rows as it reports as created, over all its terms and whether it succeeds or fails;
  -- if it raises, whatever it changed is rows that it appended; and no run repeats a hash or a content.
  pub run-RunLeaves :
      (read_profile : Fields → Option Profile) (db : Db) (world : W)
      → AllNew [] db.offers
      → RunLeaves db.offers 0
          (run host board first_cursor kwargs source force_refresh read_profile db world)
  unfolding run
  run-RunLeaves read_profile db world h = elim (Bool-cases board.supports_fetch_scope) [
    | inr unscoped ↦ rw (unscoped, run) (run_everything-RunLeaves db world h)
    | inl scoped ↦
        rw (scoped, run)
          (elim (Option-cases (resolve_fetch_scope_terms read_profile source.config_json db)) [
            | inl raises ↦ rw raises (0, nothing_new db.offers 0 h)
            | inr (scope, resolved) ↦ rw resolved (run_scoped-RunLeaves scope db world h)
          ])
  ]
