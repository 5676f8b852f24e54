-- ===== src/Scoring/Batch.antt =====
-- app/scoring/batch.py and the loop of app/llm/matcher.py that it calls: one batch of scoring.
-- What the matcher says of one offer is an operation of its interface.
pub mod Settled
pub mod Outcomes
pub mod Drained
use recru_flow.Base.{
  ℕ, zero, suc, ◌+◌, ◌-◌, ◌*◌, ◌/◌, ◌%◌, ◌≤◌, ◌<◌, min, max, String, ◌<>◌, ◌≡◌, refl, sym, ap, ◌∙◌,
  ◌≢◌, ◌↔◌, ◌⊎◌, inl, inr, Bool, true, false, not, ◌&&◌, ◌||◌, Option, none, some, List, [], ◌∷◌,
  ◌++◌, map, foldl, append-nil, append_assoc, arith, str_eq, eq_iff, eq_refl, ltb, leb, ◌==◌,
  if◌then◌else◌, ltb→lt, lt→ltb, leb→le, le→leb, ==_iff, tests, Bool-cases, Option-cases, is_none,
  is_some, get_or, or_else, length, get_elem?, take, drop, filter, any, all, find, All,
  length-append, length-take, length-drop, take-append-drop, length-filter-le, any-append,
  filter-append, All-append, All-map, All-filter, length-filter-not, length-map,
}
use recru_flow.Data.Text.{show}
use recru_flow.Data.Json.{Fields}
use recru_flow.Schemas.{Profile, Offer, validate_offer}
use recru_flow.Db.{Db, OfferRow, Source, ProfileRow, MatchScoreRow, ScoringFailure}
use recru_flow.Dlq.Service.{scoring_failed, record_scoring_failure}
use recru_flow.Ingestion.Persist.{Host}
use recru_flow.Profiles.{get_active_profile}
use recru_flow.Scoring.Selection.{
  Candidate, already_scored, in_scope, join_sources, select_scoring_candidates,
}

-- What `_score_offer` ends in: a percentage with its rationale, or the text of a `MatcherError`.
pub data Verdict : Type 0 where
  match : ℕ → String → Verdict
  matcher_error : String → Verdict

-- `_score_offer` with the chain of the batch and its profile, for the id and the fields of an offer.
abbrev pub Matcher : Type 0
Matcher = ℕ → Offer → Verdict

-- `f"offer:{offer_id}:profile:{profile_id}"`
unfoldable pub scoring_key : ℕ → ℕ → String
scoring_key offer_id profile_id = "offer:" <> (show offer_id <> (":profile:" <> show profile_id))

-- What `_process` gives for an offer: no verdict outside the scope, and none at all where the stored
-- offer does not validate, which is an exception.
unfoldable pub process : Matcher → List String → Candidate → Option (OfferRow × Option Verdict)
process matcher connectors (row, source) =
    if in_scope connectors source
    then elim (validate_offer row.offer) [
      | none ↦ none
      | some offer ↦ some (row, some (matcher row.id offer))
    ]
    else some (row, none)

-- `asyncio.gather` of all of them: an exception of one is that of the batch.
unfoldable pub gather :
    Matcher → List String → List Candidate → Option (List (OfferRow × Option Verdict))
unfolding process
gather matcher connectors [] = some []
gather matcher connectors (c ∷ cs) = elim (process matcher connectors c) [
  | none ↦ none
  | some outcome ↦ elim (gather matcher connectors cs) [
    | none ↦ none
    | some outcomes ↦ some (outcome ∷ outcomes)
  ]
]

-- The row that `session.add` takes; it gets its id and its date when it is flushed.
unfoldable pub score_row : ℕ → ℕ → ℕ → ℕ → String → ℕ → MatchScoreRow
score_row id offer_id profile_id score_percent rationale now = record {
  id = id;
  offer_id = offer_id;
  profile_id = profile_id;
  score_percent = score_percent;
  rationale = rationale;
  created_at = now;
}

module _ (clock : ℕ → ℕ) (profile_id : ℕ) where
  -- One outcome, written to the database: the rows it adds to the results.
  unfoldable pub store_outcome : OfferRow × Option Verdict → Db → List MatchScoreRow × Db
  unfolding record_scoring_failure score_row scoring_key
  store_outcome (row, none) db = ([], db)
  store_outcome (row, some (matcher_error text)) db = (
    [],
    record_scoring_failure clock (scoring_key row.id profile_id) scoring_failed text row.id
        profile_id db,
  )
  store_outcome (row, some (match percent rationale)) db =
      let added = score_row db.next_id row.id profile_id percent rationale (clock db.reads) in
      (
        added ∷ [],
        record db {
          match_scores = db.match_scores ++ (added ∷ []);
          next_id = db.next_id + 1;
          reads = db.reads + 1;
        },
      )

  unfoldable pub store_outcomes : List (OfferRow × Option Verdict) → Db → List MatchScoreRow × Db
  unfolding store_outcome
  store_outcomes [] db = ([], db)
  store_outcomes (outcome ∷ outcomes) db =
      let (added, db') = store_outcome outcome db in
      let (results, db'') = store_outcomes outcomes db' in (added ++ results, db'')

  -- What is stored of the outcomes, or nothing after an exception.
  unfoldable pub store_gathered :
      Option (List (OfferRow × Option Verdict)) → Db → Option (List MatchScoreRow) × Db
  unfolding store_outcomes
  store_gathered none db = (none, db)
  store_gathered (some outcomes) db =
      let (results, db') = store_outcomes outcomes db in (some results, db')

  -- `score_offers_with_langchain`, over `Profile(**profile_row.data)`; none is an exception.
  unfoldable pub score_offers_with_langchain :
      (Profile → Matcher)
      → List String
      → Option Profile
      → List Candidate
      → Db
      → Option (List MatchScoreRow) × Db
  unfolding store_gathered gather
  score_offers_with_langchain matcher connectors profile [] db = (some [], db)
  score_offers_with_langchain matcher connectors none (c ∷ cs) db = (none, db)
  score_offers_with_langchain matcher connectors (some profile) (c ∷ cs) db =
      store_gathered (gather (matcher profile) connectors (c ∷ cs)) db

pub record BatchScoringSummary : Type 0 where
  pub scored : ℕ
  pub skipped : ℕ
  pub failed : ℕ
  pub remaining : ℕ

-- `_count_already_scored`
unfoldable pub count_already_scored : ℕ → List String → Db → ℕ
unfolding filter already_scored join_sources
count_already_scored profile_id connectors db = length (
    filter (λ (c : Candidate). in_scope connectors c.1 && already_scored profile_id db c.0.id)
      (join_sources db.sources db.offers))

-- `read_profile` is `Profile(**data)`, which gives none where pydantic raises.
module _ (host : Host) (read_profile : Fields → Option Profile) (matcher : Profile → Matcher)
    (connectors : List String) where
  -- The summary of a batch, from its page, the rows that it found scored, and its results.
  unfoldable pub summarize : List Candidate × ℕ → ℕ → List MatchScoreRow → BatchScoringSummary
  summarize (selected, total) already results = record {
    scored = length results;
    skipped = already;
    failed = length selected - length results;
    remaining = total - length selected;
  }

  -- The batch once its page was selected; none is an exception.
  unfoldable pub score_selected :
      ProfileRow → Option (List Candidate × ℕ) → Db → Option BatchScoringSummary × Db
  unfolding score_offers_with_langchain count_already_scored summarize
  score_selected profile none db = (none, db)
  score_selected profile (some selection) db =
      let (results, db') =
        score_offers_with_langchain host.clock profile.id matcher connectors
          (read_profile profile.payload) selection.0 db in
      (
        elim results [
          | none ↦ none
          | some rows ↦
              some (summarize selection (count_already_scored profile.id connectors db) rows)
        ],
        db',
      )

  -- The batch for the active profile: its page, its summary and what it leaves.
  unfoldable pub score_page : ProfileRow → ℕ → Db → Option BatchScoringSummary × Db
  unfolding select_scoring_candidates score_selected
  score_page profile limit db =
      let (selection, db') = select_scoring_candidates host profile.id connectors limit db in
      score_selected profile selection db'

  -- `_run_batch_scoring_locked`. The lock makes one batch a step.
  unfoldable pub run_batch_scoring : ℕ → Db → Option BatchScoringSummary × Db
  unfolding get_active_profile score_page
  run_batch_scoring limit db = elim (get_active_profile db) [
    | none ↦ (some (record { scored = 0; skipped = 0; failed = 0; remaining = 0 }), db)
    | some profile ↦ score_page profile limit db
  ]
