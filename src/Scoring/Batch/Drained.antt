-- ===== src/Scoring/Batch/Drained.antt =====
-- A batch settles every offer of its page, so that the next batch does not take it up again.
use mathlib.Core.Path.{subst}
use recru_flow.Base.{
  ℕ, ◌+◌, ◌≤◌, String, ◌≡◌, refl, sym, ap, ◌∙◌, inl, inr, true, false, Option, none, some, List, [],
  ◌∷◌, map, arith, length, All, All-map, length-map, is_some, get_or, Option-cases,
}
use recru_flow.Data.Json.{Fields}
use recru_flow.Schemas.{Profile, validate_offer}
use recru_flow.Db.{Db, OfferRow, ProfileRow, MatchScoreRow}
use recru_flow.Ingestion.Persist.{Host}
use recru_flow.Profiles.{get_active_profile}
use recru_flow.Scoring.Selection.{Candidate, is_candidate, in_scope, select_scoring_candidates}
use recru_flow.Scoring.Selection.Page.{IsPage, PageIf, select_scoring_candidates-PageIf}
use recru_flow.Scoring.Batch.Settled.{Keyed, settled}
use recru_flow.Scoring.Batch.{
  Verdict, Matcher, process, gather, store_outcome, store_outcomes, store_gathered,
  score_offers_with_langchain, BatchScoringSummary, count_already_scored, summarize, score_selected,
  score_page, run_batch_scoring,
}
use recru_flow.Scoring.Batch.Outcomes.{
  store_outcome-Keyed, store_outcome-settles, store_outcomes-keeps, store_outcomes-Keyed,
  length-store_outcomes,
}

module _ (clock : ℕ → ℕ) (p : ℕ) where
  -- What `_process` gives for an offer in scope that validates.
  judge : Matcher → Candidate → OfferRow × Option Verdict
  judge matcher (row, source) =
      (row, some (matcher row.id (get_or (validate_offer row.offer) row.offer)))

  -- An offer that the batch can put to the matcher.
  abbrev pub CanProcess : List String → Candidate → Type 0
  CanProcess connectors c =
      (in_scope connectors c.1 ≡ true) × (is_some (validate_offer c.0.offer) ≡ true)

  process-judge :
      (matcher : Matcher) (connectors : List String) (c : Candidate)
      → CanProcess connectors c
      → process matcher connectors c ≡ some (judge matcher c)
  unfolding process judge
  process-judge matcher connectors (row, source) (scoped, valid) =
      elim (Option-cases (validate_offer row.offer)) [
        | inl refused ↦
            let never : false ≡ true = ap is_some (sym refused) ∙ valid in
            absurd (ground (arith, never))
        | inr (offer, e) ↦ rw (scoped, e, process, judge) refl
      ]

  gather-judge :
      (matcher : Matcher) (connectors : List String) (offers : List Candidate)
      → All (CanProcess connectors) offers
      → gather matcher connectors offers ≡ some (map (judge matcher) offers)
  unfolding gather
  gather-judge matcher connectors [] h = refl
  gather-judge matcher connectors (c ∷ offers) h =
      rw
        (process-judge matcher connectors c h.0, gather, gather-judge matcher connectors offers h.1)
        refl

  score_offers_with_langchain-judge :
      (matcher : Profile → Matcher) (connectors : List String) (profile : Profile)
      (offers : List Candidate) (db : Db)
      → All (CanProcess connectors) offers
      → score_offers_with_langchain clock p matcher connectors (some profile) offers db ≡ (
        some (store_outcomes clock p (map (judge (matcher profile)) offers) db).0,
        (store_outcomes clock p (map (judge (matcher profile)) offers) db).1,
      )
  unfolding score_offers_with_langchain store_gathered store_outcomes
  score_offers_with_langchain-judge matcher connectors profile [] db h = refl
  score_offers_with_langchain-judge matcher connectors profile (c ∷ offers) db h =
      ap (λ o. store_gathered clock p o db)
        (gather-judge (matcher profile) connectors (c ∷ offers) h)

  store_outcomes-settles :
      (matcher : Matcher) (offers : List Candidate) (db : Db)
      → Keyed db.scoring_failures
      → All
          (λ (c : Candidate).
            settled p (store_outcomes clock p (map (judge matcher) offers) db).1 c.0.id ≡ true)
          offers
  unfolding store_outcomes judge
  store_outcomes-settles matcher [] db k = tt
  store_outcomes-settles matcher ((row, source) ∷ offers) db k =
      let db' = (store_outcome clock p (judge matcher (row, source)) db).1 in
      (
        store_outcomes-keeps clock p row.id (map (judge matcher) offers) db'
            (store_outcome-Keyed clock p (judge matcher (row, source)) db k)
            (store_outcome-settles clock p row
              (matcher row.id (get_or (validate_offer row.offer) row.offer)) db),
        store_outcomes-settles matcher offers db'
            (store_outcome-Keyed clock p (judge matcher (row, source)) db k),
      )

settled-candidate :
    (p : ℕ) (connectors : List String) (db : Db) (c : Candidate)
    → settled p db c.0.id ≡ true
    → is_candidate p connectors db c ≡ false
unfolding is_candidate
settled-candidate p connectors db (row, source) h = ground (arith, h)

-- The batch for an active profile, against the page that it selects: its summary, and the database
-- that it leaves.
pub record IsDrained (profile_id : ℕ) (connectors : List String) (page : List Candidate)
    (total limit : ℕ) (summary : BatchScoringSummary) (after : Db) : Type 0 where
  pub every_offer : summary.scored + summary.failed ≡ length page
  pub every_candidate : summary.scored + summary.failed + summary.remaining ≡ total
  pub within : summary.scored + summary.failed ≤ limit
  -- Each offer of the page was a candidate, and has a score or an open failure now.
  pub done : All (λ (c : Candidate). settled profile_id after c.0.id ≡ true) page
  pub taken : All (λ (c : Candidate). is_candidate profile_id connectors after c ≡ false) page
  pub keyed : Keyed after.scoring_failures

module _ (host : Host) (read_profile : Fields → Option Profile) (matcher : Profile → Matcher)
    (connectors : List String) where
  score_selected-judge :
      (row : ProfileRow) {profile : Profile} (page : List Candidate) (total : ℕ) (db : Db)
      → read_profile row.payload ≡ some profile
      → All (CanProcess host.clock row.id connectors) page
      → let stored =
          store_outcomes host.clock row.id
            (map (judge host.clock row.id (matcher profile)) page)
            db in
        score_selected host read_profile matcher connectors row (some (page, total)) db ≡ (
          some (
              summarize host read_profile matcher connectors
                (page, total)
                (count_already_scored row.id connectors db)
                stored.0),
          stored.1,
        )
  unfolding score_selected
  score_selected-judge row {profile} page total db reads can =
      ap
        (λ (r : Option (List MatchScoreRow) × Db). (
          elim r.0 [
            | none ↦ none
            | some rows ↦ some (
                summarize host read_profile matcher connectors (page, total)
                  (count_already_scored row.id connectors db) rows)
          ],
          r.1,
        ))
        (ap (λ o. score_offers_with_langchain host.clock row.id matcher connectors o page db) reads
          ∙ score_offers_with_langchain-judge host.clock row.id matcher connectors profile page db
              can)

  -- If every scoring failure has the key of its offer and profile, the stored profile reads, the page
  -- is selected without an exception and its offers still validate, then a batch for the active
  -- profile returns, counts each offer of its page as scored or failed and the other candidates as
  -- remaining, stays within its limit, and leaves every offer of its page with a score or an open
  -- failure: none of them is a candidate afterwards. The keys stay as they should.
  pub run_batch_scoring-IsDrained :
      (limit : ℕ) (db : Db) {row : ProfileRow} {profile : Profile} {page : List Candidate}
      {total : ℕ}
      → get_active_profile db ≡ some row
      → Keyed db.scoring_failures
      → read_profile row.payload ≡ some profile
      → (select_scoring_candidates host row.id connectors limit db).0 ≡ some (page, total)
      → All (λ (c : Candidate). is_some (validate_offer c.0.offer) ≡ true) page
      → (summary : BatchScoringSummary) × (after : Db) × (run_batch_scoring host read_profile
            matcher connectors limit db
          ≡ (some summary, after))
        × IsDrained row.id connectors page total limit summary after
  unfolding run_batch_scoring score_page score_selected summarize select_scoring_candidates
  run_batch_scoring-IsDrained limit db {row} {profile} {page} {total} active k reads selects valid =
      let before = (select_scoring_candidates host row.id connectors limit db).1 in
      let outcomes = map (judge host.clock row.id (matcher profile)) page in
      let stored = store_outcomes host.clock row.id outcomes before in
      let is_page : IsPage row.id connectors limit db (page, total) =
        subst (PageIf row.id connectors limit db) selects
          (select_scoring_candidates-PageIf row.id connectors limit db host) in
      let few = length-store_outcomes host.clock row.id outcomes before in
      let same = length-map (judge host.clock row.id (matcher profile)) page in
      let settles = store_outcomes-settles host.clock row.id (matcher profile) page before k in
      (
        summarize host read_profile matcher connectors (page, total)
            (count_already_scored row.id connectors before) stored.0,
        stored.1,
        rw (active, run_batch_scoring, score_page, selects)
            (score_selected-judge row page total before reads
              (can_process page is_page.only_candidates valid)),
        record {
          every_offer = omega (arith, few, same);
          every_candidate = omega (arith, few, same, is_page.counted);
          within = omega (arith, few, same, is_page.counted);
          done = settles;
          taken =
              All-map _ _ (λ c h. settled-candidate row.id connectors stored.1 c h) page settles;
          keyed = store_outcomes-Keyed host.clock row.id outcomes before k;
        },
      )
    where
      can_process :
          (cs : List Candidate)
          → All (λ c. is_candidate row.id connectors db c ≡ true) cs
          → All (λ (c : Candidate). is_some (validate_offer c.0.offer) ≡ true) cs
          → All (CanProcess host.clock row.id connectors) cs
      can_process [] h v = tt
      can_process ((offer_row, source) ∷ cs) h v =
          ((ground (arith, is_candidate, h.0), v.0), can_process cs h.1 v.1)
