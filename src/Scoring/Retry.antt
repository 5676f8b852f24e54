-- ===== src/Scoring/Retry.antt =====
-- app/dlq/retry.py: the retry of a scoring failure. On such a row the handlers of the other types raise,
-- since they read columns that it does not have.
use recru_flow.Base.{
  ℕ, ◌+◌, String, ◌≡◌, refl, ◌∙◌, inl, inr, true, ◌&&◌, Option, none, some, List, [], ◌∷◌, ◌++◌,
  map, arith, ◌==◌, if◌then◌else◌, Bool-cases, any, find, All, any-append,
}
use recru_flow.Data.Json.{Fields}
use recru_flow.Schemas.{Profile, Offer, validate_offer}
use recru_flow.Db.{Db, OfferRow, ProfileRow, MatchScoreRow, ScoringFailure, utcnow}
use recru_flow.Dlq.Service.{scoring_failed, parse_failure_type}
use recru_flow.Profiles.{get_profile_by_id}
use recru_flow.Scoring.Selection.{already_scored}
use recru_flow.Scoring.Batch.{Verdict, match, matcher_error, score_row}

-- `session.get(Offer, id)`
unfoldable pub get_offer : ℕ → Db → Option OfferRow
unfolding find
get_offer id db = find (λ (o : OfferRow). o.id == id) db.offers

unfoldable pub update_failures :
    ℕ → (ScoringFailure → ScoringFailure) → List ScoringFailure → List ScoringFailure
update_failures id change [] = []
update_failures id change (row ∷ rows) =
    (if row.id == id then change row else row) ∷ update_failures id change rows

-- The columns that the two ends write.
abbrev pub closed_columns : ℕ → ScoringFailure → ScoringFailure
closed_columns now row = record row { status = "resolved"; resolved_at = some now }

abbrev pub marked_columns : String → ℕ → ScoringFailure → ScoringFailure
marked_columns message now row = record row { error_message = message; occurred_at = now }

-- `read_profile` is `Profile(**data)`, which gives none where pydantic raises.
module _ (clock : ℕ → ℕ) (read_profile : Fields → Option Profile) where
  -- `_mark_still_failing`, and the commit.
  unfoldable pub mark_scoring : ScoringFailure → String → Db → Db
  unfolding utcnow update_failures
  mark_scoring row message db =
      let (now, db') = utcnow clock db in
      record db' {
        scoring_failures = update_failures row.id (marked_columns message now) db.scoring_failures;
      }

  -- The new score, the row that is resolved, and the commit.
  unfoldable pub resolve_scoring : ScoringFailure → ℕ → ℕ → ℕ × String → Db → Db
  unfolding utcnow update_failures score_row
  resolve_scoring row offer_id profile_id (percent, rationale) db =
      let (now, db') = utcnow clock db in
      record db' {
        scoring_failures = update_failures row.id (closed_columns now) db.scoring_failures;
        match_scores =
            db.match_scores
            ++ (score_row db.next_id offer_id profile_id percent rationale (clock db'.reads) ∷ []);
        next_id = db.next_id + 1;
        reads = db'.reads + 1;
      }

  -- What the matcher says is settled.
  unfoldable pub after_verdict : ScoringFailure → ℕ → ℕ → Verdict → Db → Db
  unfolding mark_scoring resolve_scoring
  after_verdict row offer_id profile_id (matcher_error text) db = mark_scoring row text db
  after_verdict row offer_id profile_id (match percent rationale) db =
      resolve_scoring row offer_id profile_id (percent, rationale) db

  -- `_retry_scoring_failed` with the end of `perform_retry`; the stored offer is validated again, the
  -- stored profile is read, and `none` is an exception.
  unfoldable pub retry_rows_of :
      (Profile → Offer → Verdict)
      → ScoringFailure
      → Option OfferRow
      → Option ProfileRow
      → Db
      → Option Db
  unfolding mark_scoring after_verdict
  retry_rows_of matcher row (some offer_row) (some profile_row) db =
      elim (validate_offer offer_row.offer) [
        | none ↦ none
        | some offer ↦ elim (read_profile profile_row.payload) [
          | none ↦ none
          | some profile ↦
              some (after_verdict row offer_row.id profile_row.id (matcher profile offer) db)
        ]
      ]
  retry_rows_of matcher row _ _ db =
      some (mark_scoring row "cannot retry: offer or profile no longer exists" db)

  unfoldable pub perform_scoring_retry :
      (Profile → Offer → Verdict) → ScoringFailure → Db → Option Db
  unfolding parse_failure_type retry_rows_of get_offer get_profile_by_id
  perform_scoring_retry matcher row db = elim (parse_failure_type row.failure_type) [
    | some scoring_failed ↦
        retry_rows_of matcher row (get_offer row.offer_id db) (get_profile_by_id row.profile_id db)
          db
    | _ ↦ none
  ]

abbrev pub IsResolved : ℕ → List ScoringFailure → Type 0
IsResolved id rows = All (λ (f : ScoringFailure). f.id ≡ id → f.status ≡ "resolved") rows

All-closed :
    (id now : ℕ) (rows : List ScoringFailure)
    → IsResolved id (update_failures id (closed_columns now) rows)
unfolding update_failures
All-closed id now [] = tt
All-closed id now (row ∷ rows) = elim (Bool-cases (row.id == id)) [
  | inl hit ↦ rw hit ((λ _. refl), All-closed id now rows)
  | inr miss ↦ rw miss ((λ e. absurd (ground (arith, e, miss))), All-closed id now rows)
]

statuses-marked :
    (id now : ℕ) (message : String) (rows : List ScoringFailure)
    → map (λ (f : ScoringFailure). f.status) (update_failures id (marked_columns message now) rows)
      ≡ map (λ (f : ScoringFailure). f.status) rows
unfolding update_failures
statuses-marked id now message [] = refl
statuses-marked id now message (row ∷ rows) = ground (arith, statuses-marked id now message rows)

module _ (clock : ℕ → ℕ) (read_profile : Fields → Option Profile) where
  -- A verdict against the tables that it leaves: with a score the failure is resolved and the offer
  -- counts as scored; without one no status and no score changes.
  abbrev pub Settles : ScoringFailure → ℕ → ℕ → Verdict → Db → Db → Type 0
  Settles row offer_id profile_id (match percent rationale) db after =
      IsResolved row.id after.scoring_failures × (already_scored profile_id after offer_id ≡ true)
  Settles row offer_id profile_id (matcher_error text) db after =
      (map (λ (f : ScoringFailure). f.status) after.scoring_failures
        ≡ map (λ (f : ScoringFailure). f.status) db.scoring_failures)
      × (after.match_scores ≡ db.match_scores)

  after_verdict-Settles :
      (row : ScoringFailure) (offer_id profile_id : ℕ) (verdict : Verdict) (db : Db)
      → Settles row offer_id profile_id verdict db
          (after_verdict clock read_profile row offer_id profile_id verdict db)
  unfolding after_verdict mark_scoring resolve_scoring utcnow already_scored score_row any
  after_verdict-Settles row offer_id profile_id (matcher_error text) db =
      (statuses-marked row.id (clock db.reads) text db.scoring_failures, refl)
  after_verdict-Settles row offer_id profile_id (match percent rationale) db = (
    All-closed row.id (clock db.reads) db.scoring_failures,
    any-append (λ (m : MatchScoreRow). m.profile_id == profile_id && m.offer_id == offer_id)
          db.match_scores
          (score_row db.next_id offer_id profile_id percent rationale (clock (db.reads + 1)) ∷ [])
        ∙ ground arith,
  )

  -- The retry of a scoring failure whose offer and profile exist, with an offer that is still valid and a
  -- profile that still reads: it returns, and settles the row by what the matcher says now.
  pub perform_scoring_retry-Settles :
      (matcher : Profile → Offer → Verdict) (row : ScoringFailure) (db : Db) {offer_row : OfferRow}
      {profile_row : ProfileRow} {profile : Profile} {offer : Offer}
      → parse_failure_type row.failure_type ≡ some scoring_failed
      → get_offer row.offer_id db ≡ some offer_row
      → get_profile_by_id row.profile_id db ≡ some profile_row
      → validate_offer offer_row.offer ≡ some offer
      → read_profile profile_row.payload ≡ some profile
      → (after : Db) × (perform_scoring_retry clock read_profile matcher row db ≡ some after)
        × Settles row offer_row.id profile_row.id (matcher profile offer) db after
  unfolding perform_scoring_retry retry_rows_of
  perform_scoring_retry-Settles matcher row db {offer_row} {profile_row} {profile} {offer} known o p
        v reads =
      (
        after_verdict clock read_profile row offer_row.id profile_row.id (matcher profile offer) db,
        rw (known, o, p, perform_scoring_retry, v, retry_rows_of, reads) refl,
        after_verdict-Settles row offer_row.id profile_row.id (matcher profile offer) db,
      )
