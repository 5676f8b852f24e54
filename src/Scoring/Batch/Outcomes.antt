-- ===== src/Scoring/Batch/Outcomes.antt =====
-- The loop over the outcomes of a batch keeps what was settled, and settles what it comes to.
use recru_flow.Base.{
  ℕ, ◌≤◌, ◌≡◌, refl, ◌∙◌, true, ◌&&◌, Option, none, some, List, [], ◌∷◌, ◌++◌, arith, ◌==◌, length,
  any, length-append, any-append,
}
use recru_flow.Db.{Db, OfferRow, MatchScoreRow}
use recru_flow.Dlq.Service.{record_scoring_failure}
use recru_flow.Scoring.Selection.{already_scored, has_open_failure}
use recru_flow.Scoring.Batch.Settled.{
  Keyed, settled, upsert_scoring-Keyed, upsert_scoring-opens, upsert_scoring-keeps,
}
use recru_flow.Scoring.Batch.{
  Verdict, match, matcher_error, score_row, store_outcome, store_outcomes,
}

module _ (clock : ℕ → ℕ) (p : ℕ) where
  already_scored-snoc :
      (i : ℕ) (m : MatchScoreRow) (rows : List MatchScoreRow)
      → any (λ (x : MatchScoreRow). x.profile_id == p && x.offer_id == i) rows ≡ true
      → any (λ (x : MatchScoreRow). x.profile_id == p && x.offer_id == i) (rows ++ (m ∷ [])) ≡ true
  already_scored-snoc i m rows h =
      any-append (λ (x : MatchScoreRow). x.profile_id == p && x.offer_id == i) rows (m ∷ [])
      ∙ rw h refl

  pub store_outcome-Keyed :
      (outcome : OfferRow × Option Verdict) (db : Db)
      → Keyed db.scoring_failures
      → Keyed (store_outcome clock p outcome db).1.scoring_failures
  unfolding store_outcome record_scoring_failure
  store_outcome-Keyed (row, none) db k = k
  store_outcome-Keyed (row, some (matcher_error text)) db k =
      upsert_scoring-Keyed db.next_id row.id p (clock db.reads) text db.scoring_failures k
  store_outcome-Keyed (row, some (match percent rationale)) db k = k

  store_outcome-keeps :
      (i : ℕ) (outcome : OfferRow × Option Verdict) (db : Db)
      → Keyed db.scoring_failures
      → settled p db i ≡ true
      → settled p (store_outcome clock p outcome db).1 i ≡ true
  unfolding store_outcome record_scoring_failure already_scored has_open_failure any
  store_outcome-keeps i (row, none) db k h = h
  store_outcome-keeps i (row, some (matcher_error text)) db k h = ground (
    arith,
    h,
    upsert_scoring-keeps db.next_id row.id p (clock db.reads) text i db.scoring_failures k,
  )
  store_outcome-keeps i (row, some (match percent rationale)) db k h = ground (
    arith,
    h,
    already_scored-snoc i (score_row db.next_id row.id p percent rationale (clock db.reads))
        db.match_scores,
  )

  pub store_outcome-settles :
      (row : OfferRow) (verdict : Verdict) (db : Db)
      → settled p (store_outcome clock p (row, some verdict) db).1 row.id ≡ true
  unfolding store_outcome record_scoring_failure already_scored has_open_failure score_row any
  store_outcome-settles row (matcher_error text) db =
      ground
        (arith, upsert_scoring-opens db.next_id row.id p (clock db.reads) text db.scoring_failures)
  store_outcome-settles row (match percent rationale) db = ground (
    arith,
    any-append (λ (x : MatchScoreRow). x.profile_id == p && x.offer_id == row.id) db.match_scores
        (score_row db.next_id row.id p percent rationale (clock db.reads) ∷ []),
  )

  -- The loop keeps what was settled, and settles each offer that the matcher spoke of.
  pub store_outcomes-keeps :
      (i : ℕ) (outcomes : List (OfferRow × Option Verdict)) (db : Db)
      → Keyed db.scoring_failures
      → settled p db i ≡ true
      → settled p (store_outcomes clock p outcomes db).1 i ≡ true
  unfolding store_outcomes
  store_outcomes-keeps i [] db k h = h
  store_outcomes-keeps i (outcome ∷ outcomes) db k h =
      store_outcomes-keeps i outcomes (store_outcome clock p outcome db).1
        (store_outcome-Keyed outcome db k) (store_outcome-keeps i outcome db k h)

  pub store_outcomes-Keyed :
      (outcomes : List (OfferRow × Option Verdict)) (db : Db)
      → Keyed db.scoring_failures
      → Keyed (store_outcomes clock p outcomes db).1.scoring_failures
  unfolding store_outcomes
  store_outcomes-Keyed [] db k = k
  store_outcomes-Keyed (outcome ∷ outcomes) db k =
      store_outcomes-Keyed outcomes (store_outcome clock p outcome db).1
        (store_outcome-Keyed outcome db k)

  length-store_outcome :
      (outcome : OfferRow × Option Verdict) (db : Db)
      → length (store_outcome clock p outcome db).0 ≤ 1
  unfolding store_outcome
  length-store_outcome (row, none) db = omega arith
  length-store_outcome (row, some (matcher_error text)) db = omega arith
  length-store_outcome (row, some (match percent rationale)) db = omega arith

  pub length-store_outcomes :
      (outcomes : List (OfferRow × Option Verdict)) (db : Db)
      → length (store_outcomes clock p outcomes db).0 ≤ length outcomes
  unfolding store_outcomes
  length-store_outcomes [] db = omega arith
  length-store_outcomes (outcome ∷ outcomes) db = omega (
    arith,
    length-store_outcome outcome db,
    length-append (store_outcome clock p outcome db).0
        (store_outcomes clock p outcomes (store_outcome clock p outcome db).1).0,
    length-store_outcomes outcomes (store_outcome clock p outcome db).1,
  )
