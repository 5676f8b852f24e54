-- ===== src/Scoring/Batch/Settled.antt =====
-- The rows of scoring failures: their keys name their offers, and a recorded failure is open for its
-- offer while every other stays open for its own.
use text.Mathlib.TextLemmas.{append_cancel_left, append_cancel_right}
use recru_flow.Base.{
  ℕ, String, ◌<>◌, ◌≡◌, refl, sym, ◌∙◌, inl, inr, Bool, true, ◌&&◌, ◌||◌, List, [], ◌∷◌, arith,
  str_eq, eq_iff, eq_refl, ◌==◌, Bool-cases, any, All,
}
use recru_flow.Data.Text.{show}
use recru_flow.Data.Text.Digits.{show_inj}
use recru_flow.Db.{Db, ScoringFailure}
use recru_flow.Dlq.Service.{scoring_failed, upsert_scoring}
use recru_flow.Scoring.Selection.{already_scored, has_open_failure}
use recru_flow.Scoring.Batch.{scoring_key}

-- The key of a scoring failure names its offer.
scoring_key_inj : (a b p : ℕ) → scoring_key a p ≡ scoring_key b p → a ≡ b
unfolding scoring_key
scoring_key_inj a b p e = show_inj a b (
    append_cancel_right (show a) (show b) (":profile:" <> show p)
      (append_cancel_left "offer:" _ _ e))

-- Every row has the key of its offer and profile.
abbrev pub Keyed : List ScoringFailure → Type 0
Keyed rows = All (λ (f : ScoringFailure). f.dedup_key ≡ scoring_key f.offer_id f.profile_id) rows

abbrev is_open_for : ℕ → ℕ → ScoringFailure → Bool
is_open_for p i f = f.profile_id == p && str_eq f.status "open" && f.offer_id == i

module _ (id o p now : ℕ) (text : String) where
  pub upsert_scoring-Keyed :
      (rows : List ScoringFailure)
      → Keyed rows
      → Keyed (upsert_scoring id (scoring_key o p) scoring_failed text o p now rows)
  unfolding upsert_scoring
  upsert_scoring-Keyed [] k = (refl, tt)
  upsert_scoring-Keyed (f ∷ rows) k = elim (Bool-cases (str_eq f.dedup_key (scoring_key o p))) [
    | inl hit ↦ rw hit ((eq_iff f.dedup_key (scoring_key o p)).0 hit, k.1)
    | inr miss ↦ rw miss (k.0, upsert_scoring-Keyed rows k.1)
  ]

  pub upsert_scoring-opens :
      (rows : List ScoringFailure)
      → any (is_open_for p o) (upsert_scoring id (scoring_key o p) scoring_failed text o p now rows)
        ≡ true
  unfolding upsert_scoring any
  upsert_scoring-opens [] = ground (arith, eq_refl "open")
  upsert_scoring-opens (f ∷ rows) = elim (Bool-cases (str_eq f.dedup_key (scoring_key o p))) [
    | inl hit ↦ rw hit (ground (arith, eq_refl "open"))
    | inr miss ↦ rw miss (ground (arith, upsert_scoring-opens rows))
  ]

  pub upsert_scoring-keeps :
      (i : ℕ) (rows : List ScoringFailure)
      → Keyed rows
      → any (is_open_for p i) rows ≡ true
      → any (is_open_for p i) (upsert_scoring id (scoring_key o p) scoring_failed text o p now rows)
        ≡ true
  unfolding upsert_scoring any
  upsert_scoring-keeps i [] k h = absurd (ground (arith, h))
  upsert_scoring-keeps i (f ∷ rows) k h = elim (Bool-cases (str_eq f.dedup_key (scoring_key o p))) [
    | inl hit ↦ rw hit (elim (Bool-cases (is_open_for p i f)) [
      | inl open_i ↦
          let same_profile : f.profile_id ≡ p = ground (arith, open_i) in
          let same_offer : f.offer_id ≡ i = ground (arith, open_i) in
          let same : i ≡ o = scoring_key_inj i o p (
            rw (same_profile, same_offer) at
              (sym k.0 ∙ (eq_iff f.dedup_key (scoring_key o p)).0 hit)) in
          ground (arith, eq_refl "open", same)
      | inr closed ↦ ground (arith, h, closed)
    ])
    | inr miss ↦ rw miss (elim (Bool-cases (is_open_for p i f)) [
      | inl open_i ↦ ground (arith, open_i)
      | inr closed ↦ ground (arith, h, closed, upsert_scoring-keeps i rows k.1)
    ])
  ]

-- An offer that a profile is done with: scored, or failed and not yet looked at.
abbrev pub settled : ℕ → Db → ℕ → Bool
settled p db i = already_scored p db i || has_open_failure p db i
