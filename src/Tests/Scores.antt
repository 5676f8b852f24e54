-- ===== src/Tests/Scores.antt =====
-- Scoring at concrete inputs.
use recru_flow.Base.{
  ℕ, ◌+◌, ◌*◌, ◌/◌, min, max, String, ◌≡◌, refl, inl, Bool, true, false, Option, none, some, List,
  [], ◌∷◌, ◌==◌, if◌then◌else◌, any,
}
use recru_flow.Schemas.{validate_offer}
use recru_flow.Db.{ScoringFailure}
use recru_flow.Dlq.Service.{parse_failure_type}
use recru_flow.Data.Text.{strip}
use recru_flow.Profiles.{get_profile_by_id}
use recru_flow.Scoring.Retry.{
  get_offer, perform_scoring_retry, Settles, perform_scoring_retry-Settles,
}
use recru_flow.Data.Text.{contains, join}
use recru_flow.Schemas.{Offer, Profile, hard_skill_names}
use recru_flow.Scoring.Matcher.{
  Floats, MatcherOutput, base_percent, is_found, offer_haystack, score_offer,
}
use recru_flow.Scoring.Matcher.Vetoes.{lacks_skills, breaks_deal, score_offer-percent}
use recru_flow.Data.Json.{end, Fields}
use recru_flow.Db.{Db, OfferRow, ProfileRow}
use recru_flow.Profiles.{get_active_profile}
use recru_flow.Scoring.Selection.{Candidate, select_scoring_candidates}
use recru_flow.Scoring.Batch.{match, matcher_error, Matcher, BatchScoringSummary, run_batch_scoring}
use recru_flow.Scoring.Batch.Drained.{IsDrained, run_batch_scoring-IsDrained}
use recru_flow.Tests.Samples.{host, source, empty_db, offer_of}

abbrev row : ℕ → Option ℕ → OfferRow
row id posted_at = record {
  id = id;
  dedup_hash = "";
  offer = record (offer_of "Backend" "Acme" none) { posted_at = posted_at };
  applied = false;
  hide = false;
  notes = none;
  link_opened_at = none;
  raw_payload = end;
  created_at = 5;
  updated_at = 5;
}

abbrev profile : ProfileRow
profile = record {
  id = 1;
  name = "active-profile";
  status = "active";
  is_active = true;
  payload = end;
}

abbrev three_offers : Db
three_offers = record empty_db {
  offers = row 10 none ∷ row 11 (some 300) ∷ row 12 (some 400) ∷ [];
  profiles = profile ∷ [];
}

-- The matcher fails on one of the offers.
abbrev verdicts : Profile → Matcher
verdicts _ id offer = if id == 11 then matcher_error "timeout" else match 80 "fits"

-- A profile that asks for nothing.
abbrev nobody : Profile
nobody = record { skills = []; salary_min = none; salary_target = none; deal_breakers = [] }

abbrev read_any : Fields → Option Profile
read_any payload = some nobody

abbrev scope : List String
scope = "nofluffjobs" ∷ []

abbrev newest_two : List Candidate
newest_two = (row 12 (some 400), source) ∷ (row 11 (some 300), source) ∷ []

run_batch_scoring-IsDrained_example :
    (summary : BatchScoringSummary) × (after : Db) × (run_batch_scoring host read_any verdicts scope
        2 three_offers
      ≡ (some summary, after))
    × IsDrained 1 scope newest_two 3 2 summary after
unfolding get_active_profile select_scoring_candidates validate_offer strip
run_batch_scoring-IsDrained_example =
    run_batch_scoring-IsDrained host read_any verdicts scope 2 three_offers refl tt refl refl
      (refl, (refl, tt))

-- Numbers as hundredths.
abbrev hundredth_floats : Floats ℕ
hundredth_floats = record {
  hundredths = λ n. n;
  add = λ a b. a + b;
  multiply = λ a b. a * b / 100;
  smaller = λ a b. min a b;
  larger = λ a b. max a b;
  round = λ a. a / 100;
}

abbrev search_joined : List String → String → Bool
search_joined words haystack = contains haystack (join " " words)

abbrev answer : MatcherOutput ℕ
answer = record {
  skill_match = 90;
  salary_fit = 80;
  seniority_fit = 100;
  work_mode_location = 100;
  contract_type = 100;
  red_flags = 100;
  rationale = "a close fit";
}

abbrev wants_rust : Profile
wants_rust = record {
  skills = (record { name = "Rust"; hard = true }) ∷ (record { name = "Java"; hard = false }) ∷ [];
  salary_min = none;
  salary_target = none;
  deal_breakers = "on-site only" ∷ [];
}

abbrev rust_offer : Offer
rust_offer = record (offer_of "Rust developer" "Acme" none) { description = some "On site only" }

score_offer-percent_example :
    (percent : ℕ) × (rationale : String) × (score_offer hundredth_floats search_joined
        (inl answer)
        wants_rust
        rust_offer
      ≡ match percent rationale)
    × (percent ≡ (
        if lacks_skills search_joined wants_rust rust_offer
        then min (base_percent hundredth_floats answer wants_rust) 25
        else if breaks_deal search_joined wants_rust rust_offer
        then min (base_percent hundredth_floats answer wants_rust) 40
        else base_percent hundredth_floats answer wants_rust))
score_offer-percent_example =
    score_offer-percent hundredth_floats search_joined answer wants_rust rust_offer

-- The salary is not known, so it counts at most half; the offer names the skill and the deal-breaker.
score_example :
    (base_percent hundredth_floats answer wants_rust ≡ 84)
    × (lacks_skills search_joined wants_rust rust_offer ≡ false)
    × (breaks_deal search_joined wants_rust rust_offer ≡ true)
unfolding base_percent is_found hard_skill_names offer_haystack any
score_example = (refl, refl, refl)

abbrev failed_row : ScoringFailure
failed_row = record {
  id = 20;
  dedup_key = "offer:11:profile:1";
  failure_type = "scoring_failed";
  error_message = "timeout";
  status = "open";
  occurred_at = 6;
  resolved_at = none;
  offer_id = 11;
  profile_id = 1;
}

abbrev one_failed : Db
one_failed = record three_offers { scoring_failures = failed_row ∷ [] }

perform_scoring_retry-Settles_example :
    (after : Db) × (perform_scoring_retry host.clock read_any
        (λ _ _. match 60 "fits")
        failed_row
        one_failed
      ≡ some after)
    × Settles host.clock read_any failed_row 11 1 (match 60 "fits") one_failed after
unfolding parse_failure_type get_offer get_profile_by_id validate_offer strip
perform_scoring_retry-Settles_example =
    perform_scoring_retry-Settles host.clock read_any (λ _ _. match 60 "fits") failed_row one_failed
      refl refl refl refl refl
