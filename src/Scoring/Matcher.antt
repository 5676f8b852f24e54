-- ===== src/Scoring/Matcher.antt =====
-- app/llm/matcher.py: the score of one offer, from what the model says of it.
pub mod Vetoes
use Prim.Native.Char.{Char, code}
use recru_flow.Base.{
  ℕ, zero, suc, ◌+◌, ◌-◌, ◌*◌, ◌/◌, ◌%◌, ◌≤◌, ◌<◌, min, max, String, ◌<>◌, ◌≡◌, refl, sym, ap, ◌∙◌,
  ◌≢◌, ◌↔◌, ◌⊎◌, inl, inr, Bool, true, false, not, ◌&&◌, ◌||◌, Option, none, some, List, [], ◌∷◌,
  ◌++◌, map, foldl, append-nil, append_assoc, arith, str_eq, eq_iff, eq_refl, ltb, leb, ◌==◌,
  if◌then◌else◌, ltb→lt, lt→ltb, leb→le, le→leb, ==_iff, tests, Bool-cases, Option-cases, is_none,
  is_some, get_or, or_else, length, get_elem?, take, drop, filter, any, all, find, All,
  length-append, length-take, length-drop, take-append-drop, length-filter-le, any-append,
  filter-append, All-append, All-map, All-filter, length-filter-not, length-map,
}
use recru_flow.Data.Text.{is_space, is_empty, strip, lower, join, contains, show}
use recru_flow.Schemas.{Offer, Profile, hard_skill_names}
use recru_flow.Scoring.Batch.{Verdict, match, matcher_error}

-- The numbers of the model's answer are floats: their literals in hundredths, their arithmetic, and
-- `round` of a number that is not negative.
pub record Floats (F : Type 0) : Type 0 where
  pub hundredths : ℕ → F
  pub add : F → F → F
  pub multiply : F → F → F
  pub smaller : F → F → F
  pub larger : F → F → F
  pub round : F → ℕ

-- `_MatcherOutput`
pub record MatcherOutput (F : Type 0) : Type 0 where
  pub skill_match : F
  pub salary_fit : F
  pub seniority_fit : F
  pub work_mode_location : F
  pub contract_type : F
  pub red_flags : F
  pub rationale : String

-- `re.split(r"[\s\-_/]+")` of the text, with its empty words left out: the word that is being read,
-- and the rest of the text.
abbrev is_separator : Char → Bool
is_separator c = is_space c || code c == b'-' || code c == b'_' || code c == b'/'

unfoldable pub words : String → String → List String
unfolding is_empty
words word String.[] = if is_empty word then [] else word ∷ []
words word (String.◌∷◌ c s) =
    let later = words "" s in
    if is_separator c
    then (if is_empty word then later else word ∷ later)
    else words (word <> String.◌∷◌ c String.[]) s

unfoldable pub tokenize : String → List String
unfolding words strip lower
tokenize text = words "" (lower (strip text))

-- The texts of an offer that are not empty, in one.
unfoldable pub offer_haystack : Offer → String
unfolding filter lower join is_empty
offer_haystack offer = lower (
    join " " (
      filter (λ s. not (is_empty s))
        (offer.title
          ∷ get_or offer.description ""
          ∷ offer.company
          ∷ get_or offer.contract_type ""
          ∷ get_or offer.location ""
          ∷ [])))

-- `search` is `re.search` for the pattern that the code makes of some words: at word boundaries, the
-- words with separators or nothing between them.
module _ (search : List String → String → Bool) where
  -- A phrase that has words, and is found.
  unfoldable pub is_found : String → String → Bool
  unfolding tokenize
  is_found haystack phrase = ltb 0 (length (tokenize phrase)) && search (tokenize phrase) haystack

  unfoldable pub deal_breaker_hit : Profile → Offer → Option String
  unfolding find is_found offer_haystack
  deal_breaker_hit profile offer = find (is_found (offer_haystack offer)) profile.deal_breakers

  -- The loop over the hard skills: the first that is found clears the veto.
  unfoldable pub none_found : String → List String → Bool
  unfolding is_found
  none_found haystack [] = true
  none_found haystack (skill ∷ skills) =
      let rest = none_found haystack skills in if is_found haystack skill then false else rest

  unfoldable pub missing_hard_skills : Profile → Offer → Bool
  unfolding none_found hard_skill_names offer_haystack
  missing_hard_skills profile offer =
      if ltb 0 (length (hard_skill_names profile))
      then none_found (offer_haystack offer) (hard_skill_names profile)
      else false

module _ {F : Type 0} (floats : Floats F) where
  -- `_clamp_to_unit_interval`
  unfoldable pub clamp_to_unit_interval : F → F
  clamp_to_unit_interval value =
      floats.larger (floats.hundredths 0) (floats.smaller (floats.hundredths 100) value)

  -- `_weighted_total`, from zero and in the order of the weights.
  unfoldable pub weighted_total : MatcherOutput F → F
  weighted_total output =
      foldl
        (λ (total : F) (term : F × ℕ).
          floats.add total (floats.multiply term.0 (floats.hundredths term.1)))
        (floats.hundredths 0)
        ((output.skill_match, 30)
          ∷ (output.salary_fit, 25)
          ∷ (output.seniority_fit, 15)
          ∷ (output.work_mode_location, 15)
          ∷ (output.contract_type, 10)
          ∷ (output.red_flags, 5)
          ∷ [])

  -- `_apply_missing_salary_conservatism`
  unfoldable pub apply_missing_salary_conservatism : MatcherOutput F → Profile → MatcherOutput F
  unfolding contains lower
  apply_missing_salary_conservatism output profile =
      if is_none profile.salary_min && is_none profile.salary_target
      then record output {
        salary_fit = floats.smaller output.salary_fit (floats.hundredths 50);
        rationale =
            if contains (lower output.rationale) "salary"
            then output.rationale
            else output.rationale
              <> " No salary preference was provided in the profile, so salary fit was scored conservatively.";
      }
      else output

  -- The percentage before any veto.
  unfoldable pub base_percent : MatcherOutput F → Profile → ℕ
  unfolding weighted_total apply_missing_salary_conservatism
  base_percent output profile = floats.round (
      floats.multiply (weighted_total (apply_missing_salary_conservatism output profile))
        (floats.hundredths 10000))

-- The two vetoes on a percentage and its rationale.
unfoldable pub cap_deal_breaker : Option String → ℕ × String → ℕ × String
cap_deal_breaker none scored = scored
cap_deal_breaker (some deal_breaker) (percent, rationale) = (
  min percent 40,
  rationale <> (" Deal-breaker matched: '" <> (deal_breaker <> "'; score capped at 40.")),
)

unfoldable pub cap_missing_skills : Bool → List String → ℕ × String → ℕ × String
unfolding join
cap_missing_skills false skills scored = scored
cap_missing_skills true skills (percent, rationale) = (
  min percent 25,
  rationale
      <> (" None of the required hard skills ("
          <> (join ", " skills <> ") were found in this offer; score capped at 25.")),
)

module _ {F : Type 0} (floats : Floats F) (search : List String → String → Bool) where
  -- `_score_offer`, from the answer of the chain, or the text of its exception.
  unfoldable pub score_offer : MatcherOutput F ⊎ String → Profile → Offer → Verdict
  unfolding base_percent cap_deal_breaker cap_missing_skills deal_breaker_hit missing_hard_skills
      apply_missing_salary_conservatism
  score_offer (inr description) profile offer =
      matcher_error ("LangChain matcher failed: " <> description)
  score_offer (inl output) profile offer =
      let (percent, rationale) =
        cap_missing_skills (missing_hard_skills search profile offer) (hard_skill_names profile) (
          cap_deal_breaker (deal_breaker_hit search profile offer) (
            base_percent floats output profile,
            (apply_missing_salary_conservatism floats output profile).rationale,
          )) in
      match percent rationale
