-- ===== src/Scoring/Matcher/Vetoes.antt =====
-- The score of an offer, in one formula: the weighted sum under the lower of the vetoes that apply.
use recru_flow.Base.{
  ℕ, min, String, ◌≡◌, refl, inl, Bool, true, false, not, ◌&&◌, Option, none, some, List, [], ◌∷◌,
  arith, ltb, if◌then◌else◌, is_some, length, any, find,
}
use recru_flow.Schemas.{Offer, Profile, hard_skill_names}
use recru_flow.Scoring.Batch.{match}
use recru_flow.Scoring.Matcher.{
  Floats, MatcherOutput, offer_haystack, is_found, deal_breaker_hit, none_found,
  missing_hard_skills, base_percent, cap_deal_breaker, cap_missing_skills, score_offer,
  apply_missing_salary_conservatism,
}

is_some-find {ℓ} : {A : Type ℓ} (p : A → Bool) (xs : List A) → is_some (find p xs) ≡ any p xs
unfolding find any
is_some-find p [] = refl
is_some-find p (x ∷ xs) = ground (arith, is_some-find p xs)

module _ (search : List String → String → Bool) where
  none_found-any :
      (haystack : String) (skills : List String)
      → none_found search haystack skills ≡ not (any (is_found search haystack) skills)
  unfolding none_found any
  none_found-any haystack [] = refl
  none_found-any haystack (skill ∷ skills) = ground (arith, none_found-any haystack skills)

  -- The profile asks for a skill, and the offer names none of those it asks for.
  abbrev pub lacks_skills : Profile → Offer → Bool
  lacks_skills profile offer =
      ltb 0 (length (hard_skill_names profile))
      && not (any (is_found search (offer_haystack offer)) (hard_skill_names profile))

  -- The offer names a deal-breaker of the profile.
  abbrev pub breaks_deal : Profile → Offer → Bool
  breaks_deal profile offer = any (is_found search (offer_haystack offer)) profile.deal_breakers

  missing_hard_skills-lacks :
      (profile : Profile) (offer : Offer)
      → missing_hard_skills search profile offer ≡ lacks_skills profile offer
  unfolding missing_hard_skills
  missing_hard_skills-lacks profile offer =
      ground (arith, none_found-any (offer_haystack offer) (hard_skill_names profile))

  deal_breaker_hit-breaks :
      (profile : Profile) (offer : Offer)
      → is_some (deal_breaker_hit search profile offer) ≡ breaks_deal profile offer
  unfolding deal_breaker_hit
  deal_breaker_hit-breaks profile offer =
      is_some-find (is_found search (offer_haystack offer)) profile.deal_breakers

cap_deal_breaker-percent :
    (hit : Option String) (scored : ℕ × String)
    → (cap_deal_breaker hit scored).0 ≡ (if is_some hit then min scored.0 40 else scored.0)
unfolding cap_deal_breaker
cap_deal_breaker-percent none scored = refl
cap_deal_breaker-percent (some deal_breaker) scored = refl

cap_missing_skills-percent :
    (missing : Bool) (skills : List String) (scored : ℕ × String)
    → (cap_missing_skills missing skills scored).0 ≡ (if missing then min scored.0 25 else scored.0)
unfolding cap_missing_skills
cap_missing_skills-percent true skills scored = refl
cap_missing_skills-percent false skills scored = refl

module _ {F : Type 0} (floats : Floats F) (search : List String → String → Bool) where
  -- The percentage of an answer: the weighted sum, at most 25 if the profile asks for skills of which
  -- the offer names none, and at most 40 if the offer names a deal-breaker.
  pub score_offer-percent :
      (output : MatcherOutput F) (profile : Profile) (offer : Offer)
      → (percent : ℕ) × (rationale : String) × (score_offer floats search (inl output) profile offer
          ≡ match percent rationale)
        × (percent ≡ (
            if lacks_skills search profile offer
            then min (base_percent floats output profile) 25
            else if breaks_deal search profile offer
            then min (base_percent floats output profile) 40
            else base_percent floats output profile))
  unfolding score_offer
  score_offer-percent output profile offer =
      let missing = missing_hard_skills search profile offer in
      let hit = deal_breaker_hit search profile offer in
      let rationale : String =
        (apply_missing_salary_conservatism floats output profile).rationale in
      let base : ℕ × String = (base_percent floats output profile, rationale) in
      let capped =
        cap_missing_skills missing (hard_skill_names profile) (cap_deal_breaker hit base) in
      (
        capped.0,
        capped.1,
        refl,
        ground (
          arith,
          cap_missing_skills-percent missing (hard_skill_names profile) (cap_deal_breaker hit base),
          cap_deal_breaker-percent hit base,
          missing_hard_skills-lacks search profile offer,
          deal_breaker_hit-breaks search profile offer,
        ),
      )
