-- ===== src/Schemas.antt =====
-- app/schemas: the records that validation gives, and the checks that it makes after the types.
-- The conversion of raw values to the field types is pydantic's (`Ingestion.Persist`).
use Prim.Native.String.{count}
use recru_flow.Base.{
  ℕ, String, Bool, true, ◌&&◌, Option, none, some, List, map, leb, if◌then◌else◌, filter,
}
use recru_flow.Base.Int.{ℤ, is_pos, is_nonneg, leb_ℤ}
use recru_flow.Data.Text.{strip, is_empty}

-- `Offer` of schemas/offer.py. Numbers that the constraints bound from below are integers first.
pub record Offer : Type 0 where
  pub source_id : ℤ
  pub external_id : Option String
  pub canonical_url : Option String
  pub title : String
  pub company : String
  pub location : Option String
  pub remote : Bool
  pub seniority : Option String
  pub salary_min : Option ℤ
  pub salary_max : Option ℤ
  pub salary_currency : String
  pub contract_type : Option String
  -- A moment, in microseconds.
  pub posted_at : Option ℕ
  pub description : Option String
  pub industry_tags : List String

abbrev strip_opt : Option String → Option String
strip_opt none = none
strip_opt (some s) = some (strip s)

-- `str_strip_whitespace=True`
unfoldable pub stripped : Offer → Offer
stripped o = record o {
  external_id = strip_opt o.external_id;
  canonical_url = strip_opt o.canonical_url;
  title = strip o.title;
  company = strip o.company;
  location = strip_opt o.location;
  seniority = strip_opt o.seniority;
  salary_currency = strip o.salary_currency;
  contract_type = strip_opt o.contract_type;
  description = strip_opt o.description;
  industry_tags = map strip o.industry_tags;
}

abbrev max_length : ℕ → Option String → Bool
max_length n none = true
max_length n (some s) = leb (count s) n

abbrev length_within : ℕ → ℕ → String → Bool
length_within lo hi s = leb lo (count s) && leb (count s) hi

abbrev nonneg : Option ℤ → Bool
nonneg none = true
nonneg (some n) = is_nonneg n

-- The `Field` constraints.
unfoldable pub fields_ok : Offer → Bool
fields_ok o =
    is_pos o.source_id
    && max_length 255 o.external_id
    && max_length 2048 o.canonical_url
    && length_within 1 500 o.title
    && length_within 1 255 o.company
    && max_length 50 o.seniority
    && nonneg o.salary_min
    && nonneg o.salary_max
    && length_within 3 3 o.salary_currency
    && max_length 50 o.contract_type

-- `_check_salary_range`
unfoldable pub salary_range_ok : Offer → Bool
salary_range_ok o = elim o.salary_min [
  | none ↦ true
  | some lo ↦ elim o.salary_max [ none ↦ true | some hi ↦ leb_ℤ lo hi ]
]

-- `_empty_canonical_url_to_none`
unfoldable pub empty_canonical_url_to_none : Offer → Offer
unfolding is_empty
empty_canonical_url_to_none o = elim o.canonical_url [
  | none ↦ o
  | some url ↦ if is_empty url then record o { canonical_url = none } else o
]

-- `Offer.model_validate` of typed fields: `none` for a `ValidationError`.
unfoldable pub validate_offer : Offer → Option Offer
unfolding stripped fields_ok salary_range_ok empty_canonical_url_to_none
validate_offer draft =
    let o = empty_canonical_url_to_none (stripped draft) in
    if fields_ok (stripped draft) && salary_range_ok o then some o else none

-- `Skill` and the fields of `Profile` of schemas/profile.py that the program reads.
pub record Skill : Type 0 where
  pub name : String
  pub hard : Bool

pub record Profile : Type 0 where
  pub skills : List Skill
  pub salary_min : Option ℤ
  pub salary_target : Option ℤ
  pub deal_breakers : List String

unfoldable pub hard_skill_names : Profile → List String
unfolding filter
hard_skill_names profile =
    map (λ (s : Skill). s.name) (filter (λ (s : Skill). s.hard) profile.skills)

-- `_check_salary_target_not_below_min`
unfoldable pub salary_target_ok : Profile → Bool
salary_target_ok p = elim p.salary_min [
  | none ↦ true
  | some lo ↦ elim p.salary_target [ none ↦ true | some target ↦ leb_ℤ lo target ]
]
