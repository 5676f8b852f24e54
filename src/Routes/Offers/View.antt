-- ===== src/Routes/Offers/View.antt =====
-- `_offer_summary`, `_offer_detail`, `get_offer` and `get_offer_score`.
use recru_flow.Base.{
  ℕ, String, Bool, ◌&&◌, Option, none, some, List, [], ◌∷◌, ltb, ◌==◌, if◌then◌else◌, filter, find,
}
use recru_flow.Base.Int.{ℤ, to_ℕ}
use recru_flow.Data.Text.{is_empty}
use recru_flow.Data.Json.{Fields}
use recru_flow.Db.{Db, OfferRow, Source, MatchScoreRow}
use recru_flow.Profiles.{get_active_profile}

pub record OfferSummary : Type 0 where
  pub id : ℕ
  pub source : String
  pub external_id : Option String
  pub canonical_url : Option String
  pub title : String
  pub company : String
  pub location : Option String
  pub remote : Bool
  pub seniority : Option String
  pub salary_min : Option ℤ
  pub salary_max : Option ℤ
  pub salary_currency : String
  pub contract_type : Option String
  pub posted_at : Option ℕ
  pub industry_tags : List String
  pub created_at : ℕ
  pub applied : Bool
  pub hide : Bool
  pub notes : Option String
  pub link_opened_at : Option ℕ
  pub score_percent : Option ℕ

pub record OfferDetail : Type 0 where
  pub summary : OfferSummary
  pub description : Option String
  pub raw_payload : Fields
  pub updated_at : ℕ

-- An answer, the status 404, or an exception, which becomes the status 500.
pub data Reply (A : Type 0) : Type 0 where
  ok : A → Reply A
  not_found : Reply A
  failed : Reply A

unfoldable pub offer_summary : OfferRow → String → Option ℕ → OfferSummary
offer_summary row source score_percent = record {
  id = row.id;
  source = source;
  external_id = row.offer.external_id;
  canonical_url = row.offer.canonical_url;
  title = row.offer.title;
  company = row.offer.company;
  location = row.offer.location;
  remote = row.offer.remote;
  seniority = row.offer.seniority;
  salary_min = row.offer.salary_min;
  salary_max = row.offer.salary_max;
  salary_currency = row.offer.salary_currency;
  contract_type = row.offer.contract_type;
  posted_at = row.offer.posted_at;
  industry_tags = row.offer.industry_tags;
  created_at = row.created_at;
  applied = row.applied;
  hide = row.hide;
  notes = row.notes;
  link_opened_at = row.link_opened_at;
  score_percent = score_percent;
}

unfoldable pub offer_detail : OfferRow → String → Option ℕ → OfferDetail
unfolding offer_summary
offer_detail row source score_percent = record {
  summary = offer_summary row source score_percent;
  description = row.offer.description;
  raw_payload = row.raw_payload;
  updated_at = row.updated_at;
}

-- `connector or name`
unfoldable pub source_label : Source → String
unfolding is_empty
source_label source = elim source.connector [
  | none ↦ source.name
  | some connector ↦ if is_empty connector then source.name else connector
]

-- `session.get(OfferModel, offer_id)`
unfoldable pub find_offer : ℕ → List OfferRow → Option OfferRow
unfolding find
find_offer id = find (λ (o : OfferRow). o.id == id)

unfoldable pub source_of : OfferRow → Db → Option Source
unfolding find
source_of row db = find (λ (s : Source). s.id == to_ℕ row.offer.source_id) db.sources

-- The row of the two with the later `created_at`.
abbrev newer_score : MatchScoreRow → Option MatchScoreRow → MatchScoreRow
newer_score m none = m
newer_score m (some n) = if ltb m.created_at n.created_at then n else m

-- `ORDER BY created_at DESC LIMIT 1`
unfoldable pub newest_score : List MatchScoreRow → Option MatchScoreRow
newest_score [] = none
newest_score (m ∷ ms) = some (newer_score m (newest_score ms))

unfoldable pub latest_match_score : ℕ → ℕ → Db → Option MatchScoreRow
unfolding newest_score filter
latest_match_score offer_id profile_id db = newest_score (
    filter (λ (m : MatchScoreRow). m.offer_id == offer_id && m.profile_id == profile_id)
      db.match_scores)

-- The latest score of an offer for the active profile, where there is one.
unfoldable pub active_match_score : ℕ → Db → Option MatchScoreRow
unfolding get_active_profile latest_match_score
active_match_score offer_id db = elim (get_active_profile db) [
  | none ↦ none
  | some profile ↦ latest_match_score offer_id profile.id db
]

abbrev pub percent_of : Option MatchScoreRow → Option ℕ
percent_of none = none
percent_of (some m) = some m.score_percent

-- The offer joined with its source.
unfoldable pub get_offer : ℕ → Db → Reply OfferDetail
unfolding find_offer source_of offer_detail source_label
get_offer offer_id db = elim (find_offer offer_id db.offers) [
  | none ↦ not_found
  | some row ↦ elim (source_of row db) [
    | none ↦ not_found
    | some source ↦ ok (offer_detail row (source_label source) none)
  ]
]

unfoldable pub get_offer_score : ℕ → Db → Reply (Option MatchScoreRow)
unfolding find_offer active_match_score
get_offer_score offer_id db = elim (find_offer offer_id db.offers) [
  | none ↦ not_found
  | some row ↦ ok (active_match_score offer_id db)
]
