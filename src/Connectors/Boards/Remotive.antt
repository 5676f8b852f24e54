-- ===== src/Connectors/Boards/Remotive.antt =====
-- app/connectors/remotive.py
use recru_flow.Base.{
  ℕ, String, Bool, true, false, Option, none, some, List, [], ◌∷◌, ◌++◌, if◌then◌else◌, get_or,
}
use recru_flow.Data.Text.{is_empty}
use recru_flow.Data.Json.{Value, obj, arr, str, Fields, field, end, Items, to_list, get, truthy}
use recru_flow.Ingestion.Normalize.{extract_envelope_list, normalize_salary}
use recru_flow.Ingestion.Persist.{Host, str_of}
use recru_flow.Connectors.Payload.{id_text, either, texts_value, distinct_texts, mapped_with}
use recru_flow.Connectors.Http.{Fetched, got, nothing, blocked}
use recru_flow.Ingestion.Normalize.{entry, has_text}

abbrev pub default_categories : List String
default_categories = "software-development" ∷ "devops" ∷ "qa" ∷ "data" ∷ []

abbrev pub category_slug_to_name : List (String × String)
category_slug_to_name =
    ("software-development", "Software Development")
    ∷ ("devops", "Devops")
    ∷ ("qa", "Quality Assurance")
    ∷ ("data", "Data and Analytics")
    ∷ []

-- `_normalize_posted_at`; `isoformat_utc` reads a date and writes it with its zone, and gives nothing
-- where `fromisoformat` raises.
unfoldable pub normalize_posted_at : (String → Option String) → Value → Value
unfolding is_empty
normalize_posted_at isoformat_utc (str s) =
    if is_empty s then Value.null else str (get_or (isoformat_utc s) s)
normalize_posted_at isoformat_utc _ = Value.null

-- The tags that are texts.
unfoldable pub text_tags : List Value → List String
text_tags [] = []
text_tags (str s ∷ items) = s ∷ text_tags items
text_tags (_ ∷ items) = text_tags items

abbrev items_of : Value → List Value
items_of (arr items) = to_list items
items_of _ = []

-- `list(dict.fromkeys(category_prefix + tags))`
unfoldable pub industry_tags : Host → Value → Value → Items
unfolding text_tags distinct_texts texts_value truthy str_of
industry_tags host category tags = texts_value (
    distinct_texts
      ((if truthy category then str_of host category ∷ [] else []) ++ text_tags (items_of tags)))

unfoldable pub map_offer : (String → Option String) → Host → ℕ → Fields → Fields
unfolding normalize_posted_at industry_tags id_text normalize_salary get
map_offer isoformat_utc host source_id raw =
    mapped_with source_id
      (record {
        external_id = id_text host (get "id" raw);
        canonical_url = get "url" raw;
        title = either (get "title" raw) (str "");
        company = either (get "company_name" raw) (str "");
        location = either (get "candidate_required_location" raw) Value.null;
        remote = true;
        seniority = none;
        salary = normalize_salary host Value.null Value.null (str "USD");
        contract_type = Value.null;
        posted_at = normalize_posted_at isoformat_utc (get "publication_date" raw);
        description = get "description" raw;
      })
      (field "industry_tags" (arr (industry_tags host (get "category" raw) (get "tags" raw))) end)

-- `allowed_names`, of the slugs that the settings name.
unfoldable pub allowed_names : List String → List String
unfolding entry
allowed_names [] = []
allowed_names (slug ∷ slugs) =
    let rest = allowed_names slugs in
    elim (entry slug category_slug_to_name) [ none ↦ rest | some name ↦ name ∷ rest ]

-- `offer.get("category") in allowed_names`; a list or a dictionary cannot be looked up in a set, and
-- `none` is the `TypeError`.
unfoldable pub is_allowed : List String → Value → Option Bool
unfolding has_text
is_allowed names (str s) = some (has_text s names)
is_allowed names (arr items) = none
is_allowed names (obj d) = none
is_allowed names _ = some false

unfoldable pub keep_offer : Option Bool → Fields → Option (List Fields) → Option (List Fields)
keep_offer (some true) offer (some rest) = some (offer ∷ rest)
keep_offer (some false) offer (some rest) = some rest
keep_offer _ offer _ = none

unfoldable pub filtered_offers : List String → List Fields → Option (List Fields)
unfolding is_allowed keep_offer get
filtered_offers names [] = some []
filtered_offers names (offer ∷ offers) =
    keep_offer (is_allowed names (get "category" offer)) offer (filtered_offers names offers)

-- `fetch_page` below its request; the outer `none` is the `TypeError`.
unfoldable pub read_page : List String → Fetched Value → Option (Fetched (List Fields))
unfolding extract_envelope_list filtered_offers allowed_names
read_page slugs nothing = some nothing
read_page slugs (blocked status) = some (blocked status)
read_page slugs (got payload) = elim (extract_envelope_list payload "jobs" true) [
  | none ↦ some nothing
  | some offers ↦ elim (filtered_offers (allowed_names slugs) offers) [
    | none ↦ none
    | some kept ↦ some (got kept)
  ]
]
