-- ===== src/Connectors/Boards/Justjoinit.antt =====
-- app/connectors/justjoinit.py
use recru_flow.Base.{ℕ, String, ◌<>◌, Option, none, some, ◌∷◌, if◌then◌else◌}
use recru_flow.Base.Int.{ℤ}
use recru_flow.Data.Text.{join}
use recru_flow.Data.Json.{Value, obj, arr, str, int, bool, Fields, end, cons, to_list, get, truthy}
use recru_flow.Ingestion.Normalize.{to_int, normalize_remote, normalize_seniority}
use recru_flow.Ingestion.Persist.{Host, str_of}
use recru_flow.Connectors.Payload.{either, texts_under, mapped, int_salary}

-- `_first_employment_type`
unfoldable pub first_employment_type : Value → Fields
first_employment_type (arr (cons (obj first) _)) = first
first_employment_type _ = end

-- The cities of the locations, else the city of the offer.
unfoldable pub location_of : Host → Value → Value → Value
unfolding texts_under join either
location_of host (arr (cons first rest)) city =
    str (join ", " (texts_under host "city" (first ∷ to_list rest)))
location_of host _ city = either city Value.null

-- `JustJoinItConnector.next_cursor`
abbrev dict_under : String → Value → Value
dict_under key (obj d) = get key d
dict_under key _ = Value.null

unfoldable pub next_cursor : Value → Option ℤ
unfolding get to_int
next_cursor payload = elim (dict_under "cursor" (dict_under "next" (dict_under "meta" payload))) [
  | int n ↦ some n
  | bool b ↦ to_int (bool b)
  | _ ↦ none
]

unfoldable pub map_offer : Host → ℕ → Fields → Fields
unfolding first_employment_type location_of normalize_remote int_salary truthy str_of get
map_offer host source_id raw =
    let primary = first_employment_type (get "employmentTypes" raw) in
    let slug = get "slug" raw in
    mapped source_id (record {
      external_id = get "guid" raw;
      canonical_url =
          if truthy slug
          then str ("https://justjoin.it/job-offer/" <> str_of host slug)
          else Value.null;
      title = either (get "title" raw) (str "");
      company = either (get "companyName" raw) (str "");
      location = either (location_of host (get "locations" raw) (get "city" raw)) Value.null;
      remote = normalize_remote "justjoinit" (get "workplaceType" raw);
      seniority = normalize_seniority "justjoinit" (get "experienceLevel" raw);
      salary = int_salary host (get "from" primary) (get "to" primary) (get "currency" primary);
      contract_type = get "type" primary;
      posted_at = get "publishedAt" raw;
      description = Value.null;
    })
