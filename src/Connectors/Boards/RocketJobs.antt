-- ===== src/Connectors/Boards/RocketJobs.antt =====
-- app/connectors/rocket_jobs.py
use Prim.Native.Char.{code}
use recru_flow.Base.{
  ℕ, String, Bool, false, ◌&&◌, Option, none, some, List, [], ◌∷◌, str_eq, ◌==◌, if◌then◌else◌,
  get_or, or_else,
}
use recru_flow.Data.Text.{join, is_empty}
use recru_flow.Data.Json.{
  Value, obj, arr, str, int, float, bool, datetime, Fields, field, end, Items, cons, nil, to_list,
  get, put, as_str, as_dict, truthy,
}
use recru_flow.Ingestion.Normalize.{normalize_remote, normalize_seniority}
use recru_flow.Ingestion.Persist.{Host, str_of}
use recru_flow.Connectors.Payload.{either, texts, text_or_null, joined, mapped, int_salary}

abbrev is_posting : Fields → Bool
is_posting d = elim (as_str (get "@type" d)) [ none ↦ false | some s ↦ str_eq s "JobPosting" ]

-- `_find_job_posting`: the dictionary itself, or the first one under its graph or in the list.
unfoldable mutual
  unfolding get

  pub find_job_posting : Value → Option Fields
  find_job_posting (obj d) = if is_posting d then some d else find_in_graph d
  find_job_posting (arr items) = find_in_items items
  find_job_posting (str s) = none
  find_job_posting (int n) = none
  find_job_posting (float m k) = none
  find_job_posting (bool b) = none
  find_job_posting (datetime t) = none
  find_job_posting Value.null = none

  -- The list under the first key "@graph".
  pub find_in_graph : Fields → Option Fields
  find_in_graph end = none
  find_in_graph (field key (arr items) d) =
      if str_eq key "@graph" then find_in_items items else find_in_graph d
  find_in_graph (field key v d) = if str_eq key "@graph" then none else find_in_graph d

  pub find_in_items : Items → Option Fields
  find_in_items nil = none
  find_in_items (cons v items) = or_else (find_job_posting v) (find_in_items items)

-- `extract_job_posting_json_ld`; `blocks` are the blocks of the page, where they can be parsed.
unfoldable pub first_posting : List (Option Value) → Option Fields
unfolding find_job_posting
first_posting [] = none
first_posting (none ∷ blocks) = first_posting blocks
first_posting (some block ∷ blocks) = or_else (find_job_posting block) (first_posting blocks)

-- `extract_detail_json`: the posting, with the URL that it was fetched from.
unfoldable pub extract_detail_json :
    (String → List (Option Value)) → String → String → Option Fields
unfolding first_posting put
extract_detail_json blocks html url = elim (first_posting (blocks html)) [
  | none ↦ none
  | some posting ↦ some (put "_source_url" (str url) posting)
]

-- `_extract_location`
abbrev entries_of : Value → List Value
entries_of (arr items) = to_list items
entries_of v = v ∷ []

unfoldable pub localities : Host → List Value → List String
unfolding truthy str_of get
localities host [] = []
localities host (obj entry ∷ entries) =
    let rest = localities host entries in
    let locality = get "addressLocality" (as_dict (get "address" entry)) in
    if truthy locality then str_of host locality ∷ rest else rest
localities host (_ ∷ entries) = localities host entries

unfoldable pub extract_location : Host → Value → Value
unfolding localities joined
extract_location host v = joined (localities host (entries_of v))

-- `path.rstrip("/")`
unfoldable pub rstrip_slashes : String → String
unfolding is_empty
rstrip_slashes String.[] = String.[]
rstrip_slashes (String.◌∷◌ c s) =
    let rest = rstrip_slashes s in
    if is_empty rest && code c == 47 then String.[] else String.◌∷◌ c rest

-- The text behind the last slash, where there is one.
unfoldable pub after_last_slash : String → Option String
after_last_slash String.[] = none
after_last_slash (String.◌∷◌ c s) =
    or_else (after_last_slash s) (if code c == 47 then some s else none)

-- `_external_id_from_url`; `url_path` is `urlparse(url).path`.
unfoldable pub external_id_from_url : (String → String) → Option String → Option String
unfolding is_empty rstrip_slashes after_last_slash
external_id_from_url url_path none = none
external_id_from_url url_path (some url) =
    let path = rstrip_slashes (url_path url) in
    let slug = get_or (after_last_slash path) path in
    if is_empty url then none else if is_empty slug then none else some slug

abbrev nonempty : String → Option String
nonempty s = if is_empty s then none else some s

-- `raw_url if isinstance(raw_url, str) and raw_url else None`
unfoldable pub canonical_url_of : Fields → Option String
unfolding either is_empty get
canonical_url_of raw = elim (as_str (either (get "url" raw) (get "_source_url" raw))) [
  | none ↦ none
  | some s ↦ nonempty s
]

unfoldable pub contract_type_of : Host → Value → Option String
unfolding texts join is_empty
contract_type_of host (arr items) = nonempty (join ", " (texts host (to_list items)))
contract_type_of host (str s) = nonempty s
contract_type_of host _ = none

unfoldable pub map_offer : (String → String) → Host → ℕ → Fields → Fields
unfolding extract_location external_id_from_url canonical_url_of contract_type_of normalize_remote
    int_salary get
map_offer url_path host source_id raw =
    let salary = as_dict (get "baseSalary" raw) in
    let value = as_dict (get "value" salary) in
    let canonical_url = canonical_url_of raw in
    mapped source_id (record {
      external_id = text_or_null (external_id_from_url url_path canonical_url);
      canonical_url = text_or_null canonical_url;
      title = either (get "title" raw) (str "");
      company = either (get "name" (as_dict (get "hiringOrganization" raw))) (str "");
      location = extract_location host (get "jobLocation" raw);
      remote = normalize_remote "rocket_jobs" (get "jobLocationType" raw);
      seniority = normalize_seniority "rocket_jobs" (get "experienceRequirements" raw);
      salary =
          int_salary host (get "minValue" value) (get "maxValue" value) (get "currency" salary);
      contract_type = text_or_null (contract_type_of host (get "employmentType" raw));
      posted_at = get "datePosted" raw;
      description = either (get "description" raw) Value.null;
    })
