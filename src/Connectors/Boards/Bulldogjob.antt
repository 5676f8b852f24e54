-- ===== src/Connectors/Boards/Bulldogjob.antt =====
-- app/connectors/bulldogjob.py
use recru_flow.Base.{
  ℕ, String, ◌<>◌, false, Option, none, some, List, [], ◌∷◌, if◌then◌else◌, get_or,
}
use recru_flow.Data.Text.{join, is_empty}
use recru_flow.Data.Json.{
  Value, obj, arr, str, bool, Fields, end, to_list, lookup, get, as_dict, truthy,
}
use recru_flow.Ingestion.Normalize.{normalize_remote, normalize_seniority}
use recru_flow.Ingestion.Persist.{Host, str_of}
use recru_flow.Connectors.Payload.{either, text_or_null, joined, mapped, int_salary}

-- `extract_next_data`; `load` is the JSON inside the script tag of the page, where there is one.
unfoldable pub extract_next_data : (String → Option Value) → String → Option Fields
extract_next_data load html = elim (load html) [ some (obj d) ↦ some d | _ ↦ none ]

-- The cities of the locations.
abbrev city_of : Value → Value
city_of (obj location) = get "cityEn" location
city_of _ = Value.null

unfoldable pub cities_of : Host → List Value → List String
unfolding truthy str_of get
cities_of host [] = []
cities_of host (obj entry ∷ entries) =
    let rest = cities_of host entries in
    if truthy (city_of (get "location" entry))
    then str_of host (city_of (get "location" entry)) ∷ rest
    else rest
cities_of host (_ ∷ entries) = cities_of host entries

-- `_join_locations`
unfoldable pub join_locations : Host → Value → Value
unfolding cities_of joined
join_locations host (arr entries) = joined (cities_of host (to_list entries))
join_locations host _ = Value.null

-- `_pick_salary`: the first of the three that is there.
unfoldable pub pick_salary : List (String × String) → Fields → Fields × Option String
unfolding get
pick_salary [] job = (end, none)
pick_salary ((key, contract_type) ∷ rest) job = elim (get key job) [
  | obj salary ↦ (salary, some contract_type)
  | _ ↦ pick_salary rest job
]

abbrev pub salary_keys : List (String × String)
salary_keys =
    ("employmentSalary", "employment") ∷ ("b2bSalary", "b2b") ∷ ("otherSalary", "other") ∷ []

-- `d.get(key, {})`, of which the code calls `get` again: `none` is the `AttributeError`.
unfoldable pub dict_under : String → Fields → Option Fields
unfolding lookup
dict_under key d = elim (lookup key d) [ none ↦ some end | some (obj e) ↦ some e | some _ ↦ none ]

-- `"\n\n".join(description_parts)`, which raises for a part that is no text.
unfoldable pub join_parts : List Value → Option (List String)
unfolding truthy
join_parts [] = some []
join_parts (str s ∷ parts) = elim (join_parts parts) [
  | none ↦ none
  | some rest ↦ some (if is_empty s then rest else s ∷ rest)
]
join_parts (v ∷ parts) = if truthy v then none else join_parts parts

abbrev description_of : List String → Value
description_of [] = Value.null
description_of (part ∷ parts) = str (join "\n\n" (part ∷ parts))

unfoldable pub map_job : Host → ℕ → Fields → List String → Fields
unfolding pick_salary join_locations normalize_remote int_salary truthy str_of join get lookup
map_job host source_id job description_parts =
    let job_id = get "id" job in
    let (salary, contract_type) = pick_salary salary_keys job in
    mapped source_id (record {
      external_id = job_id;
      canonical_url =
          if truthy job_id
          then str ("https://bulldogjob.com/companies/jobs/" <> str_of host job_id)
          else Value.null;
      title = either (get "position" job) (str "");
      company = either (get "name" (as_dict (get "company" job))) (str "");
      location = join_locations host (get "locations" job);
      remote = normalize_remote "bulldogjob" (get_or (lookup "remote" job) (bool false));
      seniority = normalize_seniority "bulldogjob" (get "experienceLevel" job);
      salary =
          int_salary host (get "minValue" salary) (get "maxValue" salary) (get "currency" salary);
      contract_type = text_or_null contract_type;
      posted_at = get "publishedAt" job;
      description = description_of description_parts;
    })

unfoldable pub map_page : Host → ℕ → Fields → Option Fields
unfolding map_job join_parts get
map_page host source_id page_props =
    let job = as_dict (get "job" (as_dict (get "data" page_props))) in
    elim (join_parts (get "offer" job ∷ get "requirements" job ∷ [])) [
      | none ↦ none
      | some parts ↦ some (map_job host source_id job parts)
    ]

-- `map_offer`; `none` is an exception.
unfoldable pub map_offer : Host → ℕ → Fields → Option Fields
unfolding dict_under map_page
map_offer host source_id raw = elim (dict_under "props" raw) [
  | none ↦ none
  | some props ↦ elim (dict_under "pageProps" props) [
    | none ↦ none
    | some page_props ↦ map_page host source_id page_props
  ]
]

-- The URLs of the jobs that a filtered listing names.
unfoldable pub job_urls : Host → List Value → List String
unfolding truthy str_of get
job_urls host [] = []
job_urls host (obj job ∷ jobs) =
    let rest = job_urls host jobs in
    if truthy (get "id" job)
    then ("https://bulldogjob.com/companies/jobs/" <> str_of host (get "id" job)) ∷ rest
    else rest
job_urls host (_ ∷ jobs) = job_urls host jobs
