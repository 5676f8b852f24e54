-- ===== src/Connectors/Boards/SolidJobs.antt =====
-- app/connectors/solid_jobs.py
use recru_flow.Base.{
  ℕ, ◌+◌, String, true, false, Option, none, some, List, ◌∷◌, leb, if◌then◌else◌, get_or, length,
}
use recru_flow.Data.Text.{join}
use recru_flow.Data.Json.{
  Value, arr, str, bool, Fields, cons, nil, to_list, lookup, get, put, as_dict,
}
use recru_flow.Ingestion.Normalize.{
  extract_envelope_list, normalize_remote, normalize_seniority, normalize_salary,
}
use recru_flow.Ingestion.Persist.{Host}
use recru_flow.Connectors.Payload.{either, texts, mapped}

-- The locations, each as its text.
unfoldable pub location_of : Host → Value → Value
unfolding texts join
location_of host (arr (cons first rest)) = str (join ", " (texts host (first ∷ to_list rest)))
location_of host _ = Value.null

-- `next_cursor`: a page that is not full is the last one.
unfoldable pub next_cursor : List Fields → ℕ → ℕ → Option ℕ
next_cursor offers cursor page_size =
    if leb page_size (length offers) then some (cursor + 1) else none

-- `{**config, "terms": [term]}`
unfoldable pub apply_fetch_scope_term : Fields → String → Fields
unfolding put
apply_fetch_scope_term config term = put "terms" (arr (cons (str term) nil)) config

unfoldable pub extract_offers : Value → Option (List Fields)
unfolding extract_envelope_list
extract_offers payload = extract_envelope_list payload "jobs" true

unfoldable pub map_offer : Host → ℕ → Fields → Fields
unfolding location_of normalize_remote normalize_salary get
map_offer host source_id raw =
    let salary = as_dict (get "salary" raw) in
    mapped source_id (record {
      external_id = get "jobOfferKey" raw;
      canonical_url = get "url" raw;
      title = either (get "title" raw) (str "");
      company = either (get "company" raw) (str "");
      location = location_of host (get "locations" raw);
      remote = normalize_remote "solid_jobs" (get_or (lookup "isRemote" raw) (bool false));
      seniority = normalize_seniority "solid_jobs" (get "experienceLevel" raw);
      salary = normalize_salary host (get "from" salary) (get "to" salary) (get "currency" salary);
      contract_type = get "employmentType" salary;
      posted_at = get "validFrom" raw;
      description = get "description" raw;
    })
