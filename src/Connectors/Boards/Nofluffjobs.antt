-- ===== src/Connectors/Boards/Nofluffjobs.antt =====
-- app/connectors/nofluffjobs.py
use recru_flow.Base.{ℕ, ◌<>◌, false, Option, List, if◌then◌else◌, get_or}
use recru_flow.Data.Json.{
  Value, arr, str, int, float, bool, datetime, Fields, to_list, lookup, get, as_dict, truthy,
}
use recru_flow.Ingestion.Normalize.{extract_envelope_list, normalize_remote, normalize_seniority}
use recru_flow.Ingestion.Persist.{Host, str_of}
use recru_flow.Connectors.Payload.{either, texts_under, joined, mapped, int_salary}

-- `_join_cities`
unfoldable pub join_cities : Host → Value → Value
unfolding texts_under joined
join_cities host (arr places) = joined (texts_under host "city" (to_list places))
join_cities host _ = Value.null

-- `_epoch_ms_to_datetime`; `from_timestamp` is `datetime.fromtimestamp` of the value in milliseconds.
unfoldable pub epoch_ms_to_datetime : (Value → ℕ) → Value → Value
epoch_ms_to_datetime from_timestamp (int n) = datetime (from_timestamp (int n))
epoch_ms_to_datetime from_timestamp (float m k) = datetime (from_timestamp (float m k))
epoch_ms_to_datetime from_timestamp (bool b) = datetime (from_timestamp (bool b))
epoch_ms_to_datetime from_timestamp _ = Value.null

-- `extract_offers`: a bare list is no envelope.
unfoldable pub extract_offers : Value → Option (List Fields)
unfolding extract_envelope_list
extract_offers payload = extract_envelope_list payload "postings" false

unfoldable pub map_offer : (Value → ℕ) → Host → ℕ → Fields → Fields
unfolding join_cities epoch_ms_to_datetime normalize_remote int_salary truthy str_of get
map_offer from_timestamp host source_id raw =
    let location = as_dict (get "location" raw) in
    let salary = as_dict (get "salary" raw) in
    let url = get "url" raw in
    mapped source_id (record {
      external_id = get "id" raw;
      canonical_url =
          if truthy url
          then str ("https://nofluffjobs.com/job/" <> str_of host url)
          else Value.null;
      title = either (get "title" raw) (str "");
      company = either (get "name" raw) (str "");
      location = join_cities host (get "places" location);
      remote = normalize_remote "nofluffjobs" (get_or (lookup "fullyRemote" location) (bool false));
      seniority = normalize_seniority "nofluffjobs" (get "seniority" raw);
      salary = int_salary host (get "from" salary) (get "to" salary) (get "currency" salary);
      contract_type = either (get "type" salary) Value.null;
      posted_at = epoch_ms_to_datetime from_timestamp (get "posted" raw);
      description = Value.null;
    })
