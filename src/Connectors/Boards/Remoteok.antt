-- ===== src/Connectors/Boards/Remoteok.antt =====
-- app/connectors/remoteok.py
use recru_flow.Base.{ℕ, zero, true, Option, none, some, List}
use recru_flow.Base.Int.{ℤ, pos}
use recru_flow.Data.Json.{Value, arr, str, Fields, field, end, Items, cons, nil, to_list, get}
use recru_flow.Ingestion.Normalize.{to_int, extract_envelope_list, normalize_salary}
use recru_flow.Ingestion.Persist.{Host}
use recru_flow.Connectors.Payload.{id_text, either, texts, int_or_null, texts_value, mapped_with}

unfoldable pub nonzero : ℤ → Option ℤ
nonzero (pos zero) = none
nonzero n = some n

-- `_zero_to_none`
unfoldable pub zero_to_none : Value → Option ℤ
unfolding to_int nonzero
zero_to_none v = elim (to_int v) [ none ↦ none | some n ↦ nonzero n ]

-- `extract_offers`: the first item is the legal notice of the feed.
unfoldable pub extract_offers : Value → Option (List Fields)
unfolding extract_envelope_list
extract_offers (arr (cons notice items)) = extract_envelope_list (arr items) "" true
extract_offers _ = none

-- `[str(tag) for tag in raw_tags] if isinstance(raw_tags, list) else []`
unfoldable pub tags_of : Host → Value → Items
unfolding texts texts_value
tags_of host (arr items) = texts_value (texts host (to_list items))
tags_of host _ = nil

unfoldable pub map_offer : Host → ℕ → Fields → Fields
unfolding zero_to_none tags_of id_text normalize_salary get
map_offer host source_id raw =
    mapped_with source_id
      (record {
        external_id = id_text host (get "id" raw);
        canonical_url = either (get "url" raw) (get "apply_url" raw);
        title = either (get "position" raw) (str "");
        company = either (get "company" raw) (str "");
        location = either (get "location" raw) Value.null;
        remote = true;
        seniority = none;
        salary =
            normalize_salary host (int_or_null (zero_to_none (get "salary_min" raw)))
              (int_or_null (zero_to_none (get "salary_max" raw))) (str "USD");
        contract_type = Value.null;
        posted_at = get "date" raw;
        description = get "description" raw;
      })
      (field "industry_tags" (arr (tags_of host (get "tags" raw))) end)
