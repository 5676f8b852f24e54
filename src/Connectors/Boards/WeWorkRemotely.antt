-- ===== src/Connectors/Boards/WeWorkRemotely.antt =====
-- app/connectors/we_work_remotely.py: an RSS feed in place of a JSON document.
use Prim.Native.Char.{code}
use text.Mathlib.Text.{starts_with}
use recru_flow.Base.{
  ℕ, String, Bool, true, ◌||◌, Option, none, some, List, [], ◌∷◌, ◌++◌, map, ◌==◌, if◌then◌else◌,
  get_or,
}
use recru_flow.Base.Int.{ℤ}
use recru_flow.Data.Text.{strip, is_empty}
use recru_flow.Data.Json.{Value, arr, str, Fields, field, end, get, as_str}
use recru_flow.Ingestion.Normalize.{normalize_salary}
use recru_flow.Ingestion.Persist.{Host}
use recru_flow.Connectors.Payload.{
  either, text_or_null, int_or_null, texts_value, joined, distinct_texts, mapped_with,
}
use recru_flow.Db.{Db, Source}
use recru_flow.Connectors.Http.{Fetched, got, nothing, blocked}
use recru_flow.Ingestion.Types.{IngestionResult}
use recru_flow.Ingestion.Normalize.{has_text}
use recru_flow.Ingestion.Runner.{Progress, resolve_fetch_range, run_paginated_ingestion}

-- `_ITEM_FIELDS`
abbrev pub item_fields : List String
item_fields =
    "title" ∷ "link" ∷ "guid" ∷ "pubDate" ∷ "region" ∷ "country" ∷ "state" ∷ "skills" ∷ "category"
    ∷ "type" ∷ "description" ∷ []

-- `item.findtext(field) or None`
abbrev text_of : Option String → Value
text_of none = Value.null
text_of (some s) = if is_empty s then Value.null else str s

-- `_item_to_dict`; `findtext` is the text of a child of the item.
unfoldable pub item_to_dict : (String → Option String) → List String → Fields
unfolding is_empty
item_to_dict findtext [] = end
item_to_dict findtext (name ∷ names) =
    field name (text_of (findtext name)) (item_to_dict findtext names)

-- `_extract_rss_items`, of the items of the channel, where there is one.
unfoldable pub extract_rss_items : Option (List (String → Option String)) → Option (List Fields)
unfolding item_to_dict
extract_rss_items none = none
extract_rss_items (some items) = some (map (λ findtext. item_to_dict findtext item_fields) items)

-- `text.partition(": ")`, where the separator is found.
unfoldable pub drop_one : String → String
drop_one String.[] = String.[]
drop_one (String.◌∷◌ c s) = s

unfoldable pub partition_colon : String → Option (String × String)
unfolding drop_one
partition_colon String.[] = none
partition_colon (String.◌∷◌ c s) =
    let rest = partition_colon s in
    if starts_with (String.◌∷◌ c s) ": "
    then some ("", drop_one s)
    else elim rest [ none ↦ none | some (before, after) ↦ some (String.◌∷◌ c before, after) ]

-- `_split_company_and_title`; an item has only texts.
unfoldable pub split_title : String → Option String × String
unfolding partition_colon is_empty
split_title raw_title = elim (partition_colon raw_title) [
  | none ↦ (none, raw_title)
  | some (company, job_title) ↦ (if is_empty company then none else some company, job_title)
]

unfoldable pub split_company_and_title : Option String → Option String × String
unfolding split_title
split_company_and_title none = (none, "")
split_company_and_title (some raw_title) = split_title raw_title

-- `match.group(1).replace(",", "")`
unfoldable pub without_commas : String → String
without_commas String.[] = String.[]
without_commas (String.◌∷◌ c s) =
    let rest = without_commas s in if code c == 44 then rest else String.◌∷◌ c rest

-- `_parse_salary_ceiling`; `ceiling_text` is the amount that the pattern finds in the text without its
-- tags, and `int_of` is Python's `int` of a text.
unfoldable pub parse_salary_ceiling :
    (String → Option String) → (String → Option ℤ) → Option String → Option ℤ
unfolding is_empty without_commas
parse_salary_ceiling ceiling_text int_of none = none
parse_salary_ceiling ceiling_text int_of (some description) =
    if is_empty description then none else elim (ceiling_text description) [
      | none ↦ none
      | some amount ↦ int_of (without_commas amount)
    ]

-- `_join_location`: the parts that are there, each once.
unfoldable pub add_part : Value → List String → List String
unfolding has_text is_empty
add_part (str s) parts = if is_empty s || has_text s parts then parts else parts ++ (s ∷ [])
add_part _ parts = parts

unfoldable pub join_location : Fields → Value
unfolding add_part joined get
join_location raw =
    joined
      (add_part (get "state" raw) (add_part (get "country" raw) (add_part (get "region" raw) [])))

-- `text.split(",")`: the first part, and the others.
unfoldable pub split_commas : String → String × List String
split_commas String.[] = ("", [])
split_commas (String.◌∷◌ c s) =
    let (first, rest) = split_commas s in
    if code c == 44 then ("", first ∷ rest) else (String.◌∷◌ c first, rest)

unfoldable pub stripped_parts : List String → List String
unfolding strip is_empty
stripped_parts [] = []
stripped_parts (part ∷ parts) =
    let rest = stripped_parts parts in if is_empty (strip part) then rest else strip part ∷ rest

unfoldable pub skills_of : Option String → List String
unfolding split_commas stripped_parts
skills_of none = []
skills_of (some raw_skills) =
    stripped_parts ((split_commas raw_skills).0 ∷ (split_commas raw_skills).1)

abbrev category_prefix : Option String → List String
category_prefix none = []
category_prefix (some s) = if is_empty s then [] else s ∷ []

-- `_parse_posted_at`; `pub_date` reads a date and writes it, and gives nothing where it raises.
unfoldable pub parse_posted_at : (String → Option String) → Value → Option String
unfolding is_empty
parse_posted_at pub_date (str s) = if is_empty s then none else pub_date s
parse_posted_at pub_date _ = none

module _ (ceiling_text : String → Option String) (int_of : String → Option ℤ)
    (pub_date : String → Option String) (host : Host) where
  unfoldable pub map_offer : ℕ → Fields → Fields
  unfolding split_company_and_title parse_salary_ceiling join_location skills_of distinct_texts
      texts_value parse_posted_at normalize_salary is_empty get
  map_offer source_id raw =
      let (company, job_title) = split_company_and_title (as_str (get "title" raw)) in
      mapped_with source_id
        (record {
          external_id = either (get "guid" raw) Value.null;
          canonical_url = get "link" raw;
          title = str job_title;
          company = str (get_or company "");
          location = join_location raw;
          remote = true;
          seniority = none;
          salary =
              normalize_salary host Value.null
                (int_or_null
                  (parse_salary_ceiling ceiling_text int_of (as_str (get "description" raw))))
                (str "USD");
          contract_type = Value.null;
          posted_at = text_or_null (parse_posted_at pub_date (get "pubDate" raw));
          description = get "description" raw;
        })
        (field "industry_tags"
          (arr (
            texts_value (
              distinct_texts (
                category_prefix (as_str (get "category" raw))
                ++ skills_of (as_str (get "skills" raw))))))
          end)

  -- `fetch_page` below its request, of the channel of the document that was fetched.
  unfoldable pub read_feed :
      Fetched (Option (List (String → Option String))) → Fetched (List Fields × Option ℕ)
  unfolding extract_rss_items
  read_feed nothing = nothing
  read_feed (blocked status) = blocked status
  read_feed (got channel) = elim (extract_rss_items channel) [
    | none ↦ nothing
    | some items ↦ got (items, none)
  ]

  -- `run_we_work_remotely_ingestion`: one page.
  unfoldable pub run_we_work_remotely_ingestion :
      {W : Type 0}
      → (W → Fetched (Option (List (String → Option String))) × W)
      → ℕ
      → Source
      → Bool
      → Db
      → W
      → IngestionResult × Progress W
  unfolding run_paginated_ingestion read_feed
  run_we_work_remotely_ingestion request threshold source force_refresh =
      run_paginated_ingestion host
        (record {
          fetch_page = λ cursor page_size world. (read_feed (request world).0, (request world).1);
          map_offer = λ source_id raw. some (map_offer source_id raw);
        })
        (record {
          source_id = source.id;
          source_name = "We Work Remotely";
          page_size = 1;
          max_pages = 1;
          already_seen_stop_threshold = threshold;
          force_refresh = force_refresh;
          since = (resolve_fetch_range host (get "fetch_range" source.config_json)).0;
          until = (resolve_fetch_range host (get "fetch_range" source.config_json)).1;
          sorted_by_recency = true;
        })
        0
