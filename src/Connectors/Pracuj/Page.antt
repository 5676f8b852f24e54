-- ===== src/Connectors/Pracuj/Page.antt =====
-- `extract_next_data`, `_dehydrated_query_data` and the URLs that a listing page names. A URL that is no
-- text is taken as its text.
use recru_flow.Base.{
  String, Bool, false, Option, none, some, List, [], ◌∷◌, ◌++◌, str_eq, if◌then◌else◌,
}
use recru_flow.Data.Json.{Value, obj, arr, str, Fields, cons, to_list, get, as_str, as_dict, truthy}
use recru_flow.Ingestion.Persist.{Host, str_of}

-- `extract_next_data`; `load` is the JSON inside the script tag of the page, where there is one.
unfoldable pub extract_next_data : (String → Option Value) → String → Option Fields
extract_next_data load html = elim (load html) [ some (obj d) ↦ some d | _ ↦ none ]

abbrev state_data : Value → Value
state_data (obj state) = get "data" state
state_data _ = Value.null

-- The first element of the list is this text.
abbrev starts_with_key : String → Value → Bool
starts_with_key prefix (arr (cons first _)) = elim (as_str first) [
  | none ↦ false
  | some s ↦ str_eq s prefix
]
starts_with_key prefix _ = false

unfoldable pub find_query : String → List Value → Value
unfolding get
find_query prefix [] = Value.null
find_query prefix (obj query ∷ queries) =
    if starts_with_key prefix (get "queryKey" query)
    then state_data (get "state" query)
    else find_query prefix queries
find_query prefix (_ ∷ queries) = find_query prefix queries

abbrev items_or_none : Value → List Value
items_or_none (arr items) = to_list items
items_or_none _ = []

-- `_dehydrated_query_data(...) if next_data else None`
unfoldable pub dehydrated_query_data : String → Option Fields → Value
unfolding find_query get
dehydrated_query_data prefix none = Value.null
dehydrated_query_data prefix (some d) = find_query prefix (
    items_or_none (
      get "queries"
        (as_dict (get "dehydratedState" (as_dict (get "pageProps" (as_dict (get "props" d))))))))

abbrev pub dict_of : Value → Option Fields
dict_of (obj d) = some d
dict_of _ = none

-- The offers of one group: what `for` runs over. `none` is the `TypeError` of a value that is no
-- collection; the letters of a text and the keys of a dictionary are no dictionaries.
unfoldable pub offers_of_group : Value → Option (List Value)
unfolding truthy
offers_of_group (arr items) = some (to_list items)
offers_of_group (str s) = some []
offers_of_group (obj d) = some []
offers_of_group v = if truthy v then none else some []

unfoldable pub urls_of_offers : Host → List Value → List String
unfolding truthy str_of get
urls_of_offers host [] = []
urls_of_offers host (obj d ∷ offers) =
    let rest = urls_of_offers host offers in
    if truthy (get "offerAbsoluteUri" d)
    then str_of host (get "offerAbsoluteUri" d) ∷ rest
    else rest
urls_of_offers host (_ ∷ offers) = urls_of_offers host offers

abbrev append_urls : Option (List String) → Option (List String) → Option (List String)
append_urls (some urls) (some more) = some (urls ++ more)
append_urls _ _ = none

abbrev group_urls : Host → Option (List Value) → Option (List String)
group_urls host none = none
group_urls host (some offers) = some (urls_of_offers host offers)

-- `candidate_urls`
unfoldable pub candidate_urls : Host → List Value → Option (List String)
unfolding offers_of_group urls_of_offers get
candidate_urls host [] = some []
candidate_urls host (obj group ∷ groups) =
    append_urls (group_urls host (offers_of_group (get "offers" group)))
      (candidate_urls host groups)
candidate_urls host (_ ∷ groups) = candidate_urls host groups
