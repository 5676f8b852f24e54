-- ===== src/Connectors/Pracuj/Mapping.antt =====
-- `PracujConnector.map_offer`
use recru_flow.Base.{ℕ, String, List, [], ◌∷◌, if◌then◌else◌}
use recru_flow.Data.Text.{join}
use recru_flow.Data.Json.{Value, arr, str, Fields, cons, to_list, get, as_dict, truthy}
use recru_flow.Ingestion.Normalize.{
  to_int, dicts, normalize_remote, normalize_seniority, normalize_salary,
}
use recru_flow.Ingestion.Persist.{Host, str_of}
use recru_flow.Connectors.Payload.{
  id_text, either, texts_under, texts_value, text_or_null, int_or_null, mapped,
}
use recru_flow.Connectors.Pracuj.Salary.{pick_monthly_salary}

-- The dictionaries of a list; any other value has none.
abbrev entries_of : Value → List Fields
entries_of (arr items) = dicts (to_list items)
entries_of _ = []

module _ (host : Host) where
  -- The text of each position level that has a label.
  unfoldable pub level_labels : List Fields → List String
  unfolding either truthy str_of get
  level_labels [] = []
  level_labels (level ∷ levels) =
      let rest = level_labels levels in
      let label = either (get "pracujPlName" level) (get "name" level) in
      if truthy label then str_of host label ∷ rest else rest

  unfoldable pub seniority_labels : Value → Value
  unfolding level_labels texts_value dicts
  seniority_labels (arr items) = arr (texts_value (level_labels (dicts (to_list items))))
  seniority_labels _ = Value.null

  unfoldable pub pracuj_location : Value → Value
  unfolding texts_under join
  pracuj_location (arr (cons workplace workplaces)) =
      str (join ", " (texts_under host "displayAddress" (workplace ∷ to_list workplaces)))
  pracuj_location _ = Value.null

  unfoldable pub map_offer : ℕ → Fields → Fields
  unfolding pick_monthly_salary dicts normalize_remote normalize_salary to_int seniority_labels
      pracuj_location id_text get
  map_offer source_id raw =
      let attrs = as_dict (get "attributes" raw) in
      let employment = as_dict (get "employment" attrs) in
      let (salary, contract_type) =
        pick_monthly_salary host (entries_of (get "typesOfContracts" employment)) in
      mapped source_id (record {
        external_id = id_text host (get "jobOfferWebId" raw);
        canonical_url = either (get "offerAbsoluteUrl" attrs) Value.null;
        title = either (get "jobTitle" attrs) (str "");
        company = either (get "displayEmployerName" attrs) (str "");
        location = pracuj_location (get "workplaces" attrs);
        remote = normalize_remote "pracuj" (get "entirelyRemoteWork" employment);
        seniority =
            normalize_seniority "pracuj" (seniority_labels (get "positionLevels" employment));
        salary =
            normalize_salary host (int_or_null (to_int (get "from" salary)))
              (int_or_null (to_int (get "to" salary)))
              (get "code" (as_dict (get "currency" salary)));
        contract_type = text_or_null contract_type;
        posted_at = get "dateOfInitialPublicationUtc" (as_dict (get "publicationDetails" raw));
        description = either (get "description" attrs) Value.null;
      })
