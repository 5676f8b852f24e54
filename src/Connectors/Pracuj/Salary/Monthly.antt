-- ===== src/Connectors/Pracuj/Salary/Monthly.antt =====
-- Only a salary for a month is picked, and of these one for an employment contract first.
use recru_flow.Base.{ℕ, String, ◌≡◌, true, Option, some, List, [], ◌∷◌, get_elem?, filter, any}
use recru_flow.Data.Json.{Fields, end, get, as_dict}
use recru_flow.Ingestion.Persist.{Host}
use recru_flow.Connectors.Pracuj.Salary.{is_monthly, name_text, first_name, is_employment}

-- The entry stands somewhere in the list.
abbrev pub In : Fields → List Fields → Type 0
In entry entries = (i : ℕ) × (get_elem? entries i ≡ some entry)

-- The entry that a salary was picked from: one of the list, monthly, and for an employment contract if
-- some monthly entry is.
pub record IsPick (host : Host) (entries : List Fields) (picked : Fields × Option String)
    (entry : Fields) : Type 0 where
  pub listed : In entry entries
  pub monthly : is_monthly entry ≡ true
  pub employment :
      any (is_employment host) (filter is_monthly entries) ≡ true → is_employment host entry ≡ true
  pub salary : picked.0 ≡ as_dict (get "salary" entry)
  pub contract_type : picked.1 ≡ name_text host entry

abbrev pub Picked : Host → List Fields → List Fields → Fields × Option String → Type 0
Picked host entries [] picked = (picked.0 ≡ end) × (picked.1 ≡ first_name host entries)
Picked host entries (_ ∷ _) picked = (entry : Fields) × IsPick host entries picked entry
