-- ===== src/Connectors/Payload.antt =====
-- What the connectors share when they read a payload, and the dictionary that they map an offer to.
use recru_flow.Base.{
  ℕ, String, Bool, not, Option, none, some, List, [], ◌∷◌, map, str_eq, if◌then◌else◌, filter,
}
use recru_flow.Ingestion.Normalize.{to_int, normalize_salary}
use recru_flow.Base.Int.{ℤ, pos}
use recru_flow.Data.Text.{join}
use recru_flow.Data.Json.{
  Value, obj, str, int, bool, Fields, field, end, Items, cons, nil, get, truthy,
}
use recru_flow.Ingestion.Persist.{Host, str_of}

-- `a or b` of two values.
unfoldable pub either : Value → Value → Value
unfolding truthy
either a b = if truthy a then a else b

-- `[str(d[key]) for d in items if isinstance(d, dict) and d.get(key)]`
unfoldable pub texts_under : Host → String → List Value → List String
unfolding truthy str_of get
texts_under host key [] = []
texts_under host key (obj d ∷ items) =
    if truthy (get key d)
    then str_of host (get key d) ∷ texts_under host key items
    else texts_under host key items
texts_under host key (_ ∷ items) = texts_under host key items

-- `[str(item) for item in items]`
unfoldable pub texts : Host → List Value → List String
unfolding str_of
texts host items = map (str_of host) items

abbrev pub text_or_null : Option String → Value
text_or_null none = Value.null
text_or_null (some s) = str s

abbrev pub int_or_null : Option ℤ → Value
int_or_null none = Value.null
int_or_null (some n) = int n

-- `str(raw_id) if raw_id is not None else None`
unfoldable pub id_text : Host → Value → Value
unfolding str_of
id_text host Value.null = Value.null
id_text host v = str (str_of host v)

unfoldable pub texts_value : List String → Items
texts_value [] = nil
texts_value (text ∷ rest) = cons (str text) (texts_value rest)

-- `", ".join(parts) if parts else None`
unfoldable pub joined : List String → Value
unfolding join
joined [] = Value.null
joined (part ∷ parts) = str (join ", " (part ∷ parts))

-- `list(dict.fromkeys(texts))`: the first of equal texts stays.
unfoldable pub without : String → List String → List String
unfolding filter
without text = filter (λ other. not (str_eq other text))

unfoldable pub distinct_texts : List String → List String
unfolding without
distinct_texts [] = []
distinct_texts (text ∷ rest) = text ∷ without text (distinct_texts rest)

-- The entries of the dictionary that every `map_offer` returns, for the keys that vary.
pub record Mapped : Type 0 where
  pub external_id : Value
  pub canonical_url : Value
  pub title : Value
  pub company : Value
  pub location : Value
  pub remote : Bool
  pub seniority : Option String
  pub salary : Value × (Value × String)
  pub contract_type : Value
  pub posted_at : Value
  pub description : Value

-- The dictionary, with the entries that come after the description.
unfoldable pub mapped_with : ℕ → Mapped → Fields → Fields
mapped_with source_id m more = field "source_id" (int (pos source_id)) (
    field "external_id" m.external_id (
      field "canonical_url" m.canonical_url (
        field "title" m.title (
          field "company" m.company (
            field "location" m.location (
              field "remote" (bool m.remote) (
                field "seniority" (text_or_null m.seniority) (
                  field "salary_min" m.salary.0 (
                    field "salary_max" m.salary.1.0 (
                      field "salary_currency" (str m.salary.1.1) (
                        field "contract_type" m.contract_type (
                          field "posted_at" m.posted_at
                            (field "description" m.description more)))))))))))))

unfoldable pub mapped : ℕ → Mapped → Fields
unfolding mapped_with
mapped source_id m = mapped_with source_id m end

-- `to_int` of both amounts, which `normalize_salary` passes on, and the currency.
unfoldable pub int_salary : Host → Value → Value → Value → Value × (Value × String)
unfolding to_int normalize_salary
int_salary host lo hi currency =
    normalize_salary host (int_or_null (to_int lo)) (int_or_null (to_int hi)) currency
