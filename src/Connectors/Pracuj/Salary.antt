-- ===== src/Connectors/Pracuj/Salary.antt =====
-- `_pick_monthly_salary`. Whether the amounts are gross only decides a warning, and is left out.
pub mod Monthly
use recru_flow.Base.{
  ℕ, zero, suc, ◌+◌, ◌-◌, ◌*◌, ◌/◌, ◌%◌, ◌≤◌, ◌<◌, min, max, String, ◌<>◌, ◌≡◌, refl, sym, ap, ◌∙◌,
  ◌≢◌, ◌↔◌, ◌⊎◌, inl, inr, Bool, true, false, not, ◌&&◌, ◌||◌, Option, none, some, List, [], ◌∷◌,
  ◌++◌, map, foldl, append-nil, append_assoc, arith, str_eq, eq_iff, eq_refl, ltb, leb, ◌==◌,
  if◌then◌else◌, ltb→lt, lt→ltb, leb→le, le→leb, ==_iff, tests, Bool-cases, Option-cases, is_none,
  is_some, get_or, or_else, length, get_elem?, take, drop, filter, any, all, find, All,
  length-append, length-take, length-drop, take-append-drop, length-filter-le, any-append,
  filter-append, All-append, All-map, All-filter, length-filter-not, length-map,
}
use recru_flow.Base.Int.{ℤ, pos}
use recru_flow.Data.Text.{lower, contains}
use recru_flow.Data.Json.{
  Value, obj, str, int, float, bool, Fields, end, lookup, get, as_dict, truthy,
}
use recru_flow.Ingestion.Persist.{Host, str_of}
use recru_flow.Connectors.Payload.{either}

-- `value == _MONTHLY_TIME_UNIT_ID`
unfoldable pub is_monthly_id : Value → Bool
is_monthly_id (int (pos zero)) = true
is_monthly_id (float (pos zero) k) = true
is_monthly_id (bool b) = not b
is_monthly_id _ = false

abbrev has_monthly_unit : Value → Bool
has_monthly_unit (obj time_unit) = is_monthly_id (get "id" time_unit)
has_monthly_unit _ = false

abbrev is_monthly_salary : Value → Bool
is_monthly_salary (obj salary) = has_monthly_unit (get "timeUnit" salary)
is_monthly_salary _ = false

-- The entry has a salary for a month.
unfoldable pub is_monthly : Fields → Bool
unfolding is_monthly_id get
is_monthly entry = is_monthly_salary (get "salary" entry)

abbrev name_of : Fields → Value
name_of entry = either (get "pracujPlName" entry) (get "name" entry)

module _ (host : Host) where
  -- `str(name) if name else None`
  unfoldable pub name_text : Fields → Option String
  unfolding either truthy str_of get
  name_text entry = if truthy (name_of entry) then some (str_of host (name_of entry)) else none

  -- `all_names[0] if all_names else None`
  unfoldable pub first_name : List Fields → Option String
  unfolding name_text
  first_name [] = none
  first_name (entry ∷ entries) = or_else (name_text entry) (first_name entries)

  abbrev pub is_employment : Fields → Bool
  is_employment entry =
      contains (lower (str_of host (get_or (lookup "pracujPlName" entry) (str "")))) "umowa o pracę"

  -- `preferred`, of the monthly entries.
  unfoldable pub preferred : Fields → List Fields → Fields
  unfolding find contains lower str_of lookup
  preferred first rest = get_or (find is_employment (first ∷ rest)) first

  unfoldable pub pick_of : List Fields → List Fields → Fields × Option String
  unfolding first_name preferred name_text get
  pick_of entries [] = (end, first_name entries)
  pick_of entries (first ∷ rest) =
      (as_dict (get "salary" (preferred first rest)), name_text (preferred first rest))

  -- The salary and the type of the contract, from the entries that are dictionaries.
  unfoldable pub pick_monthly_salary : List Fields → Fields × Option String
  unfolding pick_of is_monthly filter
  pick_monthly_salary entries = pick_of entries (filter is_monthly entries)
