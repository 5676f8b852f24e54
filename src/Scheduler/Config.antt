-- ===== src/Scheduler/Config.antt =====
-- app/scheduler/service.py and app/scheduler/lifecycle.py: the settings of the sources, and whether a
-- source's job runs by itself.
pub mod Switch
use recru_flow.Base.{
  ℕ, zero, suc, ◌<◌, String, ◌≡◌, refl, ap, ◌∙◌, ◌⊎◌, inl, inr, Bool, true, false, not, ◌&&◌,
  Option, none, some, List, [], ◌∷◌, map, arith, str_eq, ◌==◌, if◌then◌else◌, ==_iff, Bool-cases,
  Option-cases, is_some, get_or, any, find,
}
use recru_flow.Base.Int.{pos}
use recru_flow.Data.Json.{
  Value, bool, int, str, obj, Fields, end, field, lookup, get, put, as_str, truthy, lookup-put,
}
use recru_flow.Db.{Db, Source}
use recru_flow.Ingestion.Registry.{
  Refusal, connector_disabled, is_source_of, resolve_source_by_connector, supports_fetch_scope,
  connector_registry,
}
use recru_flow.Ingestion.Lifecycle.{
  Dispatch, flag, connector_enabled, update_source, run_with_lifecycle, run_resolved,
}
use recru_flow.Scheduler.Service.{run_source_async, run_record}
use recru_flow.Scheduler.Triggers.{
  interval, default_trigger, parse_schedule, parse_value, parse_typed, parse_interval, is_positive,
}

-- `{**source.config_json, key: value}`
abbrev pub configured : String → Value → Source → Source
configured key value source = record source { config_json = put key value source.config_json }

-- The shape of every `set_source_...`: resolve, then write one key.
unfoldable pub set_config : String → String → Value → Db → (Refusal ⊎ Source) × Db
unfolding resolve_source_by_connector update_source put
set_config connector key value db = elim (resolve_source_by_connector connector db.sources) [
  | inl refusal ↦ (inl refusal, db)
  | inr source ↦
      (inr (configured key value source), update_source source.id (configured key value) db)
]

-- The shape of every `set_all_source_...`: each source that has a connector.
unfoldable pub set_all_config : String → Value → Db → Db
unfolding put
set_all_config key value db = record db {
  sources =
      map (λ (s : Source). if is_some s.connector then configured key value s else s) db.sources;
}

abbrev pub interval_schedule : ℕ → Value
interval_schedule seconds =
    obj (field "type" (str "interval") (field "seconds" (int (pos seconds)) end))

unfoldable pub set_source_interval : String → ℕ → Db → (Refusal ⊎ Source) × Db
unfolding set_config
set_source_interval connector seconds = set_config connector "schedule" (interval_schedule seconds)

unfoldable pub set_source_fetch_range : String → Fields → Db → (Refusal ⊎ Source) × Db
unfolding set_config
set_source_fetch_range connector fetch_range = set_config connector "fetch_range" (obj fetch_range)

-- `none` for `FetchScopeNotSupportedError`.
unfoldable pub set_source_fetch_scope : String → Fields → Db → Option ((Refusal ⊎ Source) × Db)
unfolding set_config get
set_source_fetch_scope connector fetch_scope db =
    elim (resolve_source_by_connector connector db.sources) [
      | inl refusal ↦ some (inl refusal, db)
      | inr source ↦
          if str_eq (get_or (as_str (get "mode" fetch_scope)) "") "filtered"
            && not (supports_fetch_scope connector)
          then none
          else some (set_config connector "fetch_scope" (obj fetch_scope) db)
    ]

unfoldable pub set_source_auto_fetch : String → Bool → Db → (Refusal ⊎ Source) × Db
unfolding set_config
set_source_auto_fetch connector enabled = set_config connector "auto_fetch_enabled" (bool enabled)

unfoldable pub set_source_enabled : String → Bool → Db → (Refusal ⊎ Source) × Db
unfolding set_config
set_source_enabled connector enabled = set_config connector "connector_enabled" (bool enabled)

unfoldable pub set_all_source_enabled : Bool → Db → Db
unfolding set_all_config
set_all_source_enabled enabled = set_all_config "connector_enabled" (bool enabled)

unfoldable pub set_all_source_auto_fetch : Bool → Db → Db
unfolding set_all_config
set_all_source_auto_fetch enabled = set_all_config "auto_fetch_enabled" (bool enabled)

unfoldable pub set_all_source_intervals : ℕ → Db → Db
unfolding set_all_config
set_all_source_intervals seconds = set_all_config "schedule" (interval_schedule seconds)

unfoldable pub set_all_source_fetch_ranges : Fields → Db → Db
unfolding set_all_config
set_all_source_fetch_ranges fetch_range = set_all_config "fetch_range" (obj fetch_range)

-- `connector_should_auto_run`
unfoldable pub connector_should_auto_run : Fields → Bool
unfolding flag
connector_should_auto_run config =
    flag "connector_enabled" config && flag "auto_fetch_enabled" config
