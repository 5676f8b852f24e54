-- ===== src/Scheduler/Config/Switch.antt =====
-- What a setting does: the switch of a connector and the interval of its job.
use recru_flow.Base.{
  ℕ, zero, suc, ◌<◌, String, ◌≡◌, refl, ap, ◌∙◌, inl, inr, Bool, true, false, not, ◌&&◌, some, List,
  [], ◌∷◌, map, arith, str_eq, ◌==◌, if◌then◌else◌, ==_iff, Bool-cases, Option-cases, any, find,
}
use recru_flow.Base.Int.{pos}
use recru_flow.Data.Json.{Value, bool, int, obj, Fields, lookup, get, put, truthy, lookup-put}
use recru_flow.Db.{Db, Source}
use recru_flow.Ingestion.Registry.{
  connector_disabled, is_source_of, resolve_source_by_connector, connector_registry,
}
use recru_flow.Ingestion.Lifecycle.{
  Dispatch, flag, connector_enabled, update_source, run_with_lifecycle, run_resolved,
}
use recru_flow.Scheduler.Service.{run_source_async, run_record}
use recru_flow.Scheduler.Triggers.{
  interval, parse_schedule, parse_value, parse_typed, parse_interval, is_positive,
}
use recru_flow.Scheduler.Config.{
  configured, set_config, interval_schedule, set_source_interval, set_source_enabled,
  connector_should_auto_run,
}

flag-put :
    (key other : String) (enabled : Bool) (config : Fields)
    → flag key (put other (bool enabled) config)
      ≡ (if str_eq other key then enabled else flag key config)
unfolding flag truthy
flag-put key other enabled config = elim (Bool-cases (str_eq other key)) [
  | inl same ↦ rw (lookup-put other key (bool enabled) config, same) refl
  | inr differs ↦ rw (lookup-put other key (bool enabled) config, differs) refl
]

-- A change that keeps the connector and is made on the source that is found, is found.
resolve-update :
    (connector : String) (sources : List Source) (id : ℕ) (change : Source → Source)
    → ((s : Source) → (change s).connector ≡ s.connector)
    → {source : Source} → find (is_source_of connector) sources ≡ some source
    → source.id ≡ id
    → find
        (is_source_of connector)
        (map (λ (s : Source). if s.id == id then change s else s) sources)
      ≡ some (change source)
unfolding find
resolve-update connector [] id change keeps e here = absurd (ground (arith, e))
resolve-update connector (s ∷ sources) id change keeps {source} e here =
    elim (Bool-cases (is_source_of connector s)) [
      | inl hit ↦
          let it : s ≡ source = ground (arith, e, hit) in
          let changed : (s.id == id) ≡ true =
            (==_iff s.id id).1 (ap (λ (x : Source). x.id) it ∙ here) in
          rw (changed, same s, hit) (ap (λ x. some (change x)) it)
      | inr miss ↦ elim (Bool-cases (s.id == id)) [
        | inl changed ↦
            rw (changed, same s, miss)
              (resolve-update connector sources id change keeps (ground (arith, e, miss)) here)
        | inr left ↦
            rw (left, miss)
              (resolve-update connector sources id change keeps (ground (arith, e, miss)) here)
      ]
    ]
  where
    same : (x : Source) → is_source_of connector (change x) ≡ is_source_of connector x
    same x = rw (keeps x) refl

set_config-resolves :
    (connector key : String) (value : Value) (db : Db) {source : Source}
    → resolve_source_by_connector connector db.sources ≡ inr source
    → resolve_source_by_connector connector (set_config connector key value db).1.sources
      ≡ inr (configured key value source)
unfolding set_config resolve_source_by_connector update_source
set_config-resolves connector key value db {source} found =
    elim (Bool-cases (not (any (λ name. str_eq name connector) connector_registry))) [
      | inl unknown ↦ absurd (ground (arith, found, unknown))
      | inr known ↦ elim (Option-cases (find (is_source_of connector) db.sources)) [
        | inl missing ↦ absurd (ground (arith, found, known, missing))
        | inr (s, here) ↦
            let it : s ≡ source = ground (arith, found, known, here) in
            rw
              (
                known,
                here,
                set_config,
                resolve-update connector db.sources s.id (configured key value) (λ _. refl) here
                    refl,
              )
              (ap (λ (x : Source). inr (configured key value x)) it)
      ]
    ]

refused-run :
    {W : Type 0} (clock : ℕ → ℕ) (dispatch : Dispatch W) (connector trigger_type : String) (db : Db)
    (world : W) {source : Source}
    → resolve_source_by_connector connector db.sources ≡ inr source
    → connector_enabled source ≡ false
    → run_source_async clock dispatch connector trigger_type (db, world)
      ≡ (inl connector_disabled, (db, world))
unfolding run_source_async run_with_lifecycle run_resolved run_record
refused-run clock dispatch connector trigger_type db world found stopped =
    rw (found, run_source_async, run_with_lifecycle, run_resolved, stopped) refl

-- Setting the switch of a connector that has a source: the switch reads back, the job runs by itself
-- if it is on and auto-fetch was, and if it is off then a run is refused and changes nothing.
pub set_source_enabled_lem :
    {W : Type 0} (clock : ℕ → ℕ) (dispatch : Dispatch W) (connector trigger_type : String)
    (enabled : Bool) (db : Db) (world : W) {source : Source}
    → resolve_source_by_connector connector db.sources ≡ inr source
    → let after = (set_source_enabled connector enabled db).1 in
      ((found : Source) × (resolve_source_by_connector connector after.sources ≡ inr found)
        × (connector_enabled found ≡ enabled)
        × (connector_should_auto_run found.config_json
            ≡ (enabled && flag "auto_fetch_enabled" source.config_json)))
      × (enabled ≡ false
          → run_source_async clock dispatch connector trigger_type (after, world)
            ≡ (inl connector_disabled, (after, world)))
unfolding set_source_enabled connector_should_auto_run
set_source_enabled_lem clock dispatch connector trigger_type enabled db world {source} found =
    let again = set_config-resolves connector "connector_enabled" (bool enabled) db found in
    let reads : connector_enabled (configured "connector_enabled" (bool enabled) source) ≡ enabled =
      flag-put "connector_enabled" "connector_enabled" enabled source.config_json in
    (
      (
        configured "connector_enabled" (bool enabled) source,
        again,
        reads,
        rw (reads, flag-put "auto_fetch_enabled" "connector_enabled" enabled source.config_json)
            refl,
      ),
      λ off. refused-run clock dispatch connector trigger_type _ world again (reads ∙ off),
    )

parse_value-interval :
    (accepts : Value → Bool) (from_crontab : String → Bool) (seconds : ℕ)
    → 0 < seconds
    → accepts (int (pos seconds)) ≡ true
    → parse_value accepts from_crontab (interval_schedule seconds)
      ≡ some (some (interval (int (pos seconds))))
unfolding parse_value parse_typed parse_interval get lookup is_positive
parse_value-interval accepts from_crontab zero above taken = absurd (omega (arith, above))
parse_value-interval accepts from_crontab (suc n) above taken = rw taken refl

-- An interval above zero that APScheduler accepts and that is set on a connector with a source is the
-- interval of its job.
pub parse_schedule-set_source_interval :
    (accepts : Value → Bool) (from_crontab : String → Bool) (connector : String) (seconds : ℕ)
    (db : Db) {source : Source}
    → 0 < seconds
    → accepts (int (pos seconds)) ≡ true
    → resolve_source_by_connector connector db.sources ≡ inr source
    → (found : Source) × (resolve_source_by_connector connector
          (set_source_interval connector seconds db).1.sources
        ≡ inr found)
      × (parse_schedule accepts from_crontab (obj found.config_json)
          ≡ some (interval (int (pos seconds))))
unfolding set_source_interval parse_schedule get
parse_schedule-set_source_interval accepts from_crontab connector seconds db {source} above taken
      found =
    (
      configured "schedule" (interval_schedule seconds) source,
      set_config-resolves connector "schedule" (interval_schedule seconds) db found,
      rw
          (
            lookup-put "schedule" "schedule" (interval_schedule seconds) source.config_json,
            parse_schedule,
            get,
            parse_value-interval accepts from_crontab seconds above taken,
          )
          refl,
    )
