-- ===== src/Ingestion/Lifecycle.antt =====
-- app/ingestion/lifecycle.py: what every door that runs a connector shares.
-- A session is the committed database with the one that the session sees.
use recru_flow.Base.{
  ℕ, String, ◌⊎◌, inl, inr, Bool, true, Option, none, some, map, str_eq, ◌==◌, if◌then◌else◌,
  get_or,
}
use recru_flow.Data.Json.{Fields, bool, lookup, truthy}
use recru_flow.Db.{Db, Source, utcnow}
use recru_flow.Dlq.Service.{FailureFields, run_fetch_failed, record_failure, source_key}
use recru_flow.Ingestion.Types.{IngestionResult}
use recru_flow.Ingestion.Registry.{Refusal, connector_disabled, resolve_source_by_connector}

pub record Session : Type 0 where
  pub saved : Db
  pub live : Db

abbrev pub open_session : Db → Session
open_session db = record { saved = db; live = db }

abbrev pub commit : Session → Session
commit s = record { saved = s.live; live = s.live }

-- Neither a sequence nor the clock goes back.
abbrev pub undone : Session → Db
undone s = record s.saved { next_id = s.live.next_id; reads = s.live.reads }

abbrev pub rollback : Session → Session
rollback s = record { saved = undone s; live = undone s }

-- What is left when a session closes: work that was not committed is lost.
abbrev pub closed : Session → Db
closed s = undone s

-- `(config or {}).get(key, True)`, as a truth value.
unfoldable pub flag : String → Fields → Bool
unfolding truthy lookup
flag key config = truthy (get_or (lookup key config) (bool true))

abbrev pub connector_enabled : Source → Bool
connector_enabled source = flag "connector_enabled" source.config_json

unfoldable pub update_source : ℕ → (Source → Source) → Db → Db
update_source id change db = record db {
  sources = map (λ (s : Source). if s.id == id then change s else s) db.sources;
}

-- `source.last_fetched_at = datetime.now(UTC)`
unfoldable pub stamp : (ℕ → ℕ) → Source → Db → Db
unfolding utcnow update_source
stamp clock source db =
    let (now, db') = utcnow clock db in
    update_source source.id (λ s. record s { last_fetched_at = some now }) db'

-- `result.error_message or "ingestion failed"`
abbrev message_of : Option String → String
message_of none = "ingestion failed"
message_of (some text) = if str_eq text "" then "ingestion failed" else text

-- The fields that `record_run_fetch_failure` passes.
abbrev pub run_failure_fields : Source → IngestionResult → Option ℕ → FailureFields
run_failure_fields source result scheduler_run_id = record {
  source_id = source.id;
  error_message = message_of result.error_message;
  raw_payload = none;
  scheduler_run_id = scheduler_run_id;
  page = none;
  url = none;
  blocked_status = elim result.blocked_status [ none ↦ none | some code ↦ some (some code) ];
}

unfoldable pub record_run_fetch_failure : (ℕ → ℕ) → Source → IngestionResult → Option ℕ → Db → Db
unfolding record_failure source_key
record_run_fetch_failure clock source result scheduler_run_id db =
    if result.ok
    then db
    else record_failure clock (source_key source.id) run_fetch_failed
        (run_failure_fields source result scheduler_run_id) db

-- The callbacks of a door, which share the local variables `A`.
pub record Callbacks (A : Type 0) : Type 0 where
  pub before_dispatch : Option (Source → A → Db → A × Db)
  pub on_success : Source → IngestionResult → A → Db → Db
  pub on_error : Source → String → A → Session → Session

-- How a run ends: it is refused before anything is dispatched, or it returns the result of the
-- dispatch or the exception that this raised.
pub data Ended : Type 0 where
  refused : Refusal → Ended
  returned : IngestionResult → Ended
  raised : String → Ended

-- The connectors' own `run` is `dispatch`, over the world `W`: it returns a result, or raises.
abbrev pub Dispatch : Type 0 → Type 0
Dispatch W = Source → Bool → Session × W → (IngestionResult ⊎ String) × (Session × W)

module _ {A W : Type 0} (clock : ℕ → ℕ) (dispatch : Dispatch W) (callbacks : Callbacks A) where
  unfoldable pub stamp_ok : Source → IngestionResult → Db → Db
  unfolding stamp
  stamp_ok source result db = if result.ok then stamp clock source db else db

  -- Below the dispatch.
  unfoldable pub settle :
      Source → A → (IngestionResult ⊎ String) × (Session × W) → (Ended × A) × (Session × W)
  unfolding stamp_ok
  settle source a (inr exc, (s, world)) =
      ((raised exc, a), (callbacks.on_error source exc a s, world))
  settle source a (inl result, (s, world)) = (
    (returned result, a),
    (
      commit (record s {
        live = callbacks.on_success source result a (stamp_ok source result s.live);
      }),
      world,
    ),
  )

  -- `before_dispatch`, with the commit after it.
  unfoldable pub prepare : Source → A → Session → A × Session
  prepare source a s = elim callbacks.before_dispatch [
    | none ↦ (a, s)
    | some before ↦ let (a', db) = before source a s.live in (a', commit (record s { live = db }))
  ]

  unfoldable pub run_source : Source → Bool → A → Session × W → (Ended × A) × (Session × W)
  unfolding settle prepare
  run_source source force_refresh a (s, world) =
      let (a', s') = prepare source a s in
      settle source a' (dispatch source force_refresh (s', world))

  unfoldable pub run_resolved :
      Refusal ⊎ Source → Bool → A → Session × W → (Ended × A) × (Session × W)
  unfolding run_source flag
  run_resolved (inl refusal) force_refresh a s = ((refused refusal, a), s)
  run_resolved (inr source) force_refresh a s =
      if connector_enabled source
      then run_source source force_refresh a s
      else ((refused connector_disabled, a), s)

  -- `run_with_lifecycle`, with the database as it is left.
  unfoldable pub run_with_lifecycle : String → Bool → A → Db × W → (Ended × A) × (Db × W)
  unfolding run_resolved resolve_source_by_connector
  run_with_lifecycle connector force_refresh a (db, world) =
      let (out, (s, world')) =
        run_resolved (resolve_source_by_connector connector db.sources) force_refresh a
          (open_session db, world) in
      (out, (closed s, world'))
