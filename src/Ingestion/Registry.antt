-- ===== src/Ingestion/Registry.antt =====
-- app/ingestion/registry.py: the connectors that exist, and the source of a connector.
use recru_flow.Base.{
  String, ◌⊎◌, inl, inr, Bool, false, not, none, some, List, [], ◌∷◌, str_eq, if◌then◌else◌, any,
  find,
}
use recru_flow.Db.{Source}

-- The keys of `CONNECTOR_REGISTRY`, in their order.
abbrev pub connector_registry : List String
connector_registry =
    "solid_jobs" ∷ "justjoinit" ∷ "nofluffjobs" ∷ "bulldogjob" ∷ "rocket_jobs" ∷ "pracuj"
    ∷ "remoteok" ∷ "remotive" ∷ "we_work_remotely" ∷ []

-- `supports_fetch_scope=True`
abbrev pub supports_fetch_scope : String → Bool
supports_fetch_scope connector =
    any (λ name. str_eq name connector) ("solid_jobs" ∷ "bulldogjob" ∷ "pracuj" ∷ [])

-- Why a connector is not run: the two `SchedulerLookupError`s, and `ConnectorDisabledError`.
pub data Refusal : Type 0 where
  unknown_connector source_not_configured connector_disabled : Refusal

-- `Source.connector == connector`
abbrev pub is_source_of : String → Source → Bool
is_source_of connector source = elim source.connector [
  | none ↦ false
  | some name ↦ str_eq name connector
]

unfoldable pub resolve_source_by_connector : String → List Source → Refusal ⊎ Source
unfolding any find
resolve_source_by_connector connector sources =
    if not (any (λ name. str_eq name connector) connector_registry)
    then inl unknown_connector
    else elim (find (is_source_of connector) sources) [
      | none ↦ inl source_not_configured
      | some source ↦ inr source
    ]
