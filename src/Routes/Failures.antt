-- ===== src/Routes/Failures.antt =====
-- app/api/routes/failures.py, with the queues of app/dlq/registry.py and list_failures of
-- app/dlq/service.py. A response repeats the columns of its row.
use recru_flow.Base.{
  ℕ, String, Bool, true, false, ◌&&◌, ◌||◌, Option, none, some, List, [], ◌∷◌, str_eq, leb, ◌==◌,
  if◌then◌else◌, is_some, length, take, drop, filter, find,
}
use recru_flow.Base.Int.{ℤ, pos, negsuc}
use recru_flow.Db.{Db, Source, IngestionFailure, ScoringFailure}
use recru_flow.Data.Json.{Fields}
use recru_flow.Schemas.{Profile, Offer}
use recru_flow.Dlq.Retry.{Actions, perform_retry}
use recru_flow.Ingestion.Persist.{Host}
use recru_flow.Routes.Offers.View.{Reply}
use recru_flow.Scoring.Batch.{Verdict}
use recru_flow.Scoring.Retry.{perform_scoring_retry}

-- The keys of `DEAD_LETTER_REGISTRY`.
pub data Process : Type 0 where
  ingestion : Process
  scoring : Process

-- `_spec_or_404`
unfoldable pub spec_or_404 : String → Option Process
spec_or_404 name =
    if str_eq name "ingestion"
    then some ingestion
    else if str_eq name "scoring"
    then some scoring
    else none

-- The query parameters; `none` for the status is "all".
pub record Params : Type 0 where
  pub failure_type : Option String
  pub source : Option String
  pub offer_id : Option ℕ
  pub profile_id : Option ℕ
  pub status : Option String
  pub limit : ℕ
  pub offset : ℕ

-- A parameter that was given and that the queue does not filter by.
unfoldable pub unsupported : Process → Params → Bool
unsupported ingestion params = is_some params.offer_id || is_some params.profile_id
unsupported scoring params = is_some params.source

abbrev no_matching_source_id : ℤ
no_matching_source_id = negsuc 0

abbrev id_of : Option Source → ℤ
id_of none = no_matching_source_id
id_of (some source) = pos source.id

abbrev is_connector : String → Option String → Bool
is_connector name none = false
is_connector name (some connector) = str_eq connector name

-- The id that `_build_ingestion_filters` resolves.
unfoldable pub resolve_source_id : String → Db → ℤ
unfolding find
resolve_source_id name db = id_of (find (λ (s : Source). is_connector name s.connector) db.sources)

abbrev is_id : ℤ → ℕ → Bool
is_id (pos n) id = id == n
is_id (negsuc n) id = false

-- A filter that is left out where its value is none.
abbrev equals_given {ℓ} : {A : Type ℓ} → (A → Bool) → Option A → Bool
equals_given test none = true
equals_given test (some a) = test a

unfoldable pub keeps_ingestion : Params → Db → IngestionFailure → Bool
unfolding resolve_source_id
keeps_ingestion params db row =
    equals_given (λ name. is_id (resolve_source_id name db) row.source_id) params.source
    && equals_given (str_eq row.failure_type) params.failure_type
    && equals_given (str_eq row.status) params.status

unfoldable pub keeps_scoring : Params → ScoringFailure → Bool
keeps_scoring params row =
    equals_given (λ id. row.offer_id == id) params.offer_id
    && equals_given (λ id. row.profile_id == id) params.profile_id
    && equals_given (str_eq row.failure_type) params.failure_type
    && equals_given (str_eq row.status) params.status

-- `ORDER BY occurred_at DESC`; rows of the same moment stay in the order of the table.
module _ {R : Type 0} (occurred_at : R → ℕ) where
  unfoldable pub insert_failure : R → List R → List R
  insert_failure row [] = row ∷ []
  insert_failure row (other ∷ rows) =
      let later = insert_failure row rows in
      if leb (occurred_at other) (occurred_at row) then row ∷ other ∷ rows else other ∷ later

  unfoldable pub newest_failures : List R → List R
  unfolding insert_failure
  newest_failures [] = []
  newest_failures (row ∷ rows) = insert_failure row (newest_failures rows)

  -- `list_failures`
  unfoldable pub list_failures : ℕ → ℕ → (R → Bool) → List R → List R × ℕ
  unfolding newest_failures filter take drop
  list_failures limit offset keeps rows =
      let kept = filter keeps rows in (take limit (drop offset (newest_failures kept)), length kept)

pub data FailureList : Type 0 where
  ingestion_list : List IngestionFailure × ℕ → FailureList
  scoring_list : List ScoringFailure × ℕ → FailureList

unfoldable pub list_of : Process → Params → Db → FailureList
unfolding list_failures keeps_ingestion keeps_scoring
list_of ingestion params db = ingestion_list (
    list_failures (λ (row : IngestionFailure). row.occurred_at) params.limit params.offset
      (keeps_ingestion params db) db.ingestion_failures)
list_of scoring params db = scoring_list (
    list_failures (λ (row : ScoringFailure). row.occurred_at) params.limit params.offset
      (keeps_scoring params) db.scoring_failures)

-- `list_failures_route`: an unknown queue is not found, and for an unsupported filter (a 400) it fails.
unfoldable pub list_failures_route : String → Params → Db → Reply FailureList
unfolding spec_or_404 unsupported list_of
list_failures_route name params db = elim (spec_or_404 name) [
  | none ↦ Reply.not_found
  | some process ↦
      if unsupported process params then Reply.failed else Reply.ok (list_of process params db)
]

unfoldable pub find_failure : ℕ → Db → Option IngestionFailure
unfolding find
find_failure id db = find (λ (row : IngestionFailure). row.id == id) db.ingestion_failures

unfoldable pub find_scoring_failure : ℕ → Db → Option ScoringFailure
unfolding find
find_scoring_failure id db = find (λ (row : ScoringFailure). row.id == id) db.scoring_failures

-- `retry_failure_route` of the ingestion queue.
module _ {W : Type 0} (host : Host) (actions : Actions W) where
  unfoldable pub retry_ingestion_failure : ℕ → Db × W → Reply IngestionFailure × (Db × W)
  unfolding find_failure perform_retry
  retry_ingestion_failure id (db, world) = elim (find_failure id db) [
    | none ↦ (Reply.not_found, (db, world))
    | some row ↦
        let (after, s) = perform_retry host actions row (db, world) in
        elim after [ none ↦ (Reply.failed, s) | some row' ↦ (Reply.ok row', s) ]
  ]

-- `retry_failure_route` of the scoring queue.
unfoldable pub retry_scoring_failure :
    (ℕ → ℕ)
    → (Fields → Option Profile)
    → (Profile → Offer → Verdict)
    → ℕ
    → Db
    → Reply ScoringFailure × Db
unfolding find_scoring_failure perform_scoring_retry
retry_scoring_failure clock read_profile matcher id db = elim (find_scoring_failure id db) [
  | none ↦ (Reply.not_found, db)
  | some row ↦ elim (perform_scoring_retry clock read_profile matcher row db) [
    | none ↦ (Reply.failed, db)
    | some db' ↦ elim (find_scoring_failure id db') [
      | none ↦ (Reply.failed, db')
      | some row' ↦ (Reply.ok row', db')
    ]
  ]
]
