-- ===== src/Db.antt =====
-- app/db/models.py: the rows of the tables that the program writes, and the database as one value.
-- A moment is a number of microseconds. An id comes from the counter of its table.
use recru_flow.Base.{ℕ, ◌+◌, String, Bool, Option, List}
use recru_flow.Data.Json.{Fields}
use recru_flow.Schemas.{Offer}

pub record Source : Type 0 where
  pub id : ℕ
  pub name : String
  pub connector : Option String
  pub config_json : Fields
  pub last_fetched_at : Option ℕ

pub record OfferRow : Type 0 where
  pub id : ℕ
  pub dedup_hash : String
  pub offer : Offer
  pub applied : Bool
  pub hide : Bool
  pub notes : Option String
  pub link_opened_at : Option ℕ
  pub raw_payload : Fields
  pub created_at : ℕ
  pub updated_at : ℕ

pub record ProfileRow : Type 0 where
  pub id : ℕ
  pub name : String
  pub status : String
  pub is_active : Bool
  pub payload : Fields

pub record MatchScoreRow : Type 0 where
  pub id : ℕ
  pub offer_id : ℕ
  pub profile_id : ℕ
  pub score_percent : ℕ
  pub rationale : String
  pub created_at : ℕ

pub record SchedulerRun : Type 0 where
  pub id : ℕ
  pub source_id : ℕ
  pub trigger_type : String
  pub status : String
  pub fetched_count : Option ℕ
  pub created_count : Option ℕ
  pub warning : Bool
  pub error_message : Option String
  pub started_at : ℕ
  pub finished_at : Option ℕ

-- `DeadLetterMixin` with the columns of `IngestionFailure`.
pub record IngestionFailure : Type 0 where
  pub id : ℕ
  pub dedup_key : String
  pub failure_type : String
  pub error_message : String
  pub raw_payload : Option Fields
  pub status : String
  pub occurred_at : ℕ
  pub resolved_at : Option ℕ
  pub source_id : ℕ
  pub scheduler_run_id : Option ℕ
  pub page : Option ℕ
  pub url : Option String
  pub blocked_status : Option ℕ
  pub retry_count : ℕ

-- `DeadLetterMixin` with the columns of `ScoringFailure`.
pub record ScoringFailure : Type 0 where
  pub id : ℕ
  pub dedup_key : String
  pub failure_type : String
  pub error_message : String
  pub status : String
  pub occurred_at : ℕ
  pub resolved_at : Option ℕ
  pub offer_id : ℕ
  pub profile_id : ℕ

pub record Application : Type 0 where
  pub id : ℕ
  pub offer_id : ℕ
  pub profile_id : ℕ

pub record CvVersion : Type 0 where
  pub id : ℕ
  pub offer_id : ℕ
  pub profile_id : ℕ

pub record Db : Type 0 where
  pub sources : List Source
  pub offers : List OfferRow
  pub profiles : List ProfileRow
  pub match_scores : List MatchScoreRow
  pub scheduler_runs : List SchedulerRun
  pub ingestion_failures : List IngestionFailure
  pub scoring_failures : List ScoringFailure
  pub applications : List Application
  pub cv_versions : List CvVersion
  -- The next id of every sequence, and how often the clock was read.
  pub next_id : ℕ
  pub reads : ℕ

-- A fresh id. One counter serves all tables: ids of two tables are never compared.
abbrev pub with_next_id : Db → Db
with_next_id db = record db { next_id = db.next_id + 1 }

-- `datetime.now(UTC)` and the database's `now()` read a clock that the environment moves.
unfoldable pub utcnow : (ℕ → ℕ) → Db → ℕ × Db
utcnow clock db = (clock db.reads, record db { reads = db.reads + 1 })
