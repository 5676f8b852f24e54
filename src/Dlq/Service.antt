-- ===== src/Dlq/Service.antt =====
-- app/dlq/types.py and app/dlq/service.py: the vocabulary of failures, and the upsert that keeps one
-- row per failing resource.
pub mod Upsert
use recru_flow.Base.{
  ℕ, zero, suc, ◌+◌, ◌-◌, ◌*◌, ◌/◌, ◌%◌, ◌≤◌, ◌<◌, min, max, String, ◌<>◌, ◌≡◌, refl, sym, ap, ◌∙◌,
  ◌≢◌, ◌↔◌, ◌⊎◌, inl, inr, Bool, true, false, not, ◌&&◌, ◌||◌, Option, none, some, List, [], ◌∷◌,
  ◌++◌, map, foldl, append-nil, append_assoc, arith, str_eq, eq_iff, eq_refl, ltb, leb, ◌==◌,
  if◌then◌else◌, ltb→lt, lt→ltb, leb→le, le→leb, ==_iff, tests, Bool-cases, Option-cases, is_none,
  is_some, get_or, or_else, length, get_elem?, take, drop, filter, any, all, find, All,
  length-append, length-take, length-drop, take-append-drop, length-filter-le, any-append,
  filter-append, All-append, All-map, All-filter, length-filter-not, length-map,
}
use recru_flow.Data.Text.{show}
use recru_flow.Data.Json.{Fields}
use recru_flow.Db.{Db, IngestionFailure, ScoringFailure, utcnow}

pub data FailureType : Type 0 where
  validation_failed page_fetch_failed run_fetch_failed scoring_failed detail_fetch_blocked :
      FailureType

-- The texts of the `StrEnum`.
unfoldable pub value_of : FailureType → String
value_of validation_failed = "validation_failed"
value_of page_fetch_failed = "page_fetch_failed"
value_of run_fetch_failed = "run_fetch_failed"
value_of scoring_failed = "scoring_failed"
value_of detail_fetch_blocked = "detail_fetch_blocked"

-- `FailureType(text)`: `none` for the `ValueError`.
unfoldable pub parse_failure_type : String → Option FailureType
unfolding value_of
parse_failure_type text =
    if str_eq text "validation_failed"
    then some validation_failed
    else if str_eq text "page_fetch_failed"
    then some page_fetch_failed
    else if str_eq text "run_fetch_failed"
    then some run_fetch_failed
    else if str_eq text "scoring_failed"
    then some scoring_failed
    else if str_eq text "detail_fetch_blocked"
    then some detail_fetch_blocked
    else none

-- The keyword arguments of `record_failure` for an ingestion failure. A field that the caller does
-- not pass is `none`: the upsert then leaves the column of an existing row alone.
pub record FailureFields : Type 0 where
  pub source_id : ℕ
  pub error_message : String
  pub raw_payload : Option Fields
  pub scheduler_run_id : Option ℕ
  pub page : Option ℕ
  pub url : Option String
  -- `none` if it is not passed; some callers pass `None`.
  pub blocked_status : Option (Option ℕ)

abbrev pub given {ℓ} : {A : Type ℓ} → Option A → A → A
given none old = old
given (some a) old = a

-- The row that `VALUES` would insert.
unfoldable pub fresh_failure : ℕ → String → FailureType → FailureFields → ℕ → IngestionFailure
unfolding value_of
fresh_failure id key failure_type fields now = record {
  id = id;
  dedup_key = key;
  failure_type = value_of failure_type;
  error_message = fields.error_message;
  raw_payload = fields.raw_payload;
  status = "open";
  occurred_at = now;
  resolved_at = none;
  source_id = fields.source_id;
  scheduler_run_id = fields.scheduler_run_id;
  page = fields.page;
  url = fields.url;
  blocked_status = given fields.blocked_status none;
  retry_count = 0;
}

-- `ON CONFLICT (dedup_key) DO UPDATE SET ...`
unfoldable pub reopen : FailureType → FailureFields → ℕ → IngestionFailure → IngestionFailure
unfolding value_of
reopen failure_type fields now row = record row {
  failure_type = value_of failure_type;
  error_message = fields.error_message;
  raw_payload = or_else fields.raw_payload row.raw_payload;
  status = "open";
  occurred_at = now;
  resolved_at = none;
  source_id = fields.source_id;
  scheduler_run_id = or_else fields.scheduler_run_id row.scheduler_run_id;
  page = or_else fields.page row.page;
  url = or_else fields.url row.url;
  blocked_status = given fields.blocked_status row.blocked_status;
}

-- The upsert on the table: the row with the key is updated, or a new one is added behind.
unfoldable pub upsert :
    ℕ → String → FailureType → FailureFields → ℕ → List IngestionFailure → List IngestionFailure
unfolding fresh_failure reopen
upsert id key failure_type fields now [] = fresh_failure id key failure_type fields now ∷ []
upsert id key failure_type fields now (row ∷ rows) =
    if str_eq row.dedup_key key
    then reopen failure_type fields now row ∷ rows
    else row ∷ upsert id key failure_type fields now rows

-- `build_detail_url_dedup_key`, over the hash of the URL.
unfoldable pub build_detail_url_dedup_key : (String → String) → ℕ → String → String
build_detail_url_dedup_key sha256 source_id url =
    "source:" <> (show source_id <> (":detail_url:" <> sha256 url))

-- The key of the one row that stands for a whole source.
unfoldable pub source_key : ℕ → String
source_key source_id = "source:" <> show source_id

module _ (clock : ℕ → ℕ) where
  -- `record_failure(session, IngestionFailure, ...)`. A sequence value is drawn on a conflict too.
  unfoldable pub record_failure : String → FailureType → FailureFields → Db → Db
  unfolding upsert utcnow
  record_failure key failure_type fields db =
      let (now, db') = utcnow clock db in
      record db' {
        ingestion_failures = upsert db.next_id key failure_type fields now db.ingestion_failures;
        next_id = db.next_id + 1;
      }

-- `record_failure(session, ScoringFailure, ...)`: the same upsert on the other table.
unfoldable pub upsert_scoring :
    ℕ → String → FailureType → String → ℕ → ℕ → ℕ → List ScoringFailure → List ScoringFailure
unfolding value_of
upsert_scoring id key failure_type message offer_id profile_id now [] =
    record {
      id = id;
      dedup_key = key;
      failure_type = value_of failure_type;
      error_message = message;
      status = "open";
      occurred_at = now;
      resolved_at = none;
      offer_id = offer_id;
      profile_id = profile_id;
    }
    ∷ []
upsert_scoring id key failure_type message offer_id profile_id now (row ∷ rows) =
    if str_eq row.dedup_key key
    then record row {
      failure_type = value_of failure_type;
      error_message = message;
      status = "open";
      occurred_at = now;
      resolved_at = none;
      offer_id = offer_id;
      profile_id = profile_id;
    }
      ∷ rows
    else row ∷ upsert_scoring id key failure_type message offer_id profile_id now rows

module _ (clock : ℕ → ℕ) where
  unfoldable pub record_scoring_failure : String → FailureType → String → ℕ → ℕ → Db → Db
  unfolding upsert_scoring utcnow
  record_scoring_failure key failure_type message offer_id profile_id db =
      let (now, db') = utcnow clock db in
      record db' {
        scoring_failures =
            upsert_scoring db.next_id key failure_type message offer_id profile_id now
              db.scoring_failures;
        next_id = db.next_id + 1;
      }
