-- ===== src/Tests/Samples.antt =====
-- Concrete data: a host that reads four fields, an empty database with one source, two offers.
use recru_flow.Base.{ℕ, ◌+◌, String, true, false, Option, none, some, [], ◌∷◌}
use recru_flow.Base.Int.{pos}
use recru_flow.Data.Json.{Value, str, datetime, Fields, end, field, get, as_str}
use recru_flow.Schemas.{Offer}
use recru_flow.Db.{Db, Source, IngestionFailure}
use recru_flow.Ingestion.Persist.{Host}

abbrev pub offer_of : String → String → Option String → Offer
offer_of title company url = record {
  source_id = pos 1;
  external_id = none;
  canonical_url = url;
  title = title;
  company = company;
  location = some "Kraków";
  remote = true;
  seniority = none;
  salary_min = some (pos 10000);
  salary_max = some (pos 15000);
  salary_currency = "PLN";
  contract_type = some "b2b";
  posted_at = none;
  description = none;
  industry_tags = [];
}

-- A raw offer needs a title and a company.
abbrev pub coerce_two : Fields → Option Offer
coerce_two raw = elim (as_str (get "title" raw)) [
  | none ↦ none
  | some title ↦ elim (as_str (get "company" raw)) [
    | none ↦ none
    | some company ↦ some (offer_of title company (as_str (get "canonical_url" raw)))
  ]
]

abbrev pub read_date : Value → Option ℕ
read_date (datetime moment) = some moment
read_date _ = none

abbrev pub host : Host
host = record {
  coerce = coerce_two;
  complain = λ raw. "title and company are needed";
  parse_datetime = read_date;
  is_naive = λ v. false;
  repr = λ v. "value";
  sha256 = λ s. s;
  clock = λ n. 1000 + n;
}

abbrev pub raw_offer : String → String → String → Fields
raw_offer title company url =
    field "title" (str title) (field "company" (str company) (field "canonical_url" (str url) end))

abbrev pub backend : Fields
backend = raw_offer "Backend" "Acme" "https://jobs.example/backend"

abbrev pub frontend : Fields
frontend = raw_offer "Frontend" "Acme" "https://jobs.example/frontend"

abbrev pub source : Source
source = record {
  id = 1;
  name = "NoFluffJobs";
  connector = some "nofluffjobs";
  config_json = end;
  last_fetched_at = none;
}

abbrev pub empty_db : Db
empty_db = record {
  sources = source ∷ [];
  offers = [];
  profiles = [];
  match_scores = [];
  scheduler_runs = [];
  ingestion_failures = [];
  scoring_failures = [];
  applications = [];
  cv_versions = [];
  next_id = 2;
  reads = 0;
}

-- A source's row that is open and blocked.
abbrev pub blocked_row : ℕ → String → String → ℕ → IngestionFailure
blocked_row id key failure_type retry_count = record {
  id = id;
  dedup_key = key;
  failure_type = failure_type;
  error_message = "failed to fetch";
  raw_payload = none;
  status = "open";
  occurred_at = 10;
  resolved_at = none;
  source_id = 1;
  scheduler_run_id = none;
  page = none;
  url = none;
  blocked_status = some 403;
  retry_count = retry_count;
}

-- One row with attempts left, and one with none.
abbrev pub failing_db : Db
failing_db = record empty_db {
  ingestion_failures =
      blocked_row 5 "source:1" "run_fetch_failed" 1
      ∷ blocked_row 6 "source:1:detail_url:x" "detail_fetch_blocked" 3
      ∷ [];
}
