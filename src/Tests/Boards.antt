-- ===== src/Tests/Boards.antt =====
-- The boards and the run that they share, at concrete inputs.
use recru_flow.Base.{ℕ, zero, suc, ◌+◌, String, true, false, Option, none, some, List, [], ◌∷◌}
use recru_flow.Base.Int.{pos}
use recru_flow.Data.Json.{Value, obj, arr, str, int, Fields, end, field, nil, cons}
use recru_flow.Schemas.{Profile}
use recru_flow.Db.{Db, Source}
use recru_flow.Connectors.Http.{Fetched, got, blocked}
use recru_flow.Ingestion.Normalize.{seniority_vocab, vocab_of, items_of, normalize_seniority}
use recru_flow.Ingestion.Normalize.Levels.{Seniority, normalize_seniority-Seniority}
use recru_flow.Connectors.JobBoard.{Board, RunnerKwargs, run}
use recru_flow.Connectors.JobBoard.Terms.{RunLeaves, run-RunLeaves}
use recru_flow.Connectors.Boards.Mapped.{MapsOf}
use recru_flow.Connectors.Boards.Every.{Readers, BoardName, map_offer_of, map_offer_of-IsMapped}
use recru_flow.Tests.Samples.{host, backend, frontend, source, empty_db}

abbrev levels : Value
levels = arr (cons (str "Senior") (cons (str "Ninja") (cons (str "senior ") nil)))

normalize_seniority-Seniority_example :
    Seniority
      (vocab_of "justjoinit" seniority_vocab)
      (items_of levels)
      (normalize_seniority "justjoinit" levels)
normalize_seniority-Seniority_example = normalize_seniority-Seniority "justjoinit" levels

-- A profile with one hard skill.
abbrev read_profile : Fields → Option Profile
read_profile payload = some (record {
  skills = record { name = "python"; hard = true } ∷ record { name = "french"; hard = false } ∷ [];
  salary_min = none;
  salary_target = none;
  deal_breakers = [];
})

abbrev profiled : Db
profiled = record empty_db {
  profiles = record { id = 1; name = "me"; status = "ready"; is_active = true; payload = end } ∷ [];
}

abbrev narrowed : Fields
narrowed = field "fetch_scope" (obj (field "mode" (str "filtered") end)) end

-- A board whose first request is answered and whose second is blocked.
abbrev answers : ℕ → Fetched Value
answers zero = got (arr (cons (obj backend) (cons (obj frontend) nil)))
answers (suc n) = blocked 403

abbrev board : Board ℕ ℕ
board = record {
  name = "board";
  request = λ config cursor page_size world. (answers world, world + 1);
  extract_offers = λ payload. some (backend ∷ frontend ∷ []);
  next_cursor = λ payload offers cursor page_size. none;
  map_offer = λ source_id raw. some raw;
  supports_fetch_scope = true;
  apply_fetch_scope_term = λ config term. field "query" (str term) config;
}

abbrev kwargs : RunnerKwargs
kwargs = record { page_size = 2; max_pages = 1; already_seen_stop_threshold = 20 }

abbrev scoped : Source
scoped = record source { config_json = narrowed }

run-RunLeaves_example :
    RunLeaves profiled.offers 0 (run host board 0 kwargs scoped false read_profile profiled 0)
run-RunLeaves_example = run-RunLeaves host board 0 kwargs scoped false read_profile profiled 0 tt

abbrev readers : Readers
readers = record {
  from_timestamp = λ v. 0;
  isoformat_utc = λ s. some s;
  url_path = λ s. s;
  ceiling_text = λ s. none;
  int_of = λ s. none;
  pub_date = λ s. some s;
}

map_offer_of-IsMapped_example : MapsOf 1 (map_offer_of readers host BoardName.pracuj 1 backend)
map_offer_of-IsMapped_example = map_offer_of-IsMapped readers host BoardName.pracuj 1 backend

abbrev entry : String → ℕ → Fields
entry contract unit = field "pracujPlName" (str contract) (
    field "salary"
      (obj (
        field "from" (int (pos 9000))
          (field "timeUnit" (obj (field "id" (int (pos unit)) end)) end)))
      end)

abbrev entries : List Fields
entries = entry "kontrakt B2B" 1 ∷ entry "umowa zlecenie" 0 ∷ entry "umowa o pracę" 0 ∷ []
