-- ===== src/Tests/Failures.antt =====
-- The listing of the failures at concrete inputs.
use recru_flow.Base.{◌≡◌, refl, none, some, [], ◌∷◌}
use recru_flow.Db.{Db}
use recru_flow.Routes.Offers.View.{Reply}
use recru_flow.Routes.Failures.{Params, ingestion_list, list_failures_route}
use recru_flow.Tests.Samples.{empty_db, blocked_row}

abbrev queue : Db
queue = record empty_db {
  ingestion_failures =
      record (blocked_row 5 "a" "run_fetch_failed" 1) { occurred_at = 10 }
      ∷ record (blocked_row 6 "b" "run_fetch_failed" 1) { occurred_at = 30 }
      ∷ record (blocked_row 7 "c" "run_fetch_failed" 1) { occurred_at = 20; status = "resolved" }
      ∷ record (blocked_row 8 "d" "run_fetch_failed" 1) { occurred_at = 20 }
      ∷ [];
}

abbrev params : Params
params = record {
  failure_type = some "run_fetch_failed";
  source = some "nofluffjobs";
  offer_id = none;
  profile_id = none;
  status = some "open";
  limit = 2;
  offset = 0;
}

-- The newest open rows of the source, and how many there are.
newest_open :
    list_failures_route "ingestion" params queue
    ≡ Reply.ok (
        ingestion_list (
          record (blocked_row 6 "b" "run_fetch_failed" 1) { occurred_at = 30 }
              ∷ record (blocked_row 8 "d" "run_fetch_failed" 1) { occurred_at = 20 }
              ∷ [],
          3,
        ))
unfolding list_failures_route
newest_open = refl

-- An unknown connector has no failures, and the other queue is not filtered by connectors.
unknown_source :
    list_failures_route "ingestion" (record params { source = some "else" }) queue
    ≡ Reply.ok (ingestion_list ([], 0))
unfolding list_failures_route
unknown_source = refl

unsupported_source : list_failures_route "scoring" params queue ≡ Reply.failed
unfolding list_failures_route
unsupported_source = refl
