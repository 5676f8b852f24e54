-- ===== src/Tests/Runs.antt =====
-- Ingestion at concrete inputs.
use recru_flow.Base.{ℕ, zero, suc, ◌≡◌, refl, sym, append-nil, true, false, none, some, [], ◌∷◌}
use recru_flow.Data.Json.{end}
use recru_flow.Connectors.Http.{got, blocked}
use recru_flow.Ingestion.Persist.{
  persist_offer, ingest_offer, find_content_duplicate, find_hash, reject,
}
use recru_flow.Schemas.{validate_offer}
use recru_flow.Data.Text.{strip}
use recru_flow.Ingestion.Dedup.{compute_dedup_hash}
use recru_flow.Ingestion.Persist.Insert.{AllNew, persist_offer-AllNew, persist_offer_once}
use recru_flow.Ingestion.Runner.{Feed, Params, run_paginated_ingestion}
use recru_flow.Ingestion.Runner.Growth.{IsRun, run_paginated_ingestion-IsRun}
use recru_flow.Tests.Samples.{host, backend, frontend, offer_of, empty_db}

-- Two pages, the second of which repeats an offer, and a third that is blocked.
abbrev two_pages : Feed ℕ Unit
two_pages = record {
  fetch_page = λ cursor size world. (
    elim cursor [
      | zero ↦ got (backend ∷ end ∷ [], some 1)
      | suc n ↦ elim n [ zero ↦ got (frontend ∷ backend ∷ [], some 2) | suc m ↦ blocked 403 ]
    ],
    world,
  );
  map_offer = λ source_id raw. some raw;
}

abbrev run_params : Params
run_params = record {
  source_id = 1;
  source_name = "NoFluffJobs";
  page_size = 2;
  max_pages = 5;
  already_seen_stop_threshold = 3;
  force_refresh = false;
  since = none;
  until = none;
  sorted_by_recency = false;
}

run_paginated_ingestion-IsRun_example :
    IsRun host two_pages run_params []
      (run_paginated_ingestion host two_pages run_params 0 empty_db tt)
run_paginated_ingestion-IsRun_example =
    run_paginated_ingestion-IsRun host two_pages run_params 0 empty_db tt tt

-- Two offers are created of four fetched, and the blocked page ends the run as a success.
run_example :
    let result = (run_paginated_ingestion host two_pages run_params 0 empty_db tt).0 in
    (result.ok ≡ true) × (result.fetched ≡ 4) × (result.created ≡ 2)
unfolding run_paginated_ingestion ingest_offer validate_offer strip find_content_duplicate find_hash
    reject compute_dedup_hash
run_example = (refl, refl, refl)

persist_offer-AllNew_example :
    AllNew [] (persist_offer host (offer_of "Backend" "Acme" none) backend empty_db).1.offers
persist_offer-AllNew_example =
    persist_offer-AllNew host (offer_of "Backend" "Acme" none) backend empty_db tt

persist_offer_once_example :
    let later = (persist_offer host (offer_of "Backend" "Acme" none) backend empty_db).1 in
    ((persist_offer host (offer_of "Backend" "Acme" none) frontend later).0.1 ≡ false)
    × ((persist_offer host (offer_of "Backend" "Acme" none) frontend later).1.offers ≡ later.offers)
persist_offer_once_example =
    persist_offer_once host (offer_of "Backend" "Acme" none) backend frontend empty_db
      (persist_offer host (offer_of "Backend" "Acme" none) backend empty_db).1 []
      (sym (append-nil _))
