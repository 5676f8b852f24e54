-- ===== src/Lib.antt =====
-- recruFlow collects job offers from several sites, stores them without duplicates, scores them
-- against a profile with a language model, and keeps a row for every failure so that it can be
-- retried. This library models the Python service (app/) as pure functions on a database value,
-- and proves what its parts promise each other.
--
-- The parts and their files:
-- Db.antt (app/db/models.py): each table is a list of records, and the database is one value with
-- a counter for the ids and the number of times that the clock was read. A moment is a number of
-- microseconds.
-- Data/Json.antt and Data/Text.antt: JSON values and the methods of str that the code calls.
-- Data/Text/Digits.antt: the decimal text of a number determines the number.
-- Schemas.antt (app/schemas/offer.py, app/schemas/profile.py): the Offer with its constraints and
-- its validators.
-- Connectors/ProxyPool.antt (app/connectors/proxy_pool.py): get_proxy, report_failure and top_up,
-- as functions on the pool and as the locked steps of several threads. try_get_proxy and
-- try_report_failure give none where random.choice or list.remove would raise; get_proxy and
-- report_failure are what the callers go on with.
-- Connectors/Http.antt (app/connectors/http.py): _get as a loop over three attempts, and the
-- decoders fetch_json, fetch_xml, fetch_gzip_xml and fetch_text as fetch.
-- Dlq/Service.antt (app/dlq/types.py, app/dlq/service.py): the failure types, and record_failure
-- as an upsert by dedup_key.
-- Dlq/Retry.antt (app/dlq/retry.py): the handlers, perform_retry and run_detail_retry_batch. A
-- handler that raises ends the batch.
-- Ingestion/Dedup.antt and Ingestion/Persist.antt (app/ingestion/dedup.py,
-- app/ingestion/persist.py): the hash of an offer, its validation, its content duplicates and its
-- insertion.
-- Ingestion/Runner.antt (app/ingestion/runner.py): run_paginated_ingestion, over a connector that
-- is given as fetch_page and map_offer. A map_offer that gives none raises, and so does a
-- comparison of a naive date with an aware one; the loop then stops with what it has stored, and
-- the flag raised says that no result is returned.
-- Connectors/SitemapDetail.antt (app/connectors/sitemap_detail.py, app/connectors/sitemap.py): a
-- connector that walks a list of pages through the runner and stores the cursor where it stopped;
-- SitemapDetail/Run.antt is run over everything or over terms, and Boards/Sitemaps.antt
-- (app/connectors/rocket_jobs.py, bulldogjob.py) enumerates the pages.
-- Ingestion/Normalize.antt and Ingestion/FetchScope.antt (app/ingestion/normalize.py,
-- app/ingestion/fetch_scope.py): the vocabularies and what a label, a salary or a payload
-- becomes, and which terms narrow a run.
-- Connectors/JobBoard.antt (app/connectors/base.py): JobBoardConnector as a record of its hooks,
-- with fetch_page and run.
-- Connectors/Payload.antt and Connectors/Boards/ (app/connectors/justjoinit.py, nofluffjobs.py,
-- solid_jobs.py, remoteok.py, remotive.py, bulldogjob.py, rocket_jobs.py, we_work_remotely.py):
-- what map_offer makes of a payload. A mapped offer is a JSON object; Bulldogjob's map_offer
-- returns none where the code raises, and a run that raises is none beside the database that it
-- leaves.
-- Connectors/Pracuj/ (app/connectors/pracuj.py): the browser behind the proxies, the listing and
-- its cursor, the salary, the mapping, run and the retry. The browser's state is a parameter of
-- the enumeration, and a Navigation in Browser.antt.
-- Routes/Offers/ (app/api/routes/offers.py, app/schemas/offer.py): the cleanup of old offers, the
-- list with its filters, orders and pages, one offer, its score, and its edit. A transaction is a
-- function on the database.
-- Routes/Failures.antt (app/api/routes/failures.py, app/dlq/registry.py, list_failures of
-- app/dlq/service.py): the pages of a queue, and the retry of one of its failures.
-- Profiles.antt (app/db/profile_repo.py): the upsert and the activation of profiles.
-- Ingestion/Registry.antt, Ingestion/Lifecycle.antt, Ingestion/Service.antt
-- (app/ingestion/registry.py, lifecycle.py and service.py beside it): run_with_lifecycle over a
-- session, which is the committed database and the one that is seen, and the run on request.
-- Scheduler/Runs.antt, Scheduler/Triggers.antt, Scheduler/Service.antt, Scheduler/Config.antt
-- (app/scheduler/): the records of runs, the triggers, the scheduled run with its callbacks, and
-- the settings of the sources.
-- Scoring/Selection.antt and Scoring/Batch.antt (app/scoring/batch.py, app/llm/matcher.py): the
-- selection of candidates, the loop over the outcomes of the matcher, and the summary of a batch,
-- which is none where a fetch range, a stored profile or a stored offer makes it raise.
-- Scoring/Retry.antt (app/dlq/retry.py): the retry of a scoring failure. Scoring/Matcher.antt
-- (app/llm/matcher.py): the score of one offer from the answer of the model.
-- Scheduler/Service/Fed.antt (app/connectors/base.py): a connector that feeds the runner, as a
-- dispatch that the scheduler can rely on.
-- Tests: concrete data, runs of the model on it, and the theorems at concrete inputs.
--
-- How they interact: a connector's feed runs in the runner, which persists offers and records
-- failures; the lifecycle runs a connector's dispatch for the scheduler and for a request; the
-- retries call the run on request or a connector's fetch of one page; the scoring batch reads the
-- offers and records its own failures.
--
-- Outside the model: SHA-256, pydantic's conversion of raw values and its messages, the reading
-- of dates, the clock, random draws, proxy scrapes, HTTP responses, the reading of cron
-- expressions and whether APScheduler takes an interval are parameters (Host, Outside and
-- arguments). So are the connectors' own requests, what a browser loads, the JSON inside a page,
-- ILIKE, the model's answer for an offer, the arithmetic of floats and re.search. Of the
-- statements that a database refuses, only a null in an edited offer is modelled. Logging,
-- rate-limit pauses and request headers decide nothing and are left out. A fetch has the source's
-- bound of three attempts, a run its max_pages, and a top-up its budget: these are the only loops
-- that are not over a list, and each is a recursion on the source's own bound.
pub mod Base
pub mod Data
pub mod Schemas
pub mod Db
pub mod Connectors
pub mod Ingestion
pub mod Dlq
pub mod Scheduler
pub mod Scoring
pub mod Profiles
pub mod Routes
pub mod Tests
