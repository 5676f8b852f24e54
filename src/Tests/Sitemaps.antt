-- ===== src/Tests/Sitemaps.antt =====
-- The runs over the sitemaps of a connector at concrete inputs.
use recru_flow.Base.{
  String, ◌≡◌, refl, true, false, Option, none, some, List, [], ◌∷◌, map, str_eq, if◌then◌else◌,
}
use recru_flow.Base.Int.{ℤ, pos}
use recru_flow.Data.Json.{Value, int, Fields, end, field}
use recru_flow.Schemas.{Profile, validate_offer}
use recru_flow.Db.{Source}
use recru_flow.Data.Text.{strip}
use recru_flow.Ingestion.Dedup.{compute_dedup_hash}
use recru_flow.Ingestion.Persist.{ingest_offer, find_content_duplicate, find_hash}
use recru_flow.Ingestion.Runner.{resolve_fetch_range}
use recru_flow.Connectors.ProxyPool.{Outside, get_proxy}
use recru_flow.Connectors.Http.{Outcome, response, got, Net}
use recru_flow.Connectors.SitemapDetail.{Site, Settings}
use recru_flow.Connectors.SitemapDetail.Run.{Sitemaps, run, run_terms}
use recru_flow.Connectors.SitemapDetail.Run.Leaves.{run-Leaves}
use recru_flow.Connectors.JobBoard.Terms.{RunLeaves}
use recru_flow.Connectors.Boards.Sitemaps.{rocket_jobs_urls}
use recru_flow.Tests.Samples.{host, source, empty_db, backend, frontend}

abbrev outside : Outside
outside = record { scrape = λ n. some "10.0.0.1"; draw = λ n. 0 }

abbrev net : Net String
net = record { pool = record { target_size = 1; good = []; scrapes = 0; draws = 0 }; log = [] }

abbrev send : List (String × Outcome String) → String → String → Outcome String
send log url proxy = response url

abbrev site : Site
site = record {
  name = "Rocket Jobs";
  extract_detail_json = λ html url. some (if str_eq html "p1" then backend else frontend);
  map_offer = λ source_id raw. some raw;
}

-- The sitemap names two pages.
abbrev find_locs : String → String → Option (List (Option String))
find_locs xml tag = if str_eq tag "url" then some (some " p1" ∷ none ∷ some "p2 " ∷ []) else none

abbrev sitemaps : Sitemaps
sitemaps = record {
  supports_fetch_scope = true;
  fetch_sitemap_urls = rocket_jobs_urls host outside send find_locs;
  fetch_filtered_sitemap_urls = λ config term net. (got ("p1" ∷ "p2" ∷ []), net);
}

abbrev settings : Settings
settings = record { page_size = 1; max_pages = 2; already_seen_stop_threshold = 20 }

abbrev to_int : Value → ℤ
to_int v = pos 0

abbrev read_profile : Fields → Option Profile
read_profile payload = none

-- The run reads the sitemap and both pages.
run-Leaves_example :
    RunLeaves empty_db.offers 0
      (run host outside send site to_int sitemaps source settings false read_profile empty_db net)
run-Leaves_example =
    run-Leaves host outside send site to_int sitemaps source settings false read_profile empty_db
      net tt

both_pages :
    map
      (λ r. r.1)
      (run host outside send site to_int sitemaps source settings false read_profile empty_db
        net).1.1.log
    ≡ response "https://rocketjobs.pl/sitemaps/active-jobs.xml" ∷ response "p1" ∷ response "p2" ∷ []
unfolding run rocket_jobs_urls get_proxy resolve_fetch_range ingest_offer validate_offer strip
    find_content_duplicate find_hash compute_dedup_hash
both_pages = refl

-- The settings hold the cursor of an earlier run over everything.
abbrev moved : Source
moved = record source { config_json = field "sitemap_cursor" (int (pos 1)) end }

-- A run over a term starts there too, and never reads the first page of the term.
first_page_skipped :
    map
      (λ r. r.1)
      (run_terms host outside send site to_int sitemaps moved settings false
        ("python" ∷ [])
        0
        0
        empty_db
        net).1.1.log
    ≡ response "p2" ∷ []
unfolding run_terms get_proxy resolve_fetch_range ingest_offer validate_offer strip
    find_content_duplicate find_hash compute_dedup_hash
first_page_skipped = refl
