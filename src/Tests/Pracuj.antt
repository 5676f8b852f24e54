-- ===== src/Tests/Pracuj.antt =====
-- The browser and the listing of Pracuj.pl, at concrete inputs.
use recru_flow.Base.{
  All, ℕ, zero, suc, ◌+◌, ◌<◌, String, ◌<>◌, ◌≡◌, refl, ◌⊎◌, true, false, Option, none, some, [],
  ◌∷◌, arith, str_eq, if◌then◌else◌, length,
}
use recru_flow.Base.Int.{ℤ, pos}
use recru_flow.Data.Text.{show}
use recru_flow.Data.Json.{Value, obj, arr, str, Fields, end, field, nil, cons, get}
use recru_flow.Schemas.{Profile}
use recru_flow.Db.{Db}
use recru_flow.Ingestion.Types.{IngestionResult}
use recru_flow.Ingestion.Runner.{resolve_fetch_range}
use recru_flow.Connectors.ProxyPool.{Outside, ProxyPool}
use recru_flow.Connectors.Http.{Fetched, got, nothing, blocked, Outcome}
use recru_flow.Connectors.Http as Http
use recru_flow.Connectors.Pracuj.Browser.{Navigation, loaded, fetch_html}
use recru_flow.Connectors.Pracuj.Browser.Rotation.{sends, fetch_html-get}
use recru_flow.Connectors.Pracuj.Listing.{Crawl, Found, collect_offers}
use recru_flow.Connectors.Pracuj.Enumeration.{Settings, start_page_of}
use recru_flow.Connectors.Pracuj.Run.{category_filter, run_terms}
use recru_flow.Connectors.Pracuj.Run.Resume.{GoesOnAt, starts_at, run_terms-resumes}
use recru_flow.Tests.Samples.{host, backend, source, empty_db}

abbrev outside : Outside
outside = record { scrape = λ n. some "10.0.0.1"; draw = λ n. 0 }

abbrev pool : ProxyPool
pool = record { target_size = 1; good = []; scrapes = 0; draws = 0 }

-- The first visit meets a challenge, the second one is served.
abbrev navigate : ℕ → String → String → Navigation
navigate zero url proxy = loaded 200 "Just a moment"
navigate (suc n) url proxy = loaded 200 "page"

fetch_html-get_example :
    let (page, browser) =
      fetch_html outside navigate "https://a.example" (record { pool = pool; visits = 0 }) in
    let (answer, net) =
      Http.get outside (sends navigate) "https://a.example" (record { pool = pool; log = [] }) in
    (page ≡ answer) × ((browser.pool ≡ net.pool) × (browser.visits ≡ length net.log))
fetch_html-get_example = fetch_html-get outside navigate "https://a.example" pool []

abbrev query : String → Value → Fields
query key payload =
    field "queryKey" (arr (cons (str key) nil)) (field "state" (obj (field "data" payload end)) end)

abbrev page_of : Fields → Value
page_of q = obj (
    field "props"
      (obj (
        field "pageProps"
          (obj (field "dehydratedState" (obj (field "queries" (arr (cons (obj q) nil)) end)) end))
          end))
      end)

abbrev group : Fields
group = field "offers" (arr (cons (obj (field "offerAbsoluteUri" (str "detail") end)) nil)) end

-- The page of an offer, and a listing of one group on every other page.
abbrev load : String → Option Value
load html =
    if str_eq html "detail"
    then some (page_of (query "jobOffer" (obj backend)))
    else some
        (page_of (query "jobOffers" (obj (field "groupedOffers" (arr (cons (obj group) nil)) end))))

abbrev serve : String → ℕ → Fetched String × ℕ
serve url visits = (got url, visits + 1)

abbrev start_crawl : Crawl ℕ
start_crawl = record { browser = 0; blocked_urls = [] }

abbrev settings : Settings
settings = record { page_size = 1; max_pages = 2; already_seen_stop_threshold = 20 }

abbrev listing_base : String → String
listing_base category = "https://a.example/" <> category

abbrev to_int : Value → ℤ
to_int v = pos 1

abbrev read_profile : Fields → Option Profile
read_profile payload = none

-- Two pages of one offer each.
abbrev found : Found
found = record {
  offers = backend ∷ backend ∷ [];
  enumeration_ok = true;
  mid_run_failure = false;
  next_start_page = 3;
  listing_blocked_status = none;
}

abbrev crawled : Crawl ℕ
crawled = record { browser = 4; blocked_urls = [] }

collected :
    collect_offers host load serve
      (listing_base (category_filter host source.config_json))
      (starts_at to_int source)
      1
      2
      start_crawl
    ≡ some (found, crawled)
unfolding collect_offers category_filter start_page_of get show
collected = refl

open_range : resolve_fetch_range host (get "fetch_range" source.config_json) ≡ (none, none)
unfolding resolve_fetch_range get
open_range = refl

run_terms-resumes_example :
    (result : IngestionResult) × (after : Db) × (run_terms host load serve listing_base to_int
        source settings false [] empty_db 0
      ≡ some (result, after))
    × All (GoesOnAt to_int 1 3) after.sources
    × ((starts_at to_int source < 3) ⊎ (◌≡◌ {A = ℕ} 3 1))
run_terms-resumes_example =
    run_terms-resumes host load serve listing_base to_int source settings false empty_db 0 found
      crawled open_range (omega arith) collected refl
