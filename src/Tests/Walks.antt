-- ===== src/Tests/Walks.antt =====
-- Profiles and the walk over a sitemap at concrete inputs.
use recru_flow.Base.{ℕ, String, Bool, true, false, some, List, [], ◌∷◌, All}
use recru_flow.Base.Int.{ℤ, pos}
use recru_flow.Data.Json.{Value, str, Fields, end, field}
use recru_flow.Db.{Db, ProfileRow}
use recru_flow.Connectors.ProxyPool.{Outside}
use recru_flow.Connectors.Http.{Outcome, response, status_error, Net}
use recru_flow.Dlq.Service.Upsert.{row_of}
use recru_flow.Profiles.{locate, upsert_profile}
use recru_flow.Profiles.Active.{Upserted, upsert_profile-Upserted}
use recru_flow.Connectors.SitemapDetail.{Site, Settings, detail_key, record_blocked}
use recru_flow.Connectors.SitemapDetail.Noted.{IsNoted, IsWaiting, record_blocked-waits}
use recru_flow.Tests.Samples.{host, source, empty_db, backend}

abbrev outside : Outside
outside = record { scrape = λ n. some "10.0.0.1"; draw = λ n. 0 }

abbrev net : Net String
net = record { pool = record { target_size = 1; good = []; scrapes = 0; draws = 0 }; log = [] }

-- A site that answers its first request and blocks the others.
abbrev answers_once : List (String × Outcome String) → String → String → Outcome String
answers_once [] url proxy = response "page"
answers_once (_ ∷ _) url proxy = status_error 403

abbrev site : Site
site = record {
  name = "Bulldogjob";
  extract_detail_json = λ html url. some backend;
  map_offer = λ source_id raw. some raw;
}

abbrev settings : Settings
settings = record { page_size = 1; max_pages = 2; already_seen_stop_threshold = 20 }

abbrev urls : List String
urls = "https://a.example/1" ∷ "https://a.example/2" ∷ "https://a.example/3" ∷ []

abbrev to_int : Value → ℤ
to_int v = pos 0

abbrev blocked_urls : List (String × ℕ)
blocked_urls = ("https://a.example/2", 403) ∷ ("https://a.example/2", 429) ∷ []

record_blocked-waits_example :
    All
      (λ (b : String × ℕ).
        IsWaiting host outside answers_once site source
          (IsNoted blocked_urls)
          (detail_key host outside answers_once site source b.0)
          (row_of
            (detail_key host outside answers_once site source b.0)
            (record_blocked host outside answers_once site source blocked_urls
              empty_db).ingestion_failures))
      blocked_urls
record_blocked-waits_example =
    record_blocked-waits host outside answers_once site source blocked_urls empty_db

abbrev profile : ℕ → Bool → ProfileRow
profile id is_active = record {
  id = id;
  name = "profile";
  status = "draft";
  is_active = is_active;
  payload = end;
}

abbrev two_profiles : Db
two_profiles = record empty_db {
  profiles = profile 1 true ∷ profile 2 false ∷ [];
  match_scores =
      (record {
        id = 3;
        offer_id = 10;
        profile_id = 2;
        score_percent = 70;
        rationale = "fits";
        created_at = 4;
      })
      ∷ [];
}

abbrev never_equal : Fields → Fields → Bool
never_equal a b = false

upsert_profile-Upserted_example :
    Upserted never_equal true
      (field "name" (str "A") end)
      (locate (some 2) true two_profiles)
      (upsert_profile never_equal (field "name" (str "A") end) (some 2) true two_profiles)
upsert_profile-Upserted_example =
    upsert_profile-Upserted never_equal (field "name" (str "A") end) (some 2) true two_profiles
