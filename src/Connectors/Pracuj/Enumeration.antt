-- ===== src/Connectors/Pracuj/Enumeration.antt =====
-- `_enumerate_pracuj_offers`: one enumeration, or one for each term.
use recru_flow.Base.{
  ℕ, zero, suc, String, Bool, false, ◌||◌, Option, none, some, List, [], ◌∷◌, ◌++◌, if◌then◌else◌,
  or_else,
}
use recru_flow.Base.Int.{ℤ, pos, negsuc}
use recru_flow.Data.Json.{Value, int, Fields, truthy}
use recru_flow.Connectors.Http.{Fetched}
use recru_flow.Ingestion.Persist.{Host}
use recru_flow.Connectors.Pracuj.Listing.{Crawl, Found, collect_offers}

-- What `_enumerate_pracuj_offers` returns; only a run over everything has a next page.
pub record Enumerated : Type 0 where
  pub offers : List Fields
  pub enumeration_ok : Bool
  pub mid_run_failure : Bool
  pub next_start_page : Option ℕ
  pub listing_blocked_status : Option ℕ

abbrev pub nothing_found : Enumerated
nothing_found = record {
  offers = [];
  enumeration_ok = false;
  mid_run_failure = false;
  next_start_page = none;
  listing_blocked_status = none;
}

-- What the loop over the terms makes of the result of one term.
unfoldable pub add_found : Enumerated → Found → Enumerated
add_found e found = record {
  offers = e.offers ++ found.offers;
  enumeration_ok = e.enumeration_ok || found.enumeration_ok;
  mid_run_failure = e.mid_run_failure || found.mid_run_failure;
  next_start_page = none;
  listing_blocked_status = or_else found.listing_blocked_status e.listing_blocked_status;
}

unfoldable pub whole_listing : Found → Enumerated
whole_listing found = record {
  offers = found.offers;
  enumeration_ok = found.enumeration_ok;
  mid_run_failure = found.mid_run_failure;
  next_start_page = some found.next_start_page;
  listing_blocked_status = found.listing_blocked_status;
}

-- `page_size`, `max_pages` and `already_seen_stop_threshold`, as `int` reads them from the settings.
pub record Settings : Type 0 where
  pub page_size : ℕ
  pub max_pages : ℕ
  pub already_seen_stop_threshold : ℕ

-- `int(config.get("listing_page_cursor", 1) or 1)`, and 1 below 1; `to_int` is Python's `int` of a
-- value that is none.
unfoldable pub at_least_one : ℤ → ℕ
at_least_one (pos zero) = 1
at_least_one (pos (suc n)) = suc n
at_least_one (negsuc n) = 1

unfoldable pub start_page_of : (Value → ℤ) → Value → ℕ
unfolding at_least_one truthy
start_page_of to_int (int n) = at_least_one n
start_page_of to_int v = if truthy v then at_least_one (to_int v) else 1

module _ {B : Type 0} (host : Host) (load : String → Option Value)
    (fetch_html : String → B → Fetched String × B) (listing_base : String → String)
    (settings : Settings) where
  abbrev collect : String → ℕ → Crawl B → Option (Found × Crawl B)
  collect category start =
      collect_offers host load fetch_html (listing_base category) start settings.page_size
        settings.max_pages

  unfoldable pub enumerate_terms :
      List String → Enumerated → Crawl B → Option (Enumerated × Crawl B)
  unfolding collect_offers add_found
  enumerate_terms [] e crawl = some (e, crawl)
  enumerate_terms (term ∷ terms) e crawl = elim (collect term 1 crawl) [
    | none ↦ none
    | some (found, crawl') ↦ enumerate_terms terms (add_found e found) crawl'
  ]

  -- `_enumerate_pracuj_offers`; `none` is an exception.
  unfoldable pub enumerate_pracuj_offers :
      List String → String → ℕ → Crawl B → Option (Enumerated × Crawl B)
  unfolding enumerate_terms collect_offers whole_listing
  enumerate_pracuj_offers [] category start_page crawl = elim (collect category start_page crawl) [
    | none ↦ none
    | some (found, crawl') ↦ some (whole_listing found, crawl')
  ]
  enumerate_pracuj_offers (term ∷ terms) category start_page crawl =
      enumerate_terms (term ∷ terms) nothing_found crawl
