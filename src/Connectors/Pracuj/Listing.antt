-- ===== src/Connectors/Pracuj/Listing.antt =====
-- `_collect_offers` and `_enumerate_pracuj_offers`: the pages of the listing, and the offers on them.
pub mod Details
pub mod Bounds
use recru_flow.Base.{
  ℕ, zero, suc, ◌+◌, ◌-◌, ◌*◌, ◌/◌, ◌%◌, ◌≤◌, ◌<◌, min, max, String, ◌<>◌, ◌≡◌, refl, sym, ap, ◌∙◌,
  ◌≢◌, ◌↔◌, ◌⊎◌, inl, inr, Bool, true, false, not, ◌&&◌, ◌||◌, Option, none, some, List, [], ◌∷◌,
  ◌++◌, map, foldl, append-nil, append_assoc, arith, str_eq, eq_iff, eq_refl, ltb, leb, ◌==◌,
  if◌then◌else◌, ltb→lt, lt→ltb, leb→le, le→leb, ==_iff, tests, Bool-cases, Option-cases, is_none,
  is_some, get_or, or_else, length, get_elem?, take, drop, filter, any, all, find, All,
  length-append, length-take, length-drop, take-append-drop, length-filter-le, any-append,
  filter-append, All-append, All-map, All-filter, length-filter-not, length-map,
}
use recru_flow.Data.Text.{show}
use recru_flow.Data.Json.{
  Value, obj, arr, str, Fields, end, field, Items, cons, nil, to_list, get, as_str, as_dict, truthy,
}
use recru_flow.Connectors.Http.{Fetched, got, nothing, blocked}
use recru_flow.Ingestion.Persist.{Host, str_of}
use recru_flow.Connectors.Pracuj.Page.{
  extract_next_data, dehydrated_query_data, dict_of, candidate_urls,
}

-- `collected.append(offer_record)`, where the page has one.
unfoldable pub append_record : Option Fields → List Fields → List Fields
append_record none collected = collected
append_record (some d) collected = collected ++ (d ∷ [])

-- The browser, and the list of blocked URLs that is passed down.
pub record Crawl (B : Type 0) : Type 0 where
  pub browser : B
  pub blocked_urls : List (String × ℕ)

-- What `_collect_offers` returns.
pub record Found : Type 0 where
  pub offers : List Fields
  pub enumeration_ok : Bool
  pub mid_run_failure : Bool
  pub next_start_page : ℕ
  pub listing_blocked_status : Option ℕ

module _ {B : Type 0} (host : Host) (load : String → Option Value)
    (fetch_html : String → B → Fetched String × B) where
  abbrev pub offer_record : String → Option Fields
  offer_record html = dict_of (dehydrated_query_data "jobOffer" (extract_next_data load html))

  -- One fetched detail page.
  unfoldable pub take_detail :
      String → Fetched String × B → List Fields × Crawl B → List Fields × Crawl B
  unfolding extract_next_data dehydrated_query_data append_record
  take_detail url (blocked status, browser) (collected, crawl) = (
    collected,
    record { browser = browser; blocked_urls = crawl.blocked_urls ++ ((url, status) ∷ []) },
  )
  take_detail url (nothing, browser) (collected, crawl) =
      (collected, record crawl { browser = browser })
  take_detail url (got html, browser) (collected, crawl) =
      (append_record (offer_record html) collected, record crawl { browser = browser })

  -- `_fetch_offer_details`
  unfoldable pub fetch_offer_details :
      ℕ → List String → List Fields × Crawl B → List Fields × Crawl B
  unfolding take_detail
  fetch_offer_details total_cap [] state = state
  fetch_offer_details total_cap (url ∷ urls) (collected, crawl) =
      let rest =
        fetch_offer_details total_cap urls
          (take_detail url (fetch_html url crawl.browser) (collected, crawl)) in
      if leb total_cap (length collected) then (collected, crawl) else rest

  -- `_fetch_listing_page`, below its fetch.
  unfoldable pub grouped_offers : Fetched String → Fetched (List Value)
  unfolding extract_next_data dehydrated_query_data get
  grouped_offers nothing = nothing
  grouped_offers (blocked status) = blocked status
  grouped_offers (got html) =
      elim (dict_of (dehydrated_query_data "jobOffers" (extract_next_data load html))) [
        | none ↦ nothing
        | some jobs ↦ elim (get "groupedOffers" jobs) [
          | arr items ↦ got (to_list items)
          | _ ↦ nothing
        ]
      ]

  module _ (base_url : String) (start_page page_size max_pages : ℕ) where
    abbrev pub total_cap : ℕ
    total_cap = page_size * max_pages

    abbrev pub listing_url : ℕ → String
    listing_url page = base_url <> ("?pn=" <> (show page <> ("&rop=" <> show page_size)))

    abbrev done : List Fields → ℕ → Found
    done collected next = record {
      offers = collected;
      enumeration_ok = true;
      mid_run_failure = false;
      next_start_page = next;
      listing_blocked_status = none;
    }

    -- A listing page that could not be read.
    unfoldable pub listing_failed : ℕ → Option ℕ → List Fields → Found
    listing_failed page status collected =
        if page == start_page
        then record {
          offers = [];
          enumeration_ok = false;
          mid_run_failure = false;
          next_start_page = start_page;
          listing_blocked_status = status;
        }
        else record {
          offers = collected;
          enumeration_ok = true;
          mid_run_failure = true;
          next_start_page = page;
          listing_blocked_status = status;
        }

    -- The rest of the body for a page with groups, where `continue` is the loop from the next page on.
    unfoldable pub read_groups :
        (List Fields × Crawl B → Option (Found × Crawl B))
        → List Value
        → List Fields × Crawl B
        → Option (Found × Crawl B)
    unfolding candidate_urls fetch_offer_details
    read_groups continue [] (collected, crawl) = some (done collected 1, crawl)
    read_groups continue (group ∷ groups) state = elim (candidate_urls host (group ∷ groups)) [
      | none ↦ none
      | some urls ↦
          let (collected, crawl) = fetch_offer_details total_cap urls state in
          let continued = continue (collected, crawl) in
          if ltb (length (group ∷ groups)) page_size
          then some (done collected 1, crawl)
          else continued
    ]

    unfoldable pub read_listing :
        (List Fields × Crawl B → Option (Found × Crawl B))
        → ℕ
        → Fetched (List Value)
        → List Fields × Crawl B
        → Option (Found × Crawl B)
    unfolding read_groups listing_failed
    read_listing continue page nothing (collected, crawl) =
        some (listing_failed page none collected, crawl)
    read_listing continue page (blocked status) (collected, crawl) =
        some (listing_failed page (some status) collected, crawl)
    read_listing continue page (got groups) state = read_groups continue groups state

    -- The loop over the pages that are left; the page before this one was the last one.
    unfoldable pub collect_pages : ℕ → ℕ → List Fields × Crawl B → Option (Found × Crawl B)
    unfolding read_listing grouped_offers
    collect_pages zero page (collected, crawl) = some (done collected page, crawl)
    collect_pages (suc left) page (collected, crawl) =
        let (html, browser) = fetch_html (listing_url page) crawl.browser in
        let read =
          read_listing (collect_pages left (page + 1)) page (grouped_offers html)
            (collected, record crawl { browser = browser }) in
        if leb total_cap (length collected) then some (done collected page, crawl) else read

    -- `_collect_offers`; `none` is an exception.
    unfoldable pub collect_offers : Crawl B → Option (Found × Crawl B)
    unfolding collect_pages
    collect_offers crawl = collect_pages max_pages start_page ([], crawl)
