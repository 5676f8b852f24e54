-- ===== src/Connectors/Pracuj/Listing/Details.antt =====
-- How much the offers of one page add to what is collected, and what an enumeration must leave.
use recru_flow.Base.{
  ℕ, ◌+◌, ◌≤◌, ◌<◌, String, ◌≡◌, ◌⊎◌, inl, inr, true, false, Option, none, some, List, [], ◌∷◌,
  arith, leb, Bool-cases, length, length-append,
}
use recru_flow.Data.Json.{Value, Fields}
use recru_flow.Connectors.Http.{Fetched, got, nothing, blocked}
use recru_flow.Ingestion.Persist.{Host}
use recru_flow.Connectors.Pracuj.Listing.{
  Crawl, Found, append_record, take_detail, fetch_offer_details, offer_record,
}

-- A listing page that is fetched, with the data that it embeds.
abbrev pub IsListed : Fetched (List Value) → Type 0
IsListed (got groups) = Unit
IsListed _ = ⊥

-- The result of an enumeration that started at a page, with some URLs blocked before.
pub record IsFound {B : Type 0} (listing : ℕ → B → Fetched (List Value)) (start cap pages : ℕ)
    (blocked_before : List (String × ℕ)) (found : Found) (crawl : Crawl B) : Type 0 where
  pub few : length found.offers ≤ cap
  pub next_pos : 1 ≤ found.next_start_page
  pub next_within : found.next_start_page ≤ start + pages
  -- Nothing is lost where the first page fails.
  pub failed :
      found.enumeration_ok ≡ false
      → (found.offers ≡ [])
        × (found.next_start_page ≡ start)
        × (crawl.blocked_urls ≡ blocked_before)
  -- A later page that fails is the next one to be read: it is the page named, and its listing could
  -- not be had when the run asked for it.
  pub later :
      found.mid_run_failure ≡ true
      → (start < found.next_start_page)
        × ((browser : B) × ¬ IsListed (listing found.next_start_page browser))
  -- An enumeration goes on, or the listing was exhausted.
  pub onwards :
      found.enumeration_ok ≡ true → (start < found.next_start_page) ⊎ (found.next_start_page ≡ 1)

abbrev pub Bounded :
    {B : Type 0}
    → (ℕ → B → Fetched (List Value))
    → ℕ
    → ℕ
    → ℕ
    → List (String × ℕ)
    → Option (Found × Crawl B)
    → Type 0
Bounded listing start cap pages blocked_before none = Unit
Bounded listing start cap pages blocked_before (some (found, crawl)) =
    IsFound listing start cap pages blocked_before found crawl

append_record-le :
    (found : Option Fields) (collected : List Fields)
    → length (append_record found collected) ≤ length collected + 1
unfolding append_record
append_record-le none collected = omega arith
append_record-le (some d) collected = omega (arith, length-append collected (d ∷ []))

module _ {B : Type 0} (host : Host) (load : String → Option Value)
    (fetch_html : String → B → Fetched String × B) where
  take_detail-le :
      (url : String) (html : Fetched String × B) (collected : List Fields) (crawl : Crawl B)
      → length (take_detail host load fetch_html url html (collected, crawl)).0
        ≤ length collected + 1
  unfolding take_detail
  take_detail-le url (blocked status, browser) collected crawl = omega arith
  take_detail-le url (nothing, browser) collected crawl = omega arith
  take_detail-le url (got html, browser) collected crawl =
      append_record-le (offer_record host load fetch_html html) collected

  pub fetch_offer_details-le :
      (cap : ℕ) (urls : List String) (collected : List Fields) (crawl : Crawl B)
      → length collected ≤ cap
      → length (fetch_offer_details host load fetch_html cap urls (collected, crawl)).0 ≤ cap
  unfolding fetch_offer_details
  fetch_offer_details-le cap [] collected crawl h = h
  fetch_offer_details-le cap (url ∷ urls) collected crawl h =
      elim (Bool-cases (leb cap (length collected))) [
        | inl full ↦ rw full h
        | inr room ↦
            let html = fetch_html url crawl.browser in
            rw room (
              fetch_offer_details-le cap urls
                (take_detail host load fetch_html url html (collected, crawl)).0
                (take_detail host load fetch_html url html (collected, crawl)).1
                (ground (arith, room, take_detail-le url html collected crawl)))
      ]
