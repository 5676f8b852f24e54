-- ===== src/Connectors/Pracuj/Listing/Bounds.antt =====
-- How much one enumeration collects, and from where the next one goes on.
use recru_flow.Base.{
  ℕ, zero, suc, ◌+◌, ◌*◌, ◌≤◌, ◌<◌, String, ◌≡◌, refl, ap, inl, inr, true, false, Option, none,
  some, List, [], ◌∷◌, arith, ltb, leb, ◌==◌, leb→le, Bool-cases, Option-cases, length,
}
use recru_flow.Data.Json.{Value, Fields}
use recru_flow.Connectors.Http.{Fetched, got, nothing, blocked}
use recru_flow.Ingestion.Persist.{Host}
use recru_flow.Connectors.Pracuj.Listing.Details.{
  IsListed, IsFound, Bounded, fetch_offer_details-le,
}
use recru_flow.Connectors.Pracuj.Listing.{
  Crawl, Found, fetch_offer_details, grouped_offers, listing_failed, listing_url, read_groups,
  read_listing, collect_pages, collect_offers,
}
use recru_flow.Connectors.Pracuj.Page.{candidate_urls}

module _ {B : Type 0} (host : Host) (load : String → Option Value)
    (fetch_html : String → B → Fetched String × B) where
  -- What the crawl makes of a listing page, in the state that the browser has then.
  abbrev pub listing_of : String → ℕ → ℕ → ℕ → ℕ → B → Fetched (List Value)
  listing_of base_url start page_size max_pages page browser =
      grouped_offers host load fetch_html
        (fetch_html (listing_url host load fetch_html base_url start page_size max_pages page)
          browser).0

  module _ (base_url : String) (start page_size max_pages : ℕ) (some_page : 1 ≤ start)
      (room : 0 < page_size * max_pages) (blocked_before : List (String × ℕ)) where
    abbrev cap : ℕ
    cap = page_size * max_pages

    abbrev listing : ℕ → B → Fetched (List Value)
    listing = listing_of base_url start page_size max_pages

    -- The loop before a page.
    record IsAt (page left : ℕ) (collected : List Fields) (crawl : Crawl B) : Type 0 where
      few : length collected ≤ cap
      counted : page + left ≡ start + max_pages
      after_start : start ≤ page
      fresh : page ≡ start → (collected ≡ []) × (crawl.blocked_urls ≡ blocked_before)

    -- The loop stops with what it has, before a page that is not the first, or at the end.
    done-Bounded :
        (page left : ℕ) (collected : List Fields) (crawl : Crawl B)
        → IsAt page left collected crawl
        → start < page
        → Bounded listing start cap max_pages blocked_before (
            some (
              record {
                offers = collected;
                enumeration_ok = true;
                mid_run_failure = false;
                next_start_page = page;
                listing_blocked_status = none;
              },
              crawl,
            ))
    done-Bounded page left collected crawl a beyond = record {
      few = a.few;
      next_pos = omega (arith, some_page, beyond);
      next_within = omega (arith, a.counted);
      failed = λ e. absurd (ground (arith, e));
      later = λ e. absurd (ground (arith, e));
      onwards = λ e. inl beyond;
    }

    listing_failed-IsFound :
        (page left : ℕ) (status : Option ℕ) (collected : List Fields) (crawl : Crawl B)
        → IsAt page left collected crawl
        → ((browser : B) × ¬ IsListed (listing page browser))
        → IsFound listing start cap max_pages blocked_before
            (listing_failed host load fetch_html base_url start page_size max_pages page status
              collected)
            crawl
    unfolding listing_failed
    listing_failed-IsFound page left status collected crawl a fails =
        elim (Bool-cases (page == start)) [
          | inl first ↦ rw first (record {
            few = omega arith;
            next_pos = some_page;
            next_within = omega arith;
            failed = λ _. (refl, refl, (a.fresh (ground (arith, first))).1);
            later = λ e. absurd (ground (arith, e));
            onwards = λ e. absurd (ground (arith, e));
          })
          | inr beyond ↦ rw beyond (record {
            few = a.few;
            next_pos = omega (arith, some_page, a.after_start);
            next_within = omega (arith, a.counted);
            failed = λ e. absurd (ground (arith, e));
            later = λ _. (ground (arith, beyond, a.after_start), fails);
            onwards = λ _. inl (ground (arith, beyond, a.after_start));
          })
        ]

    -- The listing has no further page: the next enumeration starts afresh.
    exhausted :
        (collected : List Fields) (crawl : Crawl B)
        → length collected ≤ cap
        → IsFound listing start cap max_pages blocked_before
            (record {
              offers = collected;
              enumeration_ok = true;
              mid_run_failure = false;
              next_start_page = 1;
              listing_blocked_status = none;
            })
            crawl
    exhausted collected crawl few = record {
      few = few;
      next_pos = omega arith;
      next_within = omega (arith, some_page);
      failed = λ e. absurd (ground (arith, e));
      later = λ e. absurd (ground (arith, e));
      onwards = λ _. inr refl;
    }

    read_groups-Bounded :
        (continue : List Fields × Crawl B → Option (Found × Crawl B)) (page left : ℕ)
        (groups : List Value) (collected : List Fields) (crawl : Crawl B)
        → ((more : List Fields) (later : Crawl B)
            → length more ≤ cap
            → Bounded listing start cap max_pages blocked_before (continue (more, later)))
        → IsAt page left collected crawl
        → Bounded listing start cap max_pages blocked_before (
            read_groups host load fetch_html base_url start page_size max_pages continue groups
              (collected, crawl))
    unfolding read_groups
    read_groups-Bounded continue page left [] collected crawl continues a =
        exhausted collected crawl a.few
    read_groups-Bounded continue page left (group ∷ groups) collected crawl continues a =
        elim (Option-cases (candidate_urls host (group ∷ groups))) [
          | inl raises ↦ rw (raises, read_groups) tt
          | inr (urls, found) ↦
              let state = fetch_offer_details host load fetch_html cap urls (collected, crawl) in
              let few : length state.0 ≤ cap =
                fetch_offer_details-le host load fetch_html cap urls collected crawl a.few in
              rw (found, read_groups)
                (elim (Bool-cases (ltb (length (group ∷ groups)) page_size)) [
                  | inl short ↦ rw short (exhausted state.0 state.1 few)
                  | inr full ↦ rw full (continues state.0 state.1 few)
                ])
        ]

    read_listing-Bounded :
        (continue : List Fields × Crawl B → Option (Found × Crawl B)) (page left : ℕ)
        (groups : Fetched (List Value)) (collected : List Fields) (crawl : Crawl B)
        → ((more : List Fields) (later : Crawl B)
            → length more ≤ cap
            → Bounded listing start cap max_pages blocked_before (continue (more, later)))
        → IsAt page left collected crawl
        → (¬ IsListed groups → (browser : B) × ¬ IsListed (listing page browser))
        → Bounded listing start cap max_pages blocked_before (
            read_listing host load fetch_html base_url start page_size max_pages continue page
              groups
              (collected, crawl))
    unfolding read_listing
    read_listing-Bounded continue page left nothing collected crawl continues a fails =
        listing_failed-IsFound page left none collected crawl a (fails (λ h. h))
    read_listing-Bounded continue page left (blocked status) collected crawl continues a fails =
        listing_failed-IsFound page left (some status) collected crawl a (fails (λ h. h))
    read_listing-Bounded continue page left (got groups) collected crawl continues a fails =
        read_groups-Bounded continue page left groups collected crawl continues a

    full-beyond :
        (page left : ℕ) (collected : List Fields) (crawl : Crawl B)
        → IsAt page left collected crawl
        → leb cap (length collected) ≡ true
        → start < page
    full-beyond page left collected crawl a full = elim (Bool-cases (page == start)) [
      | inl first ↦
          let none_yet : length collected ≡ 0 = ap length (a.fresh (ground (arith, first))).0 in
          absurd (omega (arith, none_yet, leb→le cap (length collected) full, room))
      | inr beyond ↦ ground (arith, beyond, a.after_start)
    ]

    next-IsAt :
        (page left : ℕ) (more : List Fields) (later : Crawl B)
        → page + suc left ≡ start + max_pages
        → start ≤ page
        → length more ≤ cap
        → IsAt (page + 1) left more later
    next-IsAt page left more later counted after_start few = record {
      few = few;
      counted = omega (arith, counted);
      after_start = omega (arith, after_start);
      fresh = λ e. absurd (omega (arith, e, after_start));
    }

    collect_pages-Bounded :
        (left page : ℕ) (collected : List Fields) (crawl : Crawl B)
        → IsAt page left collected crawl
        → (left ≡ 0 → start < page)
        → Bounded listing start cap max_pages blocked_before (
            collect_pages host load fetch_html base_url start page_size max_pages left page
              (collected, crawl))
    unfolding collect_pages
    collect_pages-Bounded zero page collected crawl a beyond =
        done-Bounded page 0 collected crawl a (beyond refl)
    collect_pages-Bounded (suc left) page collected crawl a beyond =
        let url = listing_url host load fetch_html base_url start page_size max_pages page in
        let fetched = fetch_html url crawl.browser in
        let read =
          read_listing-Bounded
            (collect_pages host load fetch_html base_url start page_size max_pages left (page + 1))
            page (suc left) (grouped_offers host load fetch_html fetched.0) collected
            (record crawl { browser = fetched.1 })
            (λ more later few.
              collect_pages-Bounded left (page + 1) more later
                (next-IsAt page left more later a.counted a.after_start few)
                (λ _. omega (arith, a.after_start)))
            (record {
              few = a.few;
              counted = a.counted;
              after_start = a.after_start;
              fresh = a.fresh;
            })
            (λ unlisted. (crawl.browser, unlisted)) in
        elim (Bool-cases (leb cap (length collected))) [
          | inl full ↦ rw full (
              done-Bounded page (suc left) collected crawl a
                (full-beyond page (suc left) collected crawl a full))
          | inr space ↦ rw space read
        ]

    pub collect_offers-Bounded :
        (crawl : Crawl B)
        → crawl.blocked_urls ≡ blocked_before
        → Bounded listing start
            (page_size * max_pages)
            max_pages
            blocked_before
            (collect_offers host load fetch_html base_url start page_size max_pages crawl)
    unfolding collect_offers
    collect_offers-Bounded crawl same =
        collect_pages-Bounded max_pages start [] crawl
          (record {
            few = omega arith;
            counted = refl;
            after_start = omega arith;
            fresh = λ _. (refl, same);
          })
          (λ e. absurd (ground (arith, e, room, no_room e)))
      where
        no_room : max_pages ≡ 0 → page_size * max_pages ≡ 0
        no_room e = rw e (omega arith)
