-- ===== src/Tests/Offers.antt =====
-- The routes of the offers on a table with two old offers, of which one has an application.
use recru_flow.Base.{
  ℕ, ◌+◌, ◌*◌, ◌≤◌, String, ◌≡◌, refl, Bool, true, false, Option, none, some, [], ◌∷◌, map, arith,
  length, any,
}
use recru_flow.Data.Text.{contains}
use recru_flow.Data.Json.{end}
use recru_flow.Db.{Db, OfferRow, MatchScoreRow}
use recru_flow.Routes.Ids.{is_in, AreDistinct}
use recru_flow.Routes.Offers.Cleanup.{offer_ids, preview_offer_cleanup, delete_offers}
use recru_flow.Routes.Offers.Cleanup.Removed.{
  IsCleaned, delete_offers-IsCleaned, preview_offer_cleanup-delete_offers,
}
use recru_flow.Routes.Offers.Edit.{OfferEdit, patch_offer}
use recru_flow.Routes.Offers.Edit.Again.{patch_offer_idempotent}
use recru_flow.Routes.Offers.Listing.{Query, OrderBy, Order, list_offers}
use recru_flow.Routes.Offers.Listing.Pages.{IsListing, read_pages, read_pages-IsListing}
use recru_flow.Tests.Samples.{host, empty_db, offer_of}

abbrev row : ℕ → Option ℕ → OfferRow
row id posted_at = record {
  id = id;
  dedup_hash = "";
  offer = record (offer_of "Backend" "Acme" none) { posted_at = posted_at };
  applied = false;
  hide = false;
  notes = none;
  link_opened_at = none;
  raw_payload = end;
  created_at = 5;
  updated_at = 5;
}

abbrev score : MatchScoreRow
score = record {
  id = 30;
  offer_id = 11;
  profile_id = 1;
  score_percent = 70;
  rationale = "fits";
  created_at = 6;
}

-- Offers 10 and 11 are older than 100, 12 is newer, and 13 has no date.
abbrev board : Db
board = record empty_db {
  offers = row 10 (some 50) ∷ row 11 (some 60) ∷ row 12 (some 200) ∷ row 13 none ∷ [];
  match_scores = score ∷ [];
  applications = record { id = 20; offer_id = 10; profile_id = 1 } ∷ [];
}

board_ids : AreDistinct (offer_ids board.offers)
unfolding is_in any
board_ids = (refl, (refl, (refl, (refl, tt))))

delete_offers-IsCleaned_example : IsCleaned 100 board (delete_offers 100 board).1
delete_offers-IsCleaned_example = delete_offers-IsCleaned 100 board board_ids

preview_offer_cleanup-delete_offers_example :
    let preview = preview_offer_cleanup 100 board in
    let (reply, after) = delete_offers 100 board in
    let again = preview_offer_cleanup 100 after in
    (reply.deleted ≡ preview.would_delete)
    × (reply.skipped ≡ preview.would_skip)
    × (length after.offers + preview.would_delete ≡ length board.offers)
    × (again.would_delete ≡ 0)
    × (again.would_skip ≡ preview.would_skip)
preview_offer_cleanup-delete_offers_example =
    preview_offer_cleanup-delete_offers 100 board board_ids

-- One offer goes, with its score, and one is protected.
cleanup_example :
    ((delete_offers 100 board).0 ≡ record { deleted = 1; skipped = 1 })
    × (offer_ids (delete_offers 100 board).1.offers ≡ 10 ∷ 12 ∷ 13 ∷ [])
    × ((delete_offers 100 board).1.match_scores ≡ [])
unfolding delete_offers
cleanup_example = (refl, refl, refl)

abbrev edit : OfferEdit
edit = record {
  applied = some (some true);
  hide = none;
  notes = some (some "call back");
  link_opened = some (some true);
}

patch_offer_idempotent_example :
    let first = patch_offer host.clock 12 edit board in
    let second = patch_offer host.clock 12 edit first.1 in
    (second.0 ≡ first.0) × (second.1.offers ≡ first.1.offers)
patch_offer_idempotent_example = patch_offer_idempotent host.clock edit 12 board

abbrev query : Query
query = record {
  source = some "nofluffjobs";
  remote = some true;
  seniority = none;
  min_salary = some 12000;
  min_score = none;
  applied = none;
  show_hidden = false;
  order_by = OrderBy.posted_at;
  order = Order.desc;
  limit = 3;
  offset = 0;
}

abbrev ilike : String → String → Bool
ilike text pattern = contains text pattern

-- Four offers, three to a page.
enough : (list_offers ilike query board).total ≤ 2 * query.limit
unfolding list_offers
enough = omega arith

read_pages-IsListing_example : IsListing ilike query board (read_pages ilike query board 2 0)
read_pages-IsListing_example = read_pages-IsListing ilike query board 2 enough

-- The newest first, and the one without a date last.
listing_example : map (λ s. s.id) (list_offers ilike query board).items ≡ 12 ∷ 11 ∷ 10 ∷ []
unfolding list_offers
listing_example = refl
