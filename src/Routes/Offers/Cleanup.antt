-- ===== src/Routes/Offers/Cleanup.antt =====
-- `_partition_offers_for_cleanup`, `preview_offer_cleanup` and `delete_offers`.
pub mod Partition
pub mod Removed
use recru_flow.Base.{
  ℕ, zero, suc, ◌+◌, ◌-◌, ◌*◌, ◌/◌, ◌%◌, ◌≤◌, ◌<◌, min, max, String, ◌<>◌, ◌≡◌, refl, sym, ap, ◌∙◌,
  ◌≢◌, ◌↔◌, ◌⊎◌, inl, inr, Bool, true, false, not, ◌&&◌, ◌||◌, Option, none, some, List, [], ◌∷◌,
  ◌++◌, map, foldl, append-nil, append_assoc, arith, str_eq, eq_iff, eq_refl, ltb, leb, ◌==◌,
  if◌then◌else◌, ltb→lt, lt→ltb, leb→le, le→leb, ==_iff, tests, Bool-cases, Option-cases, is_none,
  is_some, get_or, or_else, length, get_elem?, take, drop, filter, any, all, find, All,
  length-append, length-take, length-drop, take-append-drop, length-filter-le, any-append,
  filter-append, All-append, All-map, All-filter, length-filter-not, length-map,
}
use recru_flow.Db.{Db, OfferRow, MatchScoreRow, ScoringFailure, CvVersion, Application}
use recru_flow.Routes.Ids.{is_in, distinct}

-- `posted_at IS NOT NULL AND posted_at < older_than`
abbrev pub is_older : ℕ → OfferRow → Bool
is_older older_than row = elim row.offer.posted_at [
  | none ↦ false
  | some posted_at ↦ ltb posted_at older_than
]

abbrev pub offer_ids : List OfferRow → List ℕ
offer_ids rows = map (λ (row : OfferRow). row.id) rows

unfoldable pub candidate_ids : ℕ → Db → List ℕ
unfolding filter
candidate_ids older_than db = offer_ids (filter (is_older older_than) db.offers)

-- `SELECT DISTINCT offer_id FROM applications WHERE offer_id IN (...)`
unfoldable pub pipeline_ids : List ℕ → Db → List ℕ
unfolding distinct filter is_in
pipeline_ids candidates db =
    distinct
      (filter (λ id. is_in id candidates) (map (λ (a : Application). a.offer_id) db.applications))

-- The body below the early return on no candidates.
unfoldable pub split_candidates : List ℕ → Db → List ℕ × ℕ
unfolding pipeline_ids filter is_in
split_candidates [] db = ([], 0)
split_candidates (id ∷ ids) db =
    let pipeline = pipeline_ids (id ∷ ids) db in
    (filter (λ oid. not (is_in oid pipeline)) (id ∷ ids), length pipeline)

unfoldable pub partition_offers_for_cleanup : ℕ → Db → List ℕ × ℕ
unfolding split_candidates candidate_ids
partition_offers_for_cleanup older_than db = split_candidates (candidate_ids older_than db) db

pub record OfferCleanupPreviewResponse : Type 0 where
  pub would_delete : ℕ
  pub would_skip : ℕ

pub record DeleteOffersResponse : Type 0 where
  pub deleted : ℕ
  pub skipped : ℕ

unfoldable pub preview_offer_cleanup : ℕ → Db → OfferCleanupPreviewResponse
unfolding partition_offers_for_cleanup
preview_offer_cleanup older_than db =
    let (deletable, skipped) = partition_offers_for_cleanup older_than db in
    record { would_delete = length deletable; would_skip = skipped }

-- The four `DELETE`s, under `if deletable_ids`.
unfoldable pub delete_ids : List ℕ → Db → Db
unfolding filter is_in
delete_ids [] db = db
delete_ids (id ∷ ids) db = record db {
  match_scores = filter (λ (m : MatchScoreRow). not (is_in m.offer_id (id ∷ ids))) db.match_scores;
  scoring_failures =
      filter (λ (f : ScoringFailure). not (is_in f.offer_id (id ∷ ids))) db.scoring_failures;
  cv_versions = filter (λ (c : CvVersion). not (is_in c.offer_id (id ∷ ids))) db.cv_versions;
  offers = filter (λ (o : OfferRow). not (is_in o.id (id ∷ ids))) db.offers;
}

unfoldable pub delete_offers : ℕ → Db → DeleteOffersResponse × Db
unfolding partition_offers_for_cleanup delete_ids
delete_offers older_than db =
    let (deletable, skipped) = partition_offers_for_cleanup older_than db in
    (record { deleted = length deletable; skipped = skipped }, delete_ids deletable db)
