-- ===== src/Routes/Offers/Cleanup/Removed.antt =====
-- Which rows a cleanup removes, and that its preview says so.
use mathlib.Core.Path.{subst}
use recru_flow.Base.{
  ℕ, ◌+◌, ◌≡◌, refl, sym, ap, ◌∙◌, inl, inr, Bool, false, not, ◌&&◌, List, [], ◌∷◌, map, arith,
  Bool-cases, length, filter, any, All, All-map, length-filter-not, length-map,
}
use recru_flow.Db.{Db, OfferRow, MatchScoreRow, ScoringFailure, CvVersion, Application}
use recru_flow.Routes.Ids.{is_in, AreDistinct}
use recru_flow.Routes.Offers.Cleanup.{
  is_older, offer_ids, partition_offers_for_cleanup, preview_offer_cleanup, delete_ids,
  delete_offers,
}
use recru_flow.Routes.Offers.Cleanup.Partition.{
  is_removable, is_protected, removed, filter_cong, filter_all, filter_take, filter_drop,
  filter-filter, filter_never, All_of, partition-removed, partition-protected, is_in-offer_ids,
  offer_ids-AreDistinct,
}

-- What `delete_offers` leaves of the tables.
pub record IsCleaned (older_than : ℕ) (before after : Db) : Type 0 where
  pub offers : after.offers ≡ filter (λ o. not (is_removable older_than before o)) before.offers
  pub match_scores :
      after.match_scores
      ≡ filter (λ m. not (is_in m.offer_id (removed older_than before))) before.match_scores
  pub scoring_failures :
      after.scoring_failures
      ≡ filter (λ f. not (is_in f.offer_id (removed older_than before))) before.scoring_failures
  pub cv_versions :
      after.cv_versions
      ≡ filter (λ c. not (is_in c.offer_id (removed older_than before))) before.cv_versions
  pub applications : after.applications ≡ before.applications

delete_ids-offers :
    (ids : List ℕ) (db : Db)
    → (delete_ids ids db).offers ≡ filter (λ (o : OfferRow). not (is_in o.id ids)) db.offers
unfolding delete_ids is_in any
delete_ids-offers [] db = sym (filter_all db.offers)
delete_ids-offers (id ∷ ids) db = refl

delete_ids-scores :
    (ids : List ℕ) (db : Db)
    → (delete_ids ids db).match_scores
      ≡ filter (λ (m : MatchScoreRow). not (is_in m.offer_id ids)) db.match_scores
unfolding delete_ids is_in any
delete_ids-scores [] db = sym (filter_all db.match_scores)
delete_ids-scores (id ∷ ids) db = refl

delete_ids-failures :
    (ids : List ℕ) (db : Db)
    → (delete_ids ids db).scoring_failures
      ≡ filter (λ (f : ScoringFailure). not (is_in f.offer_id ids)) db.scoring_failures
unfolding delete_ids is_in any
delete_ids-failures [] db = sym (filter_all db.scoring_failures)
delete_ids-failures (id ∷ ids) db = refl

delete_ids-versions :
    (ids : List ℕ) (db : Db)
    → (delete_ids ids db).cv_versions
      ≡ filter (λ (c : CvVersion). not (is_in c.offer_id ids)) db.cv_versions
unfolding delete_ids is_in any
delete_ids-versions [] db = sym (filter_all db.cv_versions)
delete_ids-versions (id ∷ ids) db = refl

delete_ids-applications :
    (ids : List ℕ) (db : Db) → (delete_ids ids db).applications ≡ db.applications
unfolding delete_ids
delete_ids-applications [] db = refl
delete_ids-applications (id ∷ ids) db = refl

-- An id that no row has does not matter.
with_other :
    (p : OfferRow → Bool) (id : ℕ) (ids : List ℕ) (rows : List OfferRow)
    → is_in id (offer_ids rows) ≡ false
    → All (λ (o : OfferRow). is_in o.id ids ≡ p o) rows
    → All (λ (o : OfferRow). is_in o.id (id ∷ ids) ≡ p o) rows
unfolding is_in any
with_other p id ids [] fresh h = tt
with_other p id ids (row ∷ rows) fresh h =
    (ground (arith, fresh, h.0), with_other p id ids rows (ground (arith, fresh)) h.1)

-- Where no id occurs twice, the ids of the rows that pass a test are those rows'.
rows_by_id :
    (p : OfferRow → Bool) (rows : List OfferRow)
    → AreDistinct (offer_ids rows)
    → All (λ (o : OfferRow). is_in o.id (offer_ids (filter p rows)) ≡ p o) rows
rows_by_id p [] h = tt
rows_by_id p (row ∷ rows) h =
    let Fits : List OfferRow → Type 0 =
      λ ks. All (λ (o : OfferRow). is_in o.id (offer_ids ks) ≡ p o) (row ∷ rows) in
    elim (Bool-cases (p row)) [
      | inl passes ↦ subst Fits (sym (filter_take p row rows passes)) (
        unfold is_in any in ground (arith, passes),
        with_other p row.id _ rows h.0 (rows_by_id p rows h.1),
      )
      | inr fails ↦
          subst Fits (sym (filter_drop p row rows fails))
            (is_in-offer_ids p row.id rows h.0 ∙ sym fails, rows_by_id p rows h.1)
    ]

-- Where no two offers share an id, a cleanup removes exactly the offers that are dated before the
-- cutoff and have no application, with the scores, scoring failures and versions of a CV that belong
-- to them; every other row of these tables stays, and so does every application.
pub delete_offers-IsCleaned :
    (older_than : ℕ) (db : Db)
    → AreDistinct (offer_ids db.offers)
    → IsCleaned older_than db (delete_offers older_than db).1
unfolding delete_offers
delete_offers-IsCleaned older_than db h =
    let e = partition-removed older_than db in
    let ids : List ℕ = (partition_offers_for_cleanup older_than db).0 in
    record {
      offers =
          delete_ids-offers ids db
          ∙ rw e (
              filter_cong _ _ db.offers (
                All-map _ _ (λ o k. ap not k) db.offers
                  (rows_by_id (is_removable older_than db) db.offers h)));
      match_scores = delete_ids-scores ids db ∙ rw e refl;
      scoring_failures = delete_ids-failures ids db ∙ rw e refl;
      cv_versions = delete_ids-versions ids db ∙ rw e refl;
      applications = delete_ids-applications ids db;
    }

-- The removable rows of a cleaned table.
removable_again :
    (older_than : ℕ) (before after : Db)
    → IsCleaned older_than before after
    → filter (is_removable older_than after) after.offers ≡ []
removable_again older_than before after h =
    ap (λ os. filter (is_removable older_than after) os) h.offers
    ∙ filter-filter _ _ before.offers
    ∙ filter_never _ before.offers (
        All_of _
          (λ o.
            ap
              (λ apps.
                not (is_removable older_than before o)
                && (is_older older_than o
                    && not (is_in o.id (map (λ (a : Application). a.offer_id) apps))))
              h.applications
            ∙ ground arith)
          before.offers)

protected_again :
    (older_than : ℕ) (before after : Db)
    → IsCleaned older_than before after
    → filter (is_protected older_than after) after.offers
      ≡ filter (is_protected older_than before) before.offers
protected_again older_than before after h =
    ap (λ os. filter (is_protected older_than after) os) h.offers
    ∙ filter-filter _ _ before.offers
    ∙ filter_cong _ _ before.offers (
        All_of _
          (λ o.
            ap
              (λ apps.
                not (is_removable older_than before o)
                && (is_older older_than o
                    && is_in o.id (map (λ (a : Application). a.offer_id) apps)))
              h.applications
            ∙ ground arith)
          before.offers)

-- Where no two offers share an id, the preview announces what the cleanup then reports, the offers
-- that the cleanup leaves and the announced ones are as many as there were, and a preview after the
-- cleanup finds nothing more to delete and as many offers to skip.
pub preview_offer_cleanup-delete_offers :
    (older_than : ℕ) (db : Db)
    → AreDistinct (offer_ids db.offers)
    → let preview = preview_offer_cleanup older_than db in
      let (reply, after) = delete_offers older_than db in
      let again = preview_offer_cleanup older_than after in
      (reply.deleted ≡ preview.would_delete)
      × (reply.skipped ≡ preview.would_skip)
      × (length after.offers + preview.would_delete ≡ length db.offers)
      × (again.would_delete ≡ 0)
      × (again.would_skip ≡ preview.would_skip)
unfolding preview_offer_cleanup
preview_offer_cleanup-delete_offers older_than db h =
    let after = (delete_offers older_than db).1 in
    let cleaned : IsCleaned older_than db after = delete_offers-IsCleaned older_than db h in
    let distinct_after : AreDistinct (offer_ids after.offers) =
      subst (λ os. AreDistinct (offer_ids os)) (sym cleaned.offers)
        (offer_ids-AreDistinct _ db.offers h) in
    let deleted : length (partition_offers_for_cleanup older_than db).0
        ≡ length (filter (is_removable older_than db) db.offers) =
      ap length (partition-removed older_than db) ∙ length-map _ _ in
    let kept : length after.offers
        ≡ length (filter (λ o. not (is_removable older_than db o)) db.offers) =
      ap length cleaned.offers in
    (
      unfold delete_offers in refl,
      unfold delete_offers in refl,
      omega (arith, deleted, kept, length-filter-not (is_removable older_than db) db.offers),
      ap length (partition-removed older_than after)
          ∙ ap length (ap offer_ids (removable_again older_than db after cleaned)),
      partition-protected older_than after distinct_after
          ∙ ap length (protected_again older_than db after cleaned)
          ∙ sym (partition-protected older_than db h),
    )
