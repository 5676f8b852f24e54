-- ===== src/Ingestion/Persist/Insert.antt =====
-- What an insertion does to the table of offers, and that the same offer is never created twice.
use recru_flow.Base.{
  ◌≡◌, refl, sym, inl, inr, Bool, true, false, ◌||◌, Option, none, some, List, [], ◌∷◌, ◌++◌,
  append-nil, append_assoc, arith, str_eq, eq_iff, Option-cases, is_some, find,
}
use mathlib.Core.Path.{subst}
use recru_flow.Data.Json.{Fields}
use recru_flow.Schemas.{Offer}
use recru_flow.Db.{Db, OfferRow}
use recru_flow.Ingestion.Dedup.{compute_dedup_hash}
use recru_flow.Dlq.Service.{record_failure}
use recru_flow.Ingestion.Persist.{
  Host, reject, same_content, find_content_duplicate, find_hash, insert_offer, persist_offer,
  ingest_offer, persist_valid, normalize_and_validate, model_validate,
}

find-append_none {ℓ} :
    {A : Type ℓ} (p : A → Bool) (xs ys : List A) → find p xs ≡ none → find p (xs ++ ys) ≡ find p ys
unfolding find
find-append_none p [] ys h = refl
find-append_none p (x ∷ xs) ys h = ground (arith, find-append_none p xs ys)

is_some-find-append {ℓ} :
    {A : Type ℓ} (p : A → Bool) (xs ys : List A)
    → is_some (find p (xs ++ ys)) ≡ (is_some (find p xs) || is_some (find p ys))
unfolding find
is_some-find-append p [] ys = refl
is_some-find-append p (x ∷ xs) ys = ground (arith, is_some-find-append p xs ys)

-- Each row is new to the rows before it: no two rows share a hash, and none has the content of an
-- earlier one.
abbrev pub AllNew : List OfferRow → List OfferRow → Type 0
AllNew seen [] = Unit
AllNew seen (row ∷ rows) =
    (find_hash row.dedup_hash seen ≡ none)
    × (find_content_duplicate row.offer seen ≡ none)
    × AllNew (seen ++ (row ∷ [])) rows

AllNew-snoc :
    (seen rows : List OfferRow) (row : OfferRow)
    → AllNew seen rows
    → find_hash row.dedup_hash (seen ++ rows) ≡ none
    → find_content_duplicate row.offer (seen ++ rows) ≡ none
    → AllNew seen (rows ++ (row ∷ []))
AllNew-snoc seen [] row u h c = (rw append-nil at h, rw append-nil at c, tt)
AllNew-snoc seen (r ∷ rows) row u h c =
    (u.0, u.1, AllNew-snoc (seen ++ (r ∷ [])) rows row u.2 (rw append_assoc h) (rw append_assoc c))

module _ (host : Host) where
  -- The table knows an offer by its content or by its hash.
  abbrev pub knows : List OfferRow → Offer → Bool
  knows rows offer =
      is_some (find_content_duplicate offer rows)
      || is_some (find_hash (compute_dedup_hash host.sha256 offer) rows)

  pub knows-append :
      (rows more : List OfferRow) (offer : Offer)
      → knows rows offer ≡ true
      → knows (rows ++ more) offer ≡ true
  unfolding find_content_duplicate find_hash
  knows-append rows more offer h = ground (
    arith,
    is_some-find-append (λ (r : OfferRow). same_content r.offer offer) rows more,
    is_some-find-append
        (λ (r : OfferRow). str_eq r.dedup_hash (compute_dedup_hash host.sha256 offer)) rows more,
  )

  -- What `persist_offer` does: a known offer changes no row; any other is added at the end, as the
  -- row that is returned.
  pub data Persisted (offer : Offer) (raw : Fields) (db : Db)
      : (OfferRow × Bool) × Db → Type 0 where
    known :
        {row : OfferRow} {db' : Db}
        → knows db.offers offer ≡ true
        → db'.offers ≡ db.offers
        → db'.ingestion_failures ≡ db.ingestion_failures
        → Persisted offer raw db ((row, false), db')
    added :
        {row : OfferRow} {db' : Db}
        → knows db.offers offer ≡ false
        → row.offer ≡ offer
        → row.raw_payload ≡ raw
        → row.dedup_hash ≡ compute_dedup_hash host.sha256 offer
        → db'.offers ≡ db.offers ++ (row ∷ [])
        → db'.ingestion_failures ≡ db.ingestion_failures
        → Persisted offer raw db ((row, true), db')

  pub persist_offer-Persisted :
      (offer : Offer) (raw : Fields) (db : Db)
      → Persisted offer raw db (persist_offer host offer raw db)
  unfolding persist_offer
  persist_offer-Persisted offer raw db =
      elim (Option-cases (find_content_duplicate offer db.offers)) [
        | inr (row, e) ↦ rw (e, persist_offer) (known (rw e refl) refl refl)
        | inl fresh ↦
            rw (fresh, persist_offer)
              (elim (Option-cases (find_hash (compute_dedup_hash host.sha256 offer) db.offers)) [
                | inr (row, e) ↦ rw (e, insert_offer) (known (rw (fresh, e) refl) refl refl)
                | inl new ↦
                    rw (new, insert_offer) (added (rw (fresh, new) refl) refl refl refl refl refl)
              ])
      ]

  pub added-AllNew :
      (offer : Offer) (rows : List OfferRow) (row : OfferRow)
      → knows rows offer ≡ false
      → row.offer ≡ offer
      → row.dedup_hash ≡ compute_dedup_hash host.sha256 offer
      → AllNew [] rows
      → AllNew [] (rows ++ (row ∷ []))
  added-AllNew offer rows row k e hash u =
      AllNew-snoc [] rows row u (rw hash (ground arith)) (rw e (ground arith))

  Persisted-AllNew :
      {offer : Offer} {raw : Fields} {db : Db} {r : (OfferRow × Bool) × Db}
      → Persisted offer raw db r
      → AllNew [] db.offers
      → AllNew [] r.1.offers
  Persisted-AllNew (known k same _) u = rw same u
  Persisted-AllNew {offer} {db} (added {row} k e _ hash more _) u =
      rw more (added-AllNew offer db.offers row k e hash u)

  pub Persisted-knows :
      {offer : Offer} {raw : Fields} {db : Db} {r : (OfferRow × Bool) × Db}
      → Persisted offer raw db r
      → knows r.1.offers offer ≡ true
  unfolding find_hash find
  Persisted-knows (known k same _) = rw same k
  Persisted-knows {offer} {db} (added {row} k e _ hash more _) = rw more (
      ground (
        arith,
        is_some-find-append
            (λ (r : OfferRow). str_eq r.dedup_hash (compute_dedup_hash host.sha256 offer)) db.offers
            (row ∷ []),
        eq_iff row.dedup_hash (compute_dedup_hash host.sha256 offer),
        hash,
      ))

  pub Persisted-again :
      {offer : Offer} {raw : Fields} {db : Db} {r : (OfferRow × Bool) × Db}
      → Persisted offer raw db r
      → knows db.offers offer ≡ true
      → (r.0.1 ≡ false) × (r.1.offers ≡ db.offers)
  Persisted-again (known k same _) h = (refl, same)
  Persisted-again (added k _ _ _ _ _) h = cc

  -- On a table without repeated hashes or contents, persist_offer keeps it so.
  pub persist_offer-AllNew :
      (offer : Offer) (raw : Fields) (db : Db)
      → AllNew [] db.offers
      → AllNew [] (persist_offer host offer raw db).1.offers
  persist_offer-AllNew offer raw db = Persisted-AllNew (persist_offer-Persisted offer raw db)

  -- An offer that was persisted is not created again, whatever rows were added after it: the
  -- second call reports an old row and adds none.
  pub persist_offer_once :
      (offer : Offer) (raw raw' : Fields) (db later : Db) (more : List OfferRow)
      → later.offers ≡ (persist_offer host offer raw db).1.offers ++ more
      → ((persist_offer host offer raw' later).0.1 ≡ false)
        × ((persist_offer host offer raw' later).1.offers ≡ later.offers)
  persist_offer_once offer raw raw' db later more e =
      Persisted-again (persist_offer-Persisted offer raw' later)
        (rw e (knows-append _ more offer (Persisted-knows (persist_offer-Persisted offer raw db))))

  normalize_and_validate-none :
      (raw : Fields) (db : Db)
      → model_validate host raw ≡ none
      → normalize_and_validate host raw db ≡ (none, reject host raw db)
  unfolding normalize_and_validate
  normalize_and_validate-none raw db e = rw (e, normalize_and_validate)

  normalize_and_validate-some :
      (raw : Fields) (db : Db) {offer : Offer}
      → model_validate host raw ≡ some offer
      → normalize_and_validate host raw db ≡ (some offer, db)
  unfolding normalize_and_validate
  normalize_and_validate-some raw db e = rw (e, normalize_and_validate)

  -- What `ingest_offer` does: an invalid offer is recorded as a failure and adds nothing; a valid
  -- one is persisted.
  pub data Ingested (mapped raw : Fields) (db : Db) : Option (OfferRow × Bool) × Db → Type 0 where
    invalid :
        {db' : Db}
        → model_validate host mapped ≡ none
        → db'.offers ≡ db.offers
        → Ingested mapped raw db (none, db')
    persisted :
        {offer : Offer} {result : OfferRow × Bool} {db' : Db}
        → model_validate host mapped ≡ some offer
        → Persisted offer raw db (result, db')
        → Ingested mapped raw db (some result, db')

  pub ingest_offer-Ingested :
      (mapped raw : Fields) (db : Db) → Ingested mapped raw db (ingest_offer host mapped raw db)
  unfolding ingest_offer reject record_failure
  ingest_offer-Ingested mapped raw db = elim (Option-cases (model_validate host mapped)) [
    | inl bad ↦
        subst (λ v. Ingested mapped raw db (persist_valid host raw v))
          (sym (normalize_and_validate-none mapped db bad)) (invalid bad refl)
    | inr (offer, good) ↦
        subst (λ v. Ingested mapped raw db (persist_valid host raw v))
          (sym (normalize_and_validate-some mapped db good))
          (persisted good (persist_offer-Persisted offer raw db))
  ]
