-- ===== src/Routes/Offers/Cleanup/Partition.antt =====
-- The two results of the partition, in terms of the rows of the two tables.
use recru_flow.Base.{
  ℕ, ◌≡◌, refl, sym, ap, ◌∙◌, inl, inr, Bool, true, false, not, ◌&&◌, List, [], ◌∷◌, map, arith,
  Bool-cases, length, filter, any, All, All-map, All-filter, length-map,
}
use recru_flow.Db.{Db, OfferRow, Application}
use recru_flow.Routes.Ids.{
  is_in, distinct, AreDistinct, is_in-filter, is_in-distinct, distinct-AreDistinct,
  length-filter-is_in,
}
use recru_flow.Routes.Offers.Cleanup.{
  is_older, offer_ids, candidate_ids, pipeline_ids, split_candidates, partition_offers_for_cleanup,
}

-- A row of the table of applications names the offer.
abbrev pub has_application : Db → ℕ → Bool
has_application db id = is_in id (map (λ (a : Application). a.offer_id) db.applications)

abbrev pub is_removable : ℕ → Db → OfferRow → Bool
is_removable older_than db row = is_older older_than row && not (has_application db row.id)

abbrev pub is_protected : ℕ → Db → OfferRow → Bool
is_protected older_than db row = is_older older_than row && has_application db row.id

abbrev pub removed : ℕ → Db → List ℕ
removed older_than db = offer_ids (filter (is_removable older_than db) db.offers)

module _ {ℓ} {A : Type ℓ} where
  pub filter_cong :
      (p q : A → Bool) (xs : List A) → All (λ x. p x ≡ q x) xs → filter p xs ≡ filter q xs
  unfolding filter
  filter_cong p q [] h = refl
  filter_cong p q (x ∷ xs) h = rw h.0 (ground (arith, filter_cong p q xs h.1))

  pub filter_take :
      (p : A → Bool) (x : A) (xs : List A) → p x ≡ true → filter p (x ∷ xs) ≡ x ∷ filter p xs
  unfolding filter
  filter_take p x xs h = rw h refl

  pub filter_drop :
      (p : A → Bool) (x : A) (xs : List A) → p x ≡ false → filter p (x ∷ xs) ≡ filter p xs
  unfolding filter
  filter_drop p x xs h = rw h refl

  pub filter_all : (xs : List A) → filter (λ _. true) xs ≡ xs
  unfolding filter
  filter_all [] = refl
  filter_all (x ∷ xs) = ap (◌∷◌ x) (filter_all xs)

  pub All_of : (P : A → Type 0) → ((x : A) → P x) → (xs : List A) → All P xs
  All_of P h [] = tt
  All_of P h (x ∷ xs) = (h x, All_of P h xs)

  pub filter-filter :
      (p q : A → Bool) (xs : List A) → filter p (filter q xs) ≡ filter (λ x. q x && p x) xs
  unfolding filter
  filter-filter p q [] = refl
  filter-filter p q (x ∷ xs) = ground (arith, filter-filter p q xs)

  pub filter_never : (p : A → Bool) (xs : List A) → All (λ x. p x ≡ false) xs → filter p xs ≡ []
  unfolding filter
  filter_never p [] h = refl
  filter_never p (x ∷ xs) h = rw h.0 (filter_never p xs h.1)

filter-offer_ids :
    (p : ℕ → Bool) (rows : List OfferRow)
    → filter p (offer_ids rows) ≡ offer_ids (filter (λ (row : OfferRow). p row.id) rows)
unfolding filter
filter-offer_ids p [] = refl
filter-offer_ids p (row ∷ rows) = ground (arith, filter-offer_ids p rows)

is_in_self : (ids : List ℕ) → All (λ i. is_in i ids ≡ true) ids
unfolding is_in any
is_in_self [] = tt
is_in_self (id ∷ ids) = (ground arith, All-map _ _ (λ i h. ground (arith, h)) ids (is_in_self ids))

All-filter_keep {ℓ} :
    {A : Type ℓ} (P : A → Type 0) (p : A → Bool) (xs : List A) → All P xs → All P (filter p xs)
unfolding filter
All-filter_keep P p [] h = tt
All-filter_keep P p (x ∷ xs) h = elim (Bool-cases (p x)) [
  | inl kept ↦ rw kept (h.0, All-filter_keep P p xs h.1)
  | inr dropped ↦ rw dropped (All-filter_keep P p xs h.1)
]

All-distinct : (P : ℕ → Type 0) (ids : List ℕ) → All P ids → All P (distinct ids)
unfolding distinct
All-distinct P [] h = tt
All-distinct P (id ∷ ids) h = (h.0, All-filter_keep P _ (distinct ids) (All-distinct P ids h.1))

is_in-pipeline :
    (id : ℕ) (candidates : List ℕ) (db : Db)
    → is_in id (pipeline_ids candidates db) ≡ (is_in id candidates && has_application db id)
unfolding pipeline_ids
is_in-pipeline id candidates db = is_in-distinct id _ ∙ is_in-filter (λ i. is_in i candidates) id _

split_candidates_lem :
    (candidates : List ℕ) (db : Db)
    → (split_candidates candidates db).0 ≡ filter (λ id. not (has_application db id)) candidates
unfolding split_candidates
split_candidates_lem [] db = unfold filter in refl
split_candidates_lem (id ∷ ids) db = filter_cong _ _ (id ∷ ids) (
    All-map _ _
      (λ i h. ap not (is_in-pipeline i (id ∷ ids) db ∙ ap (λ b. b && has_application db i) h))
      (id ∷ ids) (is_in_self (id ∷ ids)))

pub partition-removed :
    (older_than : ℕ) (db : Db)
    → (partition_offers_for_cleanup older_than db).0 ≡ removed older_than db
unfolding partition_offers_for_cleanup candidate_ids
partition-removed older_than db =
    split_candidates_lem (candidate_ids older_than db) db
    ∙ filter-offer_ids _ (filter (is_older older_than) db.offers)
    ∙ ap offer_ids (filter-filter _ (is_older older_than) db.offers)

length-filter_none : (ids : List ℕ) → filter (λ i. is_in i []) ids ≡ []
unfolding filter is_in any
length-filter_none [] = refl
length-filter_none (id ∷ ids) = length-filter_none ids

split_candidates-skipped :
    (candidates : List ℕ) (db : Db)
    → AreDistinct candidates
    → (split_candidates candidates db).1 ≡ length (filter (λ id. has_application db id) candidates)
unfolding split_candidates
split_candidates-skipped [] db h = unfold filter in refl
split_candidates-skipped (id ∷ ids) db h =
    let whole : List ℕ = id ∷ ids in
    sym (
      length-filter-is_in (pipeline_ids whole db) whole h
        (unfold pipeline_ids in distinct-AreDistinct _)
        (unfold pipeline_ids in
          All-distinct _ _ (
            All-filter (λ i. is_in i whole)
              (map (λ (a : Application). a.offer_id) db.applications))))
    ∙ ap length (
        filter_cong _ _ whole (
          All-map _ _ (λ i k. is_in-pipeline i whole db ∙ ap (λ b. b && has_application db i) k)
            whole (is_in_self whole)))

pub is_in-offer_ids :
    (p : OfferRow → Bool) (id : ℕ) (rows : List OfferRow)
    → is_in id (offer_ids rows) ≡ false
    → is_in id (offer_ids (filter p rows)) ≡ false
unfolding filter is_in any
is_in-offer_ids p id [] h = refl
is_in-offer_ids p id (row ∷ rows) h = ground (arith, is_in-offer_ids p id rows)

pub offer_ids-AreDistinct :
    (p : OfferRow → Bool) (rows : List OfferRow)
    → AreDistinct (offer_ids rows)
    → AreDistinct (offer_ids (filter p rows))
unfolding filter
offer_ids-AreDistinct p [] h = tt
offer_ids-AreDistinct p (row ∷ rows) h = elim (Bool-cases (p row)) [
  | inl kept ↦ rw kept (is_in-offer_ids p row.id rows h.0, offer_ids-AreDistinct p rows h.1)
  | inr dropped ↦ rw dropped (offer_ids-AreDistinct p rows h.1)
]

pub partition-protected :
    (older_than : ℕ) (db : Db)
    → AreDistinct (offer_ids db.offers)
    → (partition_offers_for_cleanup older_than db).1
      ≡ length (filter (is_protected older_than db) db.offers)
unfolding partition_offers_for_cleanup candidate_ids
partition-protected older_than db h =
    split_candidates-skipped (candidate_ids older_than db) db (offer_ids-AreDistinct _ db.offers h)
    ∙ ap length (filter-offer_ids _ (filter (is_older older_than) db.offers))
    ∙ length-map _ _
    ∙ ap length (filter-filter _ (is_older older_than) db.offers)
