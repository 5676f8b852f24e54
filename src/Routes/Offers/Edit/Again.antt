-- ===== src/Routes/Offers/Edit/Again.antt =====
-- A patch that is sent twice does what it does once.
use mathlib.Core.Path.{subst}
use recru_flow.Base.{
  ℕ, ◌+◌, ◌≡◌, refl, sym, ap, ◌∙◌, inl, inr, true, Option, none, some, arith, Bool-cases,
  Option-cases,
}
use recru_flow.Db.{Db, OfferRow, utcnow}
use recru_flow.Routes.Offers.View.{OfferSummary, Reply, not_found, failed, find_offer, source_of}
use recru_flow.Routes.Offers.Edit.{
  OfferEdit, set_flag, stamp_opening, edited, is_unchanged, replace_offer, flush_offer, summarise,
  patch_stamped, patch_offer, same_moment,
}
use recru_flow.Routes.Offers.Edit.Row.{
  find_offer-id, find_offer-replace_offer, is_unchanged_refl, edited-IsEdited, first_opening_again,
}

stamp_opening-offers :
    (clock : ℕ → ℕ) (edit : OfferEdit) (row : OfferRow) (db : Db)
    → (stamp_opening clock edit row db).1.offers ≡ db.offers
unfolding stamp_opening
stamp_opening-offers clock edit row db = ground arith

summarise-db : (row : OfferRow) (db : Db) → (summarise (row, db)).1 ≡ db
unfolding summarise
summarise-db row db = elim (Option-cases (source_of row db)) [
  | inl missing ↦ rw (missing, summarise) refl
  | inr (s, found) ↦ rw (found, summarise) refl
]

edited-none :
    (edit : OfferEdit) (a b : Option ℕ) (row : OfferRow)
    → edited edit a row ≡ none
    → edited edit b row ≡ none
unfolding edited
edited-none edit a b row h = elim (Option-cases (set_flag edit.applied row.applied)) [
  | inl refused ↦ rw (refused, edited) refl
  | inr (x, sx) ↦ elim (Option-cases (set_flag edit.hide row.hide)) [
    | inl refused ↦ rw (sx, refused, edited) refl
    | inr (y, sy) ↦ absurd (ground (arith, h, sx, sy))
  ]
]

same_moment-eq : (a b : Option ℕ) → same_moment a b ≡ true → a ≡ b
same_moment-eq none none h = refl
same_moment-eq none (some t) h = absurd (ground (arith, h))
same_moment-eq (some t) none h = absurd (ground (arith, h))
same_moment-eq (some t) (some u) h = ground (arith, h)

is_unchanged-opening :
    (a b : OfferRow) → is_unchanged a b ≡ true → a.link_opened_at ≡ b.link_opened_at
unfolding is_unchanged
is_unchanged-opening a b h = same_moment-eq a.link_opened_at b.link_opened_at (ground (arith, h))

module _ (clock : ℕ → ℕ) (edit : OfferEdit) where
  abbrev Repeats : ℕ → Reply OfferSummary × Db → Type 0
  Repeats id first =
      ((patch_offer clock id edit first.1).0 ≡ first.0)
      × ((patch_offer clock id edit first.1).1.offers ≡ first.1.offers)

  patch_found :
      (id : ℕ) (row : OfferRow) (db : Db)
      → find_offer id db.offers ≡ some row
      → patch_offer clock id edit db
        ≡ patch_stamped clock edit row (stamp_opening clock edit row db)
  unfolding patch_offer
  patch_found id row db found = rw (found, patch_offer) refl

  patch_made :
      (row row' : OfferRow) (opened_at : Option ℕ) (db : Db)
      → edited edit opened_at row ≡ some row'
      → patch_stamped clock edit row (opened_at, db) ≡ summarise (flush_offer clock row row' db)
  unfolding patch_stamped
  patch_made row row' opened_at db made = rw (made, patch_stamped) refl

  patch_refused :
      (row : OfferRow) (opened_at : Option ℕ) (db : Db)
      → edited edit opened_at row ≡ none
      → patch_stamped clock edit row (opened_at, db) ≡ (failed, db)
  unfolding patch_stamped
  patch_refused row opened_at db refused = rw (refused, patch_stamped) refl

  -- The patch of a row that the edit leaves as it is.
  settled :
      (id : ℕ) (row row' : OfferRow) (db : Db)
      → find_offer id db.offers ≡ some row
      → stamp_opening clock edit row db ≡ (row.link_opened_at, db)
      → edited edit row.link_opened_at row ≡ some row'
      → is_unchanged row row' ≡ true
      → patch_offer clock id edit db ≡ summarise (row, db)
  settled id row row' db found stamped made same =
      patch_found id row db found
      ∙ ap (patch_stamped clock edit row) stamped
      ∙ patch_made row row' row.link_opened_at db made
      ∙ ap summarise (unfold flush_offer in rw (same, flush_offer) refl)

  -- The same patch once more, after one whose edit was made.
  Repeats-settled :
      (id : ℕ) (row row' : OfferRow) (db : Db)
      → find_offer id db.offers ≡ some row
      → stamp_opening clock edit row db ≡ (row.link_opened_at, db)
      → edited edit row.link_opened_at row ≡ some row'
      → is_unchanged row row' ≡ true
      → Repeats id (summarise (row, db))
  Repeats-settled id row row' db found stamped made same =
      let e : (summarise (row, db)).1 ≡ db = summarise-db row db in
      let again =
        ap (patch_offer clock id edit) e ∙ settled id row row' db found stamped made same in
      (ap (λ r. r.0) again, ap (λ r. r.1.offers) again)

  Repeats-made :
      (id : ℕ) (row row' : OfferRow) (opened_at : Option ℕ) (db : Db)
      → find_offer id db.offers ≡ some row
      → row.id ≡ id
      → ((other : OfferRow) (later : Db)
          → other.link_opened_at ≡ opened_at
          → stamp_opening clock edit other later ≡ (other.link_opened_at, later))
      → edited edit opened_at row ≡ some row'
      → Repeats id (summarise (flush_offer clock row row' db))
  Repeats-made id row row' opened_at db found e stamps made =
      elim (Bool-cases (is_unchanged row row')) [
        | inl same ↦
            let opening : row.link_opened_at ≡ opened_at =
              is_unchanged-opening row row' same
              ∙ (edited-IsEdited edit opened_at row row' made).opening in
            let flushed : flush_offer clock row row' db ≡ (row, db) =
              unfold flush_offer in rw (same, flush_offer) refl in
            subst (λ f. Repeats id (summarise f)) (sym flushed)
              (Repeats-settled id row row' db found (stamps row db opening)
                (subst (λ o. edited edit o row ≡ some row') (sym opening) made) same)
        | inr changed ↦
            let moment : ℕ = clock db.reads in
            let kept = edited-IsEdited edit opened_at row row' made in
            let row'' : OfferRow = record row' { updated_at = moment } in
            let db'' : Db = record db {
              offers = replace_offer row.id row'' db.offers;
              reads = db.reads + 1;
            } in
            let flushed : flush_offer clock row row' db ≡ (row'', db'') =
              unfold flush_offer utcnow in rw (changed, flush_offer) refl in
            subst (λ f. Repeats id (summarise f)) (sym flushed)
              (Repeats-settled id row'' row'' db''
                (subst (λ i. find_offer id (replace_offer i row'' db.offers) ≡ some row'') (sym e)
                  (find_offer-replace_offer id db.offers row row'' found (kept.id ∙ e)))
                (stamps row'' db'' kept.opening)
                (subst (λ o. edited edit o row'' ≡ some row'') (sym kept.opening)
                  (kept.again moment))
                (is_unchanged_refl row''))
      ]

  -- A patch that is sent a second time gives the answer of the first one, and leaves the offers as the
  -- first one did, whatever happened to the first.
  pub patch_offer_idempotent :
      (id : ℕ) (db : Db)
      → let first = patch_offer clock id edit db in
        let second = patch_offer clock id edit first.1 in
        (second.0 ≡ first.0) × (second.1.offers ≡ first.1.offers)
  patch_offer_idempotent id db = elim (Option-cases (find_offer id db.offers)) [
    | inl missing ↦
        let none_found : patch_offer clock id edit db ≡ (not_found, db) =
          unfold patch_offer in rw (missing, patch_offer) refl in
        subst (Repeats id) (sym none_found)
          (ap (λ r. r.0) none_found, ap (λ r. r.1.offers) none_found)
    | inr (row, found) ↦
        let (opened_at, db') = stamp_opening clock edit row db in
        let kept : db'.offers ≡ db.offers = stamp_opening-offers clock edit row db in
        elim (Option-cases (edited edit opened_at row)) [
          | inl refused ↦
              let first = patch_found id row db found ∙ patch_refused row opened_at db' refused in
              let second =
                patch_found id row db' (ap (find_offer id) kept ∙ found)
                ∙ patch_refused row _ (stamp_opening clock edit row db').1
                    (edited-none edit opened_at _ row refused) in
              subst (Repeats id) (sym first) (
                ap (λ r. r.0) second,
                ap (λ r. r.1.offers) second ∙ stamp_opening-offers clock edit row db',
              )
          | inr (row', made) ↦
              subst (Repeats id)
                (sym (patch_found id row db found ∙ patch_made row row' opened_at db' made))
                (Repeats-made id row row' opened_at db' (ap (find_offer id) kept ∙ found)
                  (find_offer-id id db.offers row found)
                  (λ other later e. first_opening_again clock edit row other db later e) made)
        ]
  ]
