-- ===== src/Routes/Offers/Edit.antt =====
-- `patch_offer`
pub mod Row
pub mod Again
use recru_flow.Base.{
  same_bool, ℕ, zero, suc, ◌+◌, ◌-◌, ◌*◌, ◌/◌, ◌%◌, ◌≤◌, ◌<◌, min, max, String, ◌<>◌, ◌≡◌, refl,
  sym, ap, ◌∙◌, ◌≢◌, ◌↔◌, ◌⊎◌, inl, inr, Bool, true, false, not, ◌&&◌, ◌||◌, Option, none, some,
  List, [], ◌∷◌, ◌++◌, map, foldl, append-nil, append_assoc, arith, str_eq, eq_iff, eq_refl, ltb,
  leb, ◌==◌, if◌then◌else◌, ltb→lt, lt→ltb, leb→le, le→leb, ==_iff, tests, Bool-cases, Option-cases,
  is_none, is_some, get_or, or_else, length, get_elem?, take, drop, filter, any, all, find, All,
  length-append, length-take, length-drop, take-append-drop, length-filter-le, any-append,
  filter-append, All-append, All-map, All-filter, length-filter-not, length-map,
}
use recru_flow.Db.{Db, OfferRow, Source, utcnow}
use recru_flow.Routes.Offers.View.{
  OfferSummary, Reply, ok, not_found, failed, offer_summary, source_label, find_offer, source_of,
  active_match_score, percent_of,
}

-- `OfferEdit`: a field is left out, null, or given.
pub record OfferEdit : Type 0 where
  pub applied : Option (Option Bool)
  pub hide : Option (Option Bool)
  pub notes : Option (Option String)
  pub link_opened : Option (Option Bool)

-- What the commit finds in a column that may not be null; `none` is its refusal.
unfoldable pub set_flag : Option (Option Bool) → Bool → Option Bool
set_flag none old = some old
set_flag (some given) old = given

-- The truth value of `link_opened`.
abbrev pub is_asked : Option (Option Bool) → Bool
is_asked none = false
is_asked (some none) = false
is_asked (some (some opened)) = opened

unfoldable pub stamp_opening : (ℕ → ℕ) → OfferEdit → OfferRow → Db → Option ℕ × Db
unfolding utcnow
stamp_opening clock edit row db =
    if is_asked edit.link_opened && is_none row.link_opened_at
    then (some (utcnow clock db).0, (utcnow clock db).1)
    else (row.link_opened_at, db)

-- The row with the assignments of the handler.
unfoldable pub edited : OfferEdit → Option ℕ → OfferRow → Option OfferRow
unfolding set_flag
edited edit opened_at row = elim (set_flag edit.applied row.applied) [
  | none ↦ none
  | some applied ↦ elim (set_flag edit.hide row.hide) [
    | none ↦ none
    | some hide ↦ some (record row {
      applied = applied;
      hide = hide;
      notes = get_or edit.notes row.notes;
      link_opened_at = opened_at;
    })
  ]
]

abbrev pub same_text : Option String → Option String → Bool
same_text none none = true
same_text (some a) (some b) = str_eq a b
same_text _ _ = false

abbrev pub same_moment : Option ℕ → Option ℕ → Bool
same_moment none none = true
same_moment (some a) (some b) = a == b
same_moment _ _ = false

-- No assignment changed a column.
unfoldable pub is_unchanged : OfferRow → OfferRow → Bool
is_unchanged a b =
    same_bool a.applied b.applied
    && same_bool a.hide b.hide
    && same_text a.notes b.notes
    && same_moment a.link_opened_at b.link_opened_at

unfoldable pub replace_offer : ℕ → OfferRow → List OfferRow → List OfferRow
replace_offer id row = map (λ (o : OfferRow). if o.id == id then row else o)

-- `session.commit()` with `session.refresh(offer)`: an `UPDATE` only of a row that changed, and it
-- moves `updated_at`.
unfoldable pub flush_offer : (ℕ → ℕ) → OfferRow → OfferRow → Db → OfferRow × Db
unfolding is_unchanged replace_offer utcnow
flush_offer clock row row' db = if is_unchanged row row' then (row, db) else (
  record row' { updated_at = (utcnow clock db).0 },
  record (utcnow clock db).1 {
    offers = replace_offer row.id (record row' { updated_at = (utcnow clock db).0 }) db.offers;
  },
)

-- The answer, read after the commit; a missing source fails the assertion.
unfoldable pub summarise : OfferRow × Db → Reply OfferSummary × Db
unfolding source_of active_match_score offer_summary source_label
summarise (row, db) = elim (source_of row db) [
  | none ↦ (failed, db)
  | some source ↦
      (ok (offer_summary row (source_label source) (percent_of (active_match_score row.id db))), db)
]

-- The rest of the handler, once the moment of the opening is known.
unfoldable pub patch_stamped :
    (ℕ → ℕ) → OfferEdit → OfferRow → Option ℕ × Db → Reply OfferSummary × Db
unfolding edited flush_offer summarise
patch_stamped clock edit row (opened_at, db) = elim (edited edit opened_at row) [
  | none ↦ (failed, db)
  | some row' ↦ summarise (flush_offer clock row row' db)
]

unfoldable pub patch_offer : (ℕ → ℕ) → ℕ → OfferEdit → Db → Reply OfferSummary × Db
unfolding find_offer patch_stamped stamp_opening
patch_offer clock offer_id edit db = elim (find_offer offer_id db.offers) [
  | none ↦ (not_found, db)
  | some row ↦ patch_stamped clock edit row (stamp_opening clock edit row db)
]
