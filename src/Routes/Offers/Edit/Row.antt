-- ===== src/Routes/Offers/Edit/Row.antt =====
-- What one edit leaves of a row, and that the same edit then leaves it alone.
use mathlib.Core.Path.{subst}
use recru_flow.Base.{
  same_bool, ℕ, String, ◌≡◌, refl, sym, ap, ◌∙◌, inl, inr, Bool, true, false, Option, none, some,
  List, [], ◌∷◌, arith, eq_refl, ◌==◌, Bool-cases, Option-cases, get_or, find,
}
use recru_flow.Db.{Db, OfferRow, utcnow}
use recru_flow.Routes.Offers.View.{find_offer}
use recru_flow.Routes.Offers.Edit.{
  OfferEdit, set_flag, is_asked, stamp_opening, edited, is_unchanged, same_text, same_moment,
  replace_offer,
}

pub find_offer-id :
    (id : ℕ) (rows : List OfferRow) (row : OfferRow) → find_offer id rows ≡ some row → row.id ≡ id
unfolding find_offer find
find_offer-id id [] row h = absurd (ground (arith, h))
find_offer-id id (o ∷ rows) row h = ground (arith, find_offer-id id rows row)

pub find_offer-replace_offer :
    (id : ℕ) (rows : List OfferRow) (row row' : OfferRow)
    → find_offer id rows ≡ some row
    → row'.id ≡ id
    → find_offer id (replace_offer id row' rows) ≡ some row'
unfolding find_offer replace_offer find
find_offer-replace_offer id [] row row' h e = absurd (ground (arith, h))
find_offer-replace_offer id (o ∷ rows) row row' h e =
    ground (arith, e, find_offer-replace_offer id rows row row')

pub find_offer-replace_other :
    (id other : ℕ) (rows : List OfferRow) (row' : OfferRow)
    → row'.id ≡ id
    → (other == id) ≡ false
    → find_offer other (replace_offer id row' rows) ≡ find_offer other rows
unfolding find_offer replace_offer find
find_offer-replace_other id other [] row' e differs = refl
find_offer-replace_other id other (o ∷ rows) row' e differs =
    ground (arith, e, differs, find_offer-replace_other id other rows row')

replace_offer-replace_offer :
    (id : ℕ) (row : OfferRow) (rows : List OfferRow)
    → replace_offer id row (replace_offer id row rows) ≡ replace_offer id row rows
unfolding replace_offer
replace_offer-replace_offer id row [] = refl
replace_offer-replace_offer id row (o ∷ rows) =
    ground (arith, replace_offer-replace_offer id row rows)

set_flag_again :
    (e : Option (Option Bool)) (old b : Bool) → set_flag e old ≡ some b → set_flag e b ≡ some b
unfolding set_flag
set_flag_again none old b h = refl
set_flag_again (some given) old b h = h

get_or_again {ℓ} : {A : Type ℓ} (e : Option A) (old : A) → get_or e (get_or e old) ≡ get_or e old
get_or_again none old = refl
get_or_again (some a) old = refl

same_bool_refl : (b : Bool) → same_bool b b ≡ true
same_bool_refl true = refl
same_bool_refl false = refl

same_text_refl : (t : Option String) → same_text t t ≡ true
same_text_refl none = refl
same_text_refl (some s) = eq_refl s

same_moment_refl : (m : Option ℕ) → same_moment m m ≡ true
same_moment_refl none = refl
same_moment_refl (some t) = ground arith

pub is_unchanged_refl : (row : OfferRow) → is_unchanged row row ≡ true
unfolding is_unchanged
is_unchanged_refl row = ground (
  arith,
  same_bool_refl row.applied,
  same_bool_refl row.hide,
  same_text_refl row.notes,
  same_moment_refl row.link_opened_at,
)

-- What the assignments leave of a row, and that they leave the same of their own result.
pub record IsEdited (edit : OfferEdit) (opened_at : Option ℕ) (row row' : OfferRow) : Type 0 where
  pub id : row'.id ≡ row.id
  pub offer : row'.offer ≡ row.offer
  pub opening : row'.link_opened_at ≡ opened_at
  pub again :
      (moment : ℕ)
      → edited edit opened_at (record row' { updated_at = moment })
        ≡ some (record row' { updated_at = moment })

pub edited-IsEdited :
    (edit : OfferEdit) (opened_at : Option ℕ) (row row' : OfferRow)
    → edited edit opened_at row ≡ some row'
    → IsEdited edit opened_at row row'
edited-IsEdited edit opened_at row row' h =
    elim (Option-cases (set_flag edit.applied row.applied)) [
      | inl refused ↦ unfold edited in ground (arith, h, refused)
      | inr (a, sa) ↦ elim (Option-cases (set_flag edit.hide row.hide)) [
        | inl refused ↦ unfold edited in ground (arith, h, sa, refused)
        | inr (b, sb) ↦
            let result : OfferRow = record row {
              applied = a;
              hide = b;
              notes = get_or edit.notes row.notes;
              link_opened_at = opened_at;
            } in
            let made : edited edit opened_at row ≡ some result =
              unfold edited in rw (sa, sb, edited) refl in
            let e : result ≡ row' = ap (λ o. get_or o row') (sym made ∙ h) in
            subst (IsEdited edit opened_at row) e (record {
              id = refl;
              offer = refl;
              opening = refl;
              again = λ moment.
                  unfold edited in
                  rw
                    (
                      set_flag_again edit.applied row.applied a sa,
                      set_flag_again edit.hide row.hide b sb,
                      get_or_again edit.notes row.notes,
                      edited,
                    )
                    refl;
            })
      ]
    ]

-- Once a row was opened by an edit, the edit opens it no more.
pub first_opening_again :
    (clock : ℕ → ℕ) (edit : OfferEdit) (row row' : OfferRow) (db db' : Db)
    → row'.link_opened_at ≡ (stamp_opening clock edit row db).0
    → stamp_opening clock edit row' db' ≡ (row'.link_opened_at, db')
unfolding stamp_opening utcnow
first_opening_again clock edit row row' db db' h = elim (Bool-cases (is_asked edit.link_opened)) [
  | inl asked ↦ elim (Option-cases row.link_opened_at) [
    | inl unopened ↦
        let e : row'.link_opened_at ≡ some (clock db.reads) = ground (arith, h, asked, unopened) in
        rw (asked, e) refl
    | inr (t, opened) ↦
        let e : row'.link_opened_at ≡ some t = ground (arith, h, asked, opened) in
        rw (asked, e) refl
  ]
  | inr quiet ↦ rw quiet refl
]
