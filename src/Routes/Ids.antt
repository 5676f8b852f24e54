-- ===== src/Routes/Ids.antt =====
-- Lists of ids, as the handlers collect them: the tests `in` and `distinct`.
use mathlib.Core.Path.{subst}
use recru_flow.Base.{
  ℕ, suc, ◌+◌, ◌≡◌, refl, ◌∙◌, inl, inr, Bool, true, false, not, ◌&&◌, ◌||◌, List, [], ◌∷◌, arith,
  ◌==◌, if◌then◌else◌, Bool-cases, length, filter, any, All,
}

-- `id in ids`
unfoldable pub is_in : ℕ → List ℕ → Bool
unfolding any
is_in id ids = any (λ other. other == id) ids

-- `SELECT DISTINCT`
unfoldable pub distinct : List ℕ → List ℕ
unfolding filter
distinct [] = []
distinct (id ∷ ids) = id ∷ filter (λ other. not (other == id)) (distinct ids)

-- No id occurs twice.
abbrev pub AreDistinct : List ℕ → Type 0
AreDistinct [] = Unit
AreDistinct (id ∷ ids) = (is_in id ids ≡ false) × AreDistinct ids

pub is_in-filter :
    (p : ℕ → Bool) (id : ℕ) (ids : List ℕ) → is_in id (filter p ids) ≡ (p id && is_in id ids)
unfolding is_in filter any
is_in-filter p id [] = ground arith
is_in-filter p id (other ∷ ids) = elim (Bool-cases (other == id)) [
  | inl same ↦
      let e : other ≡ id = ground (arith, same) in rw e (ground (arith, is_in-filter p id ids))
  | inr differs ↦ ground (arith, differs, is_in-filter p id ids)
]

pub is_in-distinct : (id : ℕ) (ids : List ℕ) → is_in id (distinct ids) ≡ is_in id ids
unfolding is_in distinct any
is_in-distinct id [] = refl
is_in-distinct id (other ∷ ids) =
    let kept = is_in-filter (λ i. not (i == other)) id (distinct ids) in
    unfold is_in in ground (arith, kept, is_in-distinct id ids)

filter-AreDistinct : (p : ℕ → Bool) (ids : List ℕ) → AreDistinct ids → AreDistinct (filter p ids)
unfolding filter
filter-AreDistinct p [] h = tt
filter-AreDistinct p (id ∷ ids) h = elim (Bool-cases (p id)) [
  | inl yes_p ↦
      rw yes_p (rw (is_in-filter p id ids, h.0) (ground arith), filter-AreDistinct p ids h.1)
  | inr no_p ↦ rw no_p (filter-AreDistinct p ids h.1)
]

pub distinct-AreDistinct : (ids : List ℕ) → AreDistinct (distinct ids)
unfolding distinct
distinct-AreDistinct [] = tt
distinct-AreDistinct (id ∷ ids) = (
  rw (is_in-filter (λ other. not (other == id)) id (distinct ids)) (ground arith),
  filter-AreDistinct _ (distinct ids) (distinct-AreDistinct ids),
)

count_one :
    (d : ℕ) (ids whole : List ℕ)
    → AreDistinct whole
    → is_in d ids ≡ false
    → length (filter (λ i. d == i || is_in i ids) whole)
      ≡ (if is_in d whole then 1 else 0) + length (filter (λ i. is_in i ids) whole)
unfolding filter
count_one d ids [] h fresh = unfold is_in any in omega arith
count_one d ids (c ∷ whole) h fresh = elim (Bool-cases (d == c)) [
  | inl same ↦
      let e : c ≡ d = ground (arith, same) in
      let ih = count_one d ids whole h.1 fresh in
      let gone : is_in d whole ≡ false = subst (λ x. is_in x whole ≡ false) e h.0 in
      let here : is_in d (d ∷ whole) ≡ true = unfold is_in any in ground arith in
      rw e (rw here (ground (arith, fresh, ih, gone)))
  | inr differs ↦
      let there : is_in d (c ∷ whole) ≡ is_in d whole =
        unfold is_in any in ground (arith, differs) in
      rw there (ground (arith, differs, count_one d ids whole h.1 fresh))
]

filter_nothing : (xs : List ℕ) → length (filter (λ i. is_in i []) xs) ≡ 0
unfolding filter is_in any
filter_nothing [] = refl
filter_nothing (x ∷ xs) = filter_nothing xs

-- The members of a list without repetitions are as many as the ids that it is asked for.
pub length-filter-is_in :
    (ids whole : List ℕ)
    → AreDistinct whole
    → AreDistinct ids
    → All (λ i. is_in i whole ≡ true) ids
    → length (filter (λ i. is_in i ids) whole) ≡ length ids
length-filter-is_in [] whole h k within = filter_nothing whole
length-filter-is_in (d ∷ ids) whole h k within =
    counted (count_one d ids whole h k.0) (length-filter-is_in ids whole h k.1 within.1)
  where
    counted :
        length (filter (λ i. d == i || is_in i ids) whole)
          ≡ (if is_in d whole then 1 else 0) + length (filter (λ i. is_in i ids) whole)
        → length (filter (λ i. is_in i ids) whole) ≡ length ids
        → length (filter (λ i. is_in i (d ∷ ids)) whole) ≡ suc (length ids)
    counted one rest = unfold is_in any in one ∙ ground (arith, rest, within.0)
