-- ===== src/Ingestion/Normalize/Distinct.antt =====
-- Adding a level to a list of distinct ones, and the levels that a vocabulary has.
use mathlib.Core.Path.{subst}
use recru_flow.Base.{
  String, ◌≡◌, refl, ap, ◌∙◌, inl, inr, Bool, true, false, ◌||◌, Option, none, some, List, [], ◌∷◌,
  ◌++◌, arith, str_eq, eq_iff, Bool-cases, Option-cases, any, all, any-append,
}
use recru_flow.Data.Json.{Value}
use recru_flow.Ingestion.Normalize.{
  entry, canonical_seniority_levels, Vocab, seniority_vocab, vocab_of, level_of, has_text,
  add_level,
}

abbrev pub is_level : String → Bool
is_level text = has_text text canonical_seniority_levels

abbrev pub AreDistinct : List String → Type 0
AreDistinct [] = Unit
AreDistinct (text ∷ texts) = (has_text text texts ≡ false) × AreDistinct texts

-- Some item stands for the level.
abbrev pub names_level : Vocab → String → List Value → Bool
names_level vocab level items =
    any (λ v. elim (level_of vocab v) [ none ↦ false | some l ↦ str_eq l level ]) items

pub entry-all {ℓ} :
    {A : Type ℓ} (p : A → Bool) (key : String) (table : List (String × A)) (a : A)
    → all (λ e. p e.1) table ≡ true
    → entry key table ≡ some a
    → p a ≡ true
unfolding entry all
entry-all p key [] a h found = absurd (ground (arith, found))
entry-all p key ((name, b) ∷ rest) a h found = elim (Bool-cases (str_eq name key)) [
  | inl same ↦ ground (arith, h, found, same)
  | inr differs ↦ entry-all p key rest a (ground (arith, h)) (ground (arith, found, differs))
]

all_canonical : all (λ e. all (λ l. is_level l.1) e.1) seniority_vocab ≡ true
unfolding all has_text any
all_canonical = refl

pub vocab_canonical :
    (source_name : String) → all (λ l. is_level l.1) (vocab_of source_name seniority_vocab) ≡ true
vocab_canonical source_name = elim (Option-cases (entry source_name seniority_vocab)) [
  | inl missing ↦ rw missing (unfold all in refl)
  | inr (table, found) ↦
      rw found
        (entry-all (all (λ l. is_level l.1)) source_name seniority_vocab table all_canonical found)
]

has_text-append :
    (text : String) (texts : List String) (more : List String)
    → has_text text (texts ++ more) ≡ (has_text text texts || has_text text more)
unfolding has_text
has_text-append text texts more = any-append _ texts more

first_fresh :
    (t text : String) (texts : List String)
    → has_text t texts ≡ false
    → has_text text (t ∷ texts) ≡ false
    → (has_text t texts || has_text t (text ∷ [])) ≡ false
unfolding has_text any
first_fresh t text texts h fresh = ground (arith, h, fresh, eq_iff t text, eq_iff text t)

pub append-AreDistinct :
    (texts : List String) (text : String)
    → AreDistinct texts
    → has_text text texts ≡ false
    → AreDistinct (texts ++ (text ∷ []))
append-AreDistinct [] text h fresh = (unfold has_text any in refl, tt)
append-AreDistinct (t ∷ texts) text h fresh = (
  has_text-append t texts (text ∷ []) ∙ first_fresh t text texts h.0 fresh,
  append-AreDistinct texts text h.1 (unfold has_text any in ground (arith, fresh)),
)

pub add_level-has :
    (found : Option String) (level : String) (levels : List String)
    → has_text level (add_level found levels)
      ≡ (has_text level levels || (elim found [ none ↦ false | some l ↦ str_eq l level ]))
unfolding add_level
add_level-has none level levels = ground arith
add_level-has (some l) level levels = elim (Bool-cases (has_text l levels)) [
  | inl known ↦ rw known (elim (Bool-cases (str_eq l level)) [
    | inl same ↦
        let e : l ≡ level = ground (arith, same, eq_iff l level) in
        let k : has_text level levels ≡ true = subst (λ x. has_text x levels ≡ true) e known in
        ground (arith, same, k)
    | inr differs ↦ ground (arith, differs)
  ])
  | inr fresh ↦ rw fresh (
      has_text-append level levels (l ∷ [])
      ∙ ap (λ b. has_text level levels || b) (unfold has_text any in ground arith))
]
