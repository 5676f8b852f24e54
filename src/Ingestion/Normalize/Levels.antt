-- ===== src/Ingestion/Normalize/Levels.antt =====
-- The seniority of an offer is a list of canonical levels, each named once.
use mathlib.Core.Path.{subst}
use recru_flow.Data.Text.{strip, lower, is_empty}
use recru_flow.Base.{
  String, ◌≡◌, refl, sym, ap, ◌∙◌, inl, inr, Bool, true, false, ◌||◌, Option, none, some, List, [],
  ◌∷◌, arith, Bool-cases, Option-cases, any, all, All, All-append,
}
use recru_flow.Data.Json.{Value, obj, arr, str, int, float, bool, datetime}
use recru_flow.Data.Text.{join}
use recru_flow.Ingestion.Normalize.{
  Vocab, seniority_vocab, vocab_of, level_of, has_text, add_level, collect_levels, join_some,
  items_of, normalize_seniority,
}
use recru_flow.Ingestion.Normalize.Distinct.{
  is_level, AreDistinct, names_level, entry-all, vocab_canonical, append-AreDistinct, add_level-has,
}

-- What is known of the levels that were collected so far.
record IsCollected (vocab : Vocab) (items : List Value) (acc levels : List String) : Type 0 where
  canonical : All (λ l. is_level l ≡ true) levels
  distinct : AreDistinct levels
  complete :
      (level : String)
      → has_text level levels ≡ (has_text level acc || names_level vocab level items)

level_of-canonical :
    (vocab : Vocab) (v : Value) (l : String)
    → all (λ l. is_level l.1) vocab ≡ true
    → level_of vocab v ≡ some l
    → is_level l ≡ true
unfolding level_of
level_of-canonical vocab (str s) l table found = elim (Bool-cases (is_empty (strip s))) [
  | inl blank ↦ absurd (ground (arith, found, blank))
  | inr text ↦ entry-all is_level (lower (strip s)) vocab l table (ground (arith, found, text))
]
level_of-canonical vocab (obj d) l table found = absurd (ground (arith, found))
level_of-canonical vocab (arr vs) l table found = absurd (ground (arith, found))
level_of-canonical vocab (int n) l table found = absurd (ground (arith, found))
level_of-canonical vocab (float m k) l table found = absurd (ground (arith, found))
level_of-canonical vocab (bool b) l table found = absurd (ground (arith, found))
level_of-canonical vocab (datetime t) l table found = absurd (ground (arith, found))
level_of-canonical vocab Value.null l table found = absurd (ground (arith, found))

or_assoc : (a b c : Bool) → ((a || b) || c) ≡ (a || (b || c))
or_assoc a b c = ground arith

add_level-canonical :
    (vocab : Vocab) (item : Value) (levels : List String)
    → all (λ l. is_level l.1) vocab ≡ true
    → All (λ l. is_level l ≡ true) levels
    → All (λ l. is_level l ≡ true) (add_level (level_of vocab item) levels)
unfolding add_level
add_level-canonical vocab item levels table h = elim (Option-cases (level_of vocab item)) [
  | inl unmapped ↦ rw (unmapped, add_level) h
  | inr (l, mapped) ↦
      subst (λ found. All (λ l. is_level l ≡ true) (add_level found levels)) (sym mapped)
        (with_level l (level_of-canonical vocab item l table mapped))
]
  where
    with_level :
        (l : String) → is_level l ≡ true → All (λ l. is_level l ≡ true) (add_level (some l) levels)
    with_level l ok = elim (Bool-cases (has_text l levels)) [
      | inl known ↦ rw known h
      | inr fresh ↦ rw fresh (All-append _ levels (l ∷ []) h (ok, tt))
    ]

add_level-AreDistinct :
    (found : Option String) (levels : List String)
    → AreDistinct levels
    → AreDistinct (add_level found levels)
unfolding add_level
add_level-AreDistinct none levels h = h
add_level-AreDistinct (some l) levels h = elim (Bool-cases (has_text l levels)) [
  | inl known ↦ rw known h
  | inr fresh ↦ rw fresh (append-AreDistinct levels l h fresh)
]

collect_levels-IsCollected :
    (vocab : Vocab) (items : List Value) (acc : List String)
    → all (λ l. is_level l.1) vocab ≡ true
    → All (λ l. is_level l ≡ true) acc
    → AreDistinct acc
    → IsCollected vocab items acc (collect_levels vocab items acc)
collect_levels-IsCollected vocab [] acc table h k =
    unfold collect_levels in
    record { canonical = h; distinct = k; complete = λ level. unfold any in ground arith }
collect_levels-IsCollected vocab (item ∷ items) acc table h k = after (
    collect_levels-IsCollected vocab items (add_level (level_of vocab item) acc) table
      (add_level-canonical vocab item acc table h)
      (add_level-AreDistinct (level_of vocab item) acc k))
  where
    after :
        IsCollected vocab items
          (add_level (level_of vocab item) acc)
          (collect_levels vocab items (add_level (level_of vocab item) acc))
        → IsCollected vocab (item ∷ items) acc (collect_levels vocab (item ∷ items) acc)
    after c =
        unfold collect_levels in
        record {
          canonical = c.canonical;
          distinct = c.distinct;
          complete = λ level.
              c.complete level
              ∙ ap (λ b. b || names_level vocab level items)
                  (add_level-has (level_of vocab item) level acc)
              ∙ or_assoc (has_text level acc) _ _;
        }

-- The levels that a seniority names, for the items that were given.
pub record IsSeniority (vocab : Vocab) (items : List Value) (levels : List String) : Type 0 where
  pub canonical : All (λ l. is_level l ≡ true) levels
  pub distinct : AreDistinct levels
  pub complete : (level : String) → has_text level levels ≡ names_level vocab level items

abbrev pub Seniority : Vocab → List Value → Option String → Type 0
Seniority vocab items none = (level : String) → names_level vocab level items ≡ false
Seniority vocab items (some text) =
    (levels : List String) × (text ≡ join ", " levels) × IsSeniority vocab items levels

levels-Seniority :
    (vocab : Vocab) (items : List Value) (levels : List String)
    → IsCollected vocab items [] levels
    → Seniority vocab items (join_some levels)
unfolding any has_text
levels-Seniority vocab items [] c = λ level. sym (c.complete level)
levels-Seniority vocab items (l ∷ levels) c = (
  l ∷ levels,
  refl,
  record { canonical = c.canonical; distinct = c.distinct; complete = λ level. c.complete level },
)

collected :
    (source_name : String) (v : Value)
    → Seniority
        (vocab_of source_name seniority_vocab)
        (items_of v)
        (join_some (collect_levels (vocab_of source_name seniority_vocab) (items_of v) []))
collected source_name v =
    let vocab : Vocab = vocab_of source_name seniority_vocab in
    levels-Seniority vocab (items_of v) _
      (collect_levels-IsCollected vocab (items_of v) [] (vocab_canonical source_name) tt tt)

-- For every source and every raw value, the seniority is absent just where no item stands for a level
-- in the vocabulary of the source; else it joins canonical levels, none of them twice, and just those
-- for which some item stands.
pub normalize_seniority-Seniority :
    (source_name : String) (v : Value)
    → Seniority
        (vocab_of source_name seniority_vocab)
        (items_of v)
        (normalize_seniority source_name v)
unfolding normalize_seniority
normalize_seniority-Seniority source_name Value.null = λ level. unfold any level_of in refl
normalize_seniority-Seniority source_name (obj d) = collected source_name (obj d)
normalize_seniority-Seniority source_name (arr vs) = collected source_name (arr vs)
normalize_seniority-Seniority source_name (str s) = collected source_name (str s)
normalize_seniority-Seniority source_name (int n) = collected source_name (int n)
normalize_seniority-Seniority source_name (float m k) = collected source_name (float m k)
normalize_seniority-Seniority source_name (bool b) = collected source_name (bool b)
normalize_seniority-Seniority source_name (datetime t) = collected source_name (datetime t)
