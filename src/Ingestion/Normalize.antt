-- ===== src/Ingestion/Normalize.antt =====
-- app/ingestion/normalize.py: the words of the job boards in the program's own terms. A warning that is
-- logged is left out.
pub mod Distinct
pub mod Levels
use Prim.Native.Nat.{◌^◌}
use recru_flow.Base.{
  ℕ, zero, suc, ◌+◌, ◌-◌, ◌*◌, ◌/◌, ◌%◌, ◌≤◌, ◌<◌, min, max, String, ◌<>◌, ◌≡◌, refl, sym, ap, ◌∙◌,
  ◌≢◌, ◌↔◌, ◌⊎◌, inl, inr, Bool, true, false, not, ◌&&◌, ◌||◌, Option, none, some, List, [], ◌∷◌,
  ◌++◌, map, foldl, append-nil, append_assoc, arith, str_eq, eq_iff, eq_refl, ltb, leb, ◌==◌,
  if◌then◌else◌, ltb→lt, lt→ltb, leb→le, le→leb, ==_iff, tests, Bool-cases, Option-cases, is_none,
  is_some, get_or, or_else, length, get_elem?, take, drop, filter, any, all, find, All,
  length-append, length-take, length-drop, take-append-drop, length-filter-le, any-append,
  filter-append, All-append, All-map, All-filter, length-filter-not, length-map,
}
use recru_flow.Base.Int.{ℤ, pos, negsuc}
use recru_flow.Data.Text.{strip, lower, upper, join, is_empty}
use recru_flow.Data.Json.{
  Value, obj, arr, str, int, float, bool, Fields, Items, to_list, lookup, truthy,
}
use recru_flow.Ingestion.Persist.{Host, str_of}

-- `dict.get(key)` of a table of texts.
unfoldable pub entry {ℓ} : {A : Type ℓ} → String → List (String × A) → Option A
entry key [] = none
entry key ((name, a) ∷ rest) = if str_eq name key then some a else entry key rest

abbrev pub canonical_seniority_levels : List String
canonical_seniority_levels = "junior" ∷ "mid" ∷ "senior" ∷ "lead" ∷ "expert" ∷ []

abbrev pub Vocab : Type 0
Vocab = List (String × String)

abbrev solid_jobs_vocab : Vocab
solid_jobs_vocab =
    ("junior", "junior")
    ∷ ("regular", "mid")
    ∷ ("mid", "mid")
    ∷ ("senior", "senior")
    ∷ ("expert", "expert")
    ∷ []

abbrev justjoinit_vocab : Vocab
justjoinit_vocab =
    ("junior", "junior")
    ∷ ("mid", "mid")
    ∷ ("senior", "senior")
    ∷ ("c_level", "lead")
    ∷ ("manager", "lead")
    ∷ []

abbrev nofluffjobs_vocab : Vocab
nofluffjobs_vocab =
    ("trainee", "junior")
    ∷ ("junior", "junior")
    ∷ ("mid", "mid")
    ∷ ("senior", "senior")
    ∷ ("expert", "expert")
    ∷ ("c-level", "lead")
    ∷ []

abbrev bulldogjob_vocab : Vocab
bulldogjob_vocab =
    ("junior", "junior") ∷ ("medium", "mid") ∷ ("senior", "senior") ∷ ("lead", "lead") ∷ []

abbrev pracuj_vocab : Vocab
pracuj_vocab =
    ("praktykant / praktykantka - stażysta / stażystka", "junior")
    ∷ ("asystent / asystentka", "junior")
    ∷ ("młodszy specjalista / młodsza specjalistka (junior)", "junior")
    ∷ ("specjalista / specjalistka (mid / regular)", "mid")
    ∷ ("starszy specjalista / starsza specjalistka (senior)", "senior")
    ∷ ("ekspert / ekspertka", "expert")
    ∷ ("kierownik / kierowniczka - koordynator / koordynatorka", "lead")
    ∷ ("menedżer / menedżerka", "lead")
    ∷ ("dyrektor / dyrektorka", "lead")
    ∷ ("prezes / prezeska", "lead")
    ∷ ("junior specialist (junior)", "junior")
    ∷ ("specialist (mid / regular)", "mid")
    ∷ ("senior specialist (senior)", "senior")
    ∷ ("manager / supervisor", "lead")
    ∷ []

-- `_SENIORITY_VOCAB`
abbrev pub seniority_vocab : List (String × Vocab)
seniority_vocab =
    ("solid_jobs", solid_jobs_vocab)
    ∷ ("justjoinit", justjoinit_vocab)
    ∷ ("nofluffjobs", nofluffjobs_vocab)
    ∷ ("bulldogjob", bulldogjob_vocab)
    ∷ ("pracuj", pracuj_vocab)
    ∷ []

-- `_REMOTE_STRING_VOCAB`
abbrev pub remote_string_vocab : List (String × List (String × Bool))
remote_string_vocab =
    ("justjoinit", ("remote", true) ∷ ("hybrid", false) ∷ ("office", false) ∷ [])
    ∷ ("rocket_jobs", ("telecommute", true) ∷ [])
    ∷ []

-- `int(m / 2^k)`, which drops the fraction.
unfoldable pub truncate : ℤ → ℕ → ℤ
truncate (pos n) k = pos (n / 2 ^ k)
truncate (negsuc n) k = elim (suc n / 2 ^ k) [ zero ↦ pos 0 | suc m ↦ negsuc m ]

-- A `bool` is an `int` too.
unfoldable pub to_int : Value → Option ℤ
unfolding truncate
to_int (int n) = some n
to_int (bool b) = some (pos (if b then 1 else 0))
to_int (float m k) = some (truncate m k)
to_int _ = none

-- The items of a list that are dictionaries.
unfoldable pub dicts : List Value → List Fields
dicts [] = []
dicts (obj d ∷ vs) = d ∷ dicts vs
dicts (_ ∷ vs) = dicts vs

unfoldable pub list_under : Option Value → Option (List Fields)
unfolding dicts
list_under none = none
list_under (some Value.null) = some []
list_under (some (arr items)) = some (dicts (to_list items))
list_under (some _) = none

unfoldable pub extract_envelope_list : Value → String → Bool → Option (List Fields)
unfolding dicts list_under lookup
extract_envelope_list (arr items) key allow_bare_list =
    if allow_bare_list then some (dicts (to_list items)) else none
extract_envelope_list (obj d) key allow_bare_list = list_under (lookup key d)
extract_envelope_list _ key allow_bare_list = none

-- `vocab.get(source_name, {})`
abbrev pub vocab_of {ℓ} :
    {A : Type ℓ} → String → List (String × List (String × A)) → List (String × A)
vocab_of source_name table = get_or (entry source_name table) []

unfoldable pub normalize_remote : String → Value → Bool
unfolding entry strip lower
normalize_remote source_name (bool b) = b
normalize_remote source_name (str s) =
    get_or (entry (lower (strip s)) (vocab_of source_name remote_string_vocab)) false
normalize_remote source_name _ = false

-- The canonical level of one item of the list, if it has one.
unfoldable pub level_of : Vocab → Value → Option String
unfolding entry strip lower is_empty
level_of vocab (str s) = if is_empty (strip s) then none else entry (lower (strip s)) vocab
level_of vocab _ = none

unfoldable pub has_text : String → List String → Bool
unfolding any
has_text text = any (λ other. str_eq other text)

-- `if canonical not in canonical_levels: canonical_levels.append(canonical)`
unfoldable pub add_level : Option String → List String → List String
unfolding has_text
add_level none levels = levels
add_level (some level) levels = if has_text level levels then levels else levels ++ (level ∷ [])

unfoldable pub collect_levels : Vocab → List Value → List String → List String
unfolding level_of add_level
collect_levels vocab [] levels = levels
collect_levels vocab (item ∷ items) levels =
    collect_levels vocab items (add_level (level_of vocab item) levels)

-- `", ".join(parts) if parts else None`
abbrev pub join_some : List String → Option String
join_some [] = none
join_some (part ∷ parts) = some (join ", " (part ∷ parts))

abbrev pub items_of : Value → List Value
items_of (arr items) = to_list items
items_of v = v ∷ []

unfoldable pub normalize_seniority : String → Value → Option String
unfolding collect_levels entry join
normalize_seniority source_name Value.null = none
normalize_seniority source_name v =
    join_some (collect_levels (vocab_of source_name seniority_vocab) (items_of v) [])

-- The currency that `normalize_salary` gives beside the amounts, which it passes on.
unfoldable pub normalize_salary : {A : Type 0} → Host → A → A → Value → A × (A × String)
unfolding truthy str_of strip upper
normalize_salary host salary_min salary_max raw_currency = (
  salary_min,
  (salary_max, if truthy raw_currency then upper (strip (str_of host raw_currency)) else "PLN"),
)
