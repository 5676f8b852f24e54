-- ===== src/Connectors/Boards/Mapped.antt =====
-- What every connector's `map_offer` gives.
use recru_flow.Base.{
  ℕ, String, ◌≡◌, refl, sym, ap, ◌∙◌, inl, inr, Bool, true, false, Option, none, some, List, arith,
  Bool-cases, All,
}
use recru_flow.Base.Int.{pos}
use recru_flow.Data.Text.{join}
use recru_flow.Data.Json.{Value, str, int, bool, Fields, end, lookup, get, truthy}
use recru_flow.Ingestion.Normalize.{Vocab, vocab_of, seniority_vocab, items_of, normalize_seniority}
use recru_flow.Ingestion.Normalize.Distinct.{is_level}
use recru_flow.Ingestion.Normalize.Levels.{Seniority, normalize_seniority-Seniority}
use recru_flow.Connectors.Payload.{either, text_or_null, Mapped, mapped_with, mapped}

-- A text that joins canonical levels, or none.
abbrev pub IsLevels : Option String → Type 0
IsLevels none = Unit
IsLevels (some text) =
    (levels : List String) × (text ≡ join ", " levels) × All (λ l. is_level l ≡ true) levels

-- What the rest of the program may rely on in a mapped offer.
pub record IsMapped (source_id : ℕ) (d : Fields) : Type 0 where
  pub source : get "source_id" d ≡ int (pos source_id)
  pub title : ¬ (get "title" d ≡ Value.null)
  pub company : ¬ (get "company" d ≡ Value.null)
  pub remote : Bool
  pub remote_given : get "remote" d ≡ bool remote
  pub seniority : Option String
  pub seniority_given : get "seniority" d ≡ text_or_null seniority
  pub levels : IsLevels seniority
  pub currency : String
  pub currency_given : get "salary_currency" d ≡ str currency

pub mapped_with-IsMapped :
    (source_id : ℕ) (m : Mapped) (more : Fields)
    → ¬ (m.title ≡ Value.null)
    → ¬ (m.company ≡ Value.null)
    → IsLevels m.seniority
    → IsMapped source_id (mapped_with source_id m more)
unfolding mapped_with get lookup
mapped_with-IsMapped source_id m more titled named levels = record {
  source = refl;
  title = titled;
  company = named;
  remote = m.remote;
  remote_given = refl;
  seniority = m.seniority;
  seniority_given = refl;
  levels = levels;
  currency = m.salary.1.1;
  currency_given = refl;
}

pub mapped-IsMapped :
    (source_id : ℕ) (m : Mapped)
    → ¬ (m.title ≡ Value.null)
    → ¬ (m.company ≡ Value.null)
    → IsLevels m.seniority
    → IsMapped source_id (mapped source_id m)
unfolding mapped
mapped-IsMapped source_id m titled named levels =
    mapped_with-IsMapped source_id m end titled named levels

-- `value or ""` is not null.
pub either-text : (v : Value) → ¬ (either v (str "") ≡ Value.null)
unfolding either truthy
either-text v h = elim (Bool-cases (truthy v)) [
  | inl full ↦
      let e : either v (str "") ≡ v = rw (full, either) refl in
      let off : true ≡ false = sym full ∙ ap truthy (sym e ∙ h) in absurd (ground (arith, off))
  | inr empty ↦
      let e : either v (str "") ≡ str "" = rw (empty, either) refl in
      let null_text : str "" ≡ Value.null = sym e ∙ h in absurd (ground (arith, null_text))
]

pub text-ne-null : (s : String) → ¬ (str s ≡ Value.null)
text-ne-null s h = cc

levels_of :
    (vocab : Vocab) (items : List Value) (o : Option String) → Seniority vocab items o → IsLevels o
levels_of vocab items none h = tt
levels_of vocab items (some text) (levels, e, h) = (levels, e, h.canonical)

pub seniority_levels :
    (source_name : String) (v : Value) → IsLevels (normalize_seniority source_name v)
seniority_levels source_name v =
    levels_of (vocab_of source_name seniority_vocab) (items_of v) _
      (normalize_seniority-Seniority source_name v)

-- What is known of a result that is there.
abbrev pub MapsOf : ℕ → Option Fields → Type 0
MapsOf source_id none = Unit
MapsOf source_id (some d) = IsMapped source_id d
