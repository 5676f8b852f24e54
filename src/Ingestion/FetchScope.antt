-- ===== src/Ingestion/FetchScope.antt =====
-- app/ingestion/fetch_scope.py: which terms a run is narrowed to.
pub mod Resolved
use recru_flow.Base.{
  ℕ, zero, suc, ◌+◌, ◌-◌, ◌*◌, ◌/◌, ◌%◌, ◌≤◌, ◌<◌, min, max, String, ◌<>◌, ◌≡◌, refl, sym, ap, ◌∙◌,
  ◌≢◌, ◌↔◌, ◌⊎◌, inl, inr, Bool, true, false, not, ◌&&◌, ◌||◌, Option, none, some, List, [], ◌∷◌,
  ◌++◌, map, foldl, append-nil, append_assoc, arith, str_eq, eq_iff, eq_refl, ltb, leb, ◌==◌,
  if◌then◌else◌, ltb→lt, lt→ltb, leb→le, le→leb, ==_iff, tests, Bool-cases, Option-cases, is_none,
  is_some, get_or, or_else, length, get_elem?, take, drop, filter, any, all, find, All,
  length-append, length-take, length-drop, take-append-drop, length-filter-le, any-append,
  filter-append, All-append, All-map, All-filter, length-filter-not, length-map,
}
use recru_flow.Data.Json.{Value, obj, as_str, Fields, get}
use recru_flow.Schemas.{Profile, hard_skill_names}
use recru_flow.Db.{Db, ProfileRow}
use recru_flow.Profiles.{get_active_profile}

pub data Mode : Type 0 where
  everything : Mode
  filtered : Mode

pub record FetchScopeResolution : Type 0 where
  pub mode : Mode
  pub terms : List String
  pub blocked_reason : Option String

-- A shape that is not recognised is read as `FETCH_SCOPE_ALL`.
unfoldable pub resolve_fetch_scope_mode : Value → Mode
unfolding get
resolve_fetch_scope_mode (obj fetch_scope) =
    if str_eq (get_or (as_str (get "mode" fetch_scope)) "") "filtered" then filtered else everything
resolve_fetch_scope_mode _ = everything

abbrev unrestricted : FetchScopeResolution
unrestricted = record { mode = everything; terms = []; blocked_reason = none }

abbrev refused : String → FetchScopeResolution
refused reason = record { mode = filtered; terms = []; blocked_reason = some reason }

unfoldable pub narrowed_to : List String → FetchScopeResolution
narrowed_to [] =
    refused "fetch scope is 'filtered' but the active profile has no starred (hard) skills"
narrowed_to (term ∷ terms) = record { mode = filtered; terms = term ∷ terms; blocked_reason = none }

unfoldable pub resolve_fetch_scope : Mode → Option Profile → FetchScopeResolution
unfolding narrowed_to hard_skill_names
resolve_fetch_scope everything profile = unrestricted
resolve_fetch_scope filtered none = refused "fetch scope is 'filtered' but no active profile is set"
resolve_fetch_scope filtered (some profile) = narrowed_to (hard_skill_names profile)

-- `Profile(**profile_row.data)` of the active profile, which may raise.
module _ (read_profile : Fields → Option Profile) where
  unfoldable pub resolve_for : Option ProfileRow → Option FetchScopeResolution
  unfolding resolve_fetch_scope
  resolve_for none = some (resolve_fetch_scope filtered none)
  resolve_for (some row) = elim (read_profile row.payload) [
    | none ↦ none
    | some profile ↦ some (resolve_fetch_scope filtered (some profile))
  ]

  -- `none` where the validation of the profile raises.
  unfoldable pub resolve_fetch_scope_terms : Fields → Db → Option FetchScopeResolution
  unfolding resolve_fetch_scope_mode resolve_for get_active_profile get
  resolve_fetch_scope_terms config db = elim (resolve_fetch_scope_mode (get "fetch_scope" config)) [
    | everything ↦ some unrestricted
    | filtered ↦ resolve_for (get_active_profile db)
  ]
