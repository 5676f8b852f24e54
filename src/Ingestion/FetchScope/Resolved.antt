-- ===== src/Ingestion/FetchScope/Resolved.antt =====
-- A run that is narrowed is refused, or has terms.
use recru_flow.Base.{String, ◌≡◌, Option, none, some, List, [], ◌==◌, is_some, length}
use recru_flow.Data.Json.{Fields}
use recru_flow.Schemas.{Profile, hard_skill_names}
use recru_flow.Db.{Db, ProfileRow}
use recru_flow.Ingestion.FetchScope.{Mode, everything, filtered, FetchScopeResolution}

-- The hard skills of the active profile, where there is one and it can be read.
abbrev pub active_terms : (Fields → Option Profile) → Option ProfileRow → List String
active_terms read_profile none = []
active_terms read_profile (some row) = elim (read_profile row.payload) [
  | none ↦ []
  | some profile ↦ hard_skill_names profile
]

-- What a resolution says of a run, for the terms that the profile has.
abbrev pub Resolves : List String → Mode → Option FetchScopeResolution → Type 0
Resolves terms everything none = ⊥
Resolves terms filtered none = Unit
Resolves terms everything (some scope) =
    (scope.mode ≡ everything) × (scope.terms ≡ []) × (scope.blocked_reason ≡ none)
Resolves terms filtered (some scope) =
    (scope.mode ≡ filtered)
    × (scope.terms ≡ terms)
    × (is_some scope.blocked_reason ≡ (length terms == 0))
