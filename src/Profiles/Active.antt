-- ===== src/Profiles/Active.antt =====
-- An upsert that activates leaves just its own profile active, and no score of a profile outlives an
-- edit of the active data.
use mathlib.Core.Path.{subst}
use recru_flow.Base.{
  ℕ, ◌≡◌, refl, sym, ap, ◌∙◌, inl, inr, Bool, true, false, not, ◌&&◌, Option, none, some, List, [],
  ◌∷◌, map, arith, ◌==◌, if◌then◌else◌, Option-cases, get_or, filter, All,
}
use recru_flow.Data.Json.{Fields}
use recru_flow.Db.{Db, ProfileRow, MatchScoreRow}
use recru_flow.Profiles.{
  get_profile_by_id, activate_profile, invalidate_scores_for_profile, locate, write_profile,
  activate_if, invalidate_if, write_located, upsert_profile,
}

All-map-fn :
    (P : ProfileRow → Type 0) (f : ProfileRow → ProfileRow)
    → ((p : ProfileRow) → P (f p))
    → (rows : List ProfileRow) → All P (map f rows)
All-map-fn P f h [] = tt
All-map-fn P f h (p ∷ rows) = (h p, All-map-fn P f h rows)

filter-filter-not :
    (id : ℕ) (rows : List MatchScoreRow)
    → filter
        (λ (m : MatchScoreRow). m.profile_id == id)
        (filter (λ (m : MatchScoreRow). not (m.profile_id == id)) rows)
      ≡ []
unfolding filter
filter-filter-not id [] = refl
filter-filter-not id (m ∷ rows) = ground (arith, filter-filter-not id rows)

filter-not-again :
    (id : ℕ) (rows : List MatchScoreRow)
    → filter
        (λ (m : MatchScoreRow). not (m.profile_id == id))
        (filter (λ (m : MatchScoreRow). not (m.profile_id == id)) rows)
      ≡ filter (λ (m : MatchScoreRow). not (m.profile_id == id)) rows
unfolding filter
filter-not-again id [] = refl
filter-not-again id (m ∷ rows) = ground (arith, filter-not-again id rows)

abbrev active_flags : List ProfileRow → List Bool
active_flags rows = map (λ (p : ProfileRow). p.is_active) rows

module _ (equal : Fields → Fields → Bool) where
  -- What the upsert of a profile leaves, from the row that it was given and the one it returns.
  pub record IsWritten (activate : Bool) (payload : Fields) (located : ProfileRow × Db)
      (out : ProfileRow × Db) : Type 0 where
    -- An activation leaves just this profile active; without one no flag changes.
    pub only_active :
        activate ≡ true
        → All (λ (p : ProfileRow). p.is_active ≡ (p.id == located.0.id)) out.1.profiles
    pub same_active :
        activate ≡ false
        → map (λ (p : ProfileRow). p.is_active) out.1.profiles
          ≡ map (λ (p : ProfileRow). p.is_active) located.1.profiles
    -- The scores of the active profile go with its old data, and no others.
    pub stale :
        out.0.is_active ≡ true
        → equal located.0.payload payload ≡ false
        → filter (λ (m : MatchScoreRow). m.profile_id == located.0.id) out.1.match_scores ≡ []
    pub fresh : equal located.0.payload payload ≡ true → out.1.match_scores ≡ located.1.match_scores
    pub others :
        filter (λ (m : MatchScoreRow). not (m.profile_id == located.0.id)) out.1.match_scores
        ≡ filter (λ (m : MatchScoreRow). not (m.profile_id == located.0.id)) located.1.match_scores

  active_flags-write :
      (payload : Fields) (activate : Bool) (id : ℕ) (rows : List ProfileRow)
      → active_flags (
          map
            (λ (p : ProfileRow).
              if p.id == id
              then record p { payload = payload; status = if activate then "active" else p.status }
              else p)
            rows)
        ≡ active_flags rows
  active_flags-write payload activate id [] = refl
  active_flags-write payload activate id (p ∷ rows) =
      ground (arith, active_flags-write payload activate id rows)

  invalidate_if-profiles :
      (stale : Bool) (id : ℕ) (db : Db) → (invalidate_if equal stale id db).profiles ≡ db.profiles
  unfolding invalidate_if invalidate_scores_for_profile
  invalidate_if-profiles true id db = refl
  invalidate_if-profiles false id db = refl

  invalidate_if-others :
      (stale : Bool) (id : ℕ) (db : Db)
      → filter
          (λ (m : MatchScoreRow). not (m.profile_id == id))
          (invalidate_if equal stale id db).match_scores
        ≡ filter (λ (m : MatchScoreRow). not (m.profile_id == id)) db.match_scores
  unfolding invalidate_if invalidate_scores_for_profile
  invalidate_if-others true id db = filter-not-again id db.match_scores
  invalidate_if-others false id db = refl

  activate_if-scores :
      (activate : Bool) (id : ℕ) (db : Db)
      → (activate_if equal activate id db).match_scores ≡ db.match_scores
  unfolding activate_if activate_profile
  activate_if-scores true id db = refl
  activate_if-scores false id db = refl

  activate_if-only :
      (activate : Bool) (id : ℕ) (db : Db)
      → activate ≡ true
      → All
          (λ (p : ProfileRow). p.is_active ≡ (p.id == id))
          (activate_if equal activate id db).profiles
  unfolding activate_if activate_profile
  activate_if-only true id db on = All-map-fn _ _ (λ p. refl) db.profiles
  activate_if-only false id db on = absurd (ground (arith, on))

  activate_if-same :
      (activate : Bool) (id : ℕ) (db : Db)
      → activate ≡ false
      → (activate_if equal activate id db).profiles ≡ db.profiles
  unfolding activate_if
  activate_if-same true id db off = absurd (ground (arith, off))
  activate_if-same false id db off = refl

  invalidate_if-gone :
      (stale : Bool) (id : ℕ) (db : Db)
      → stale ≡ true
      → filter
          (λ (m : MatchScoreRow). m.profile_id == id)
          (invalidate_if equal stale id db).match_scores
        ≡ []
  unfolding invalidate_if invalidate_scores_for_profile
  invalidate_if-gone true id db is_stale = filter-filter-not id db.match_scores
  invalidate_if-gone false id db is_stale = absurd (ground (arith, is_stale))

  invalidate_if-kept :
      (stale : Bool) (id : ℕ) (db : Db)
      → stale ≡ false
      → (invalidate_if equal stale id db).match_scores ≡ db.match_scores
  unfolding invalidate_if
  invalidate_if-kept true id db kept = absurd (ground (arith, kept))
  invalidate_if-kept false id db kept = refl

  write_located-IsWritten :
      (payload : Fields) (activate : Bool) (located : ProfileRow × Db)
      → IsWritten activate payload located (write_located equal payload activate located)
  unfolding write_located write_profile
  write_located-IsWritten payload activate (row, db) =
      let written = write_profile equal payload activate row.id db in
      let db' = activate_if equal activate row.id written in
      let refreshed = get_or (get_profile_by_id row.id db') row in
      let stale = refreshed.is_active && not (equal row.payload payload) in
      record {
        only_active = λ on.
            subst (All (λ (p : ProfileRow). p.is_active ≡ (p.id == row.id)))
              (sym (invalidate_if-profiles stale row.id db'))
              (activate_if-only activate row.id written on);
        same_active = λ off.
            ap active_flags (invalidate_if-profiles stale row.id db')
            ∙ ap active_flags (activate_if-same activate row.id written off)
            ∙ active_flags-write payload activate row.id db.profiles;
        stale =
            λ active differs. invalidate_if-gone stale row.id db' (ground (arith, active, differs));
        fresh = λ same.
            invalidate_if-kept stale row.id db' (ground (arith, same))
            ∙ activate_if-scores activate row.id written;
        others =
            invalidate_if-others stale row.id db'
            ∙ ap (filter (λ (m : MatchScoreRow). not (m.profile_id == row.id)))
                (activate_if-scores activate row.id written);
      }

  -- The row that was found and the result of the upsert, where there is one.
  abbrev pub Upserted : Bool → Fields → Option (ProfileRow × Db) → Option (ProfileRow × Db) → Type 0
  Upserted activate payload none none = Unit
  Upserted activate payload (some located) (some out) = IsWritten activate payload located out
  Upserted activate payload _ _ = ⊥

  -- An upsert fails only where its profile is not found. Where it activates, the profile that it wrote
  -- is the only active one, else no flag changes; if the profile is active and its data is new then
  -- none of its scores is left; and the scores of every other profile stay.
  pub upsert_profile-Upserted :
      (payload : Fields) (profile_id : Option ℕ) (activate : Bool) (db : Db)
      → Upserted activate payload
          (locate profile_id activate db)
          (upsert_profile equal payload profile_id activate db)
  unfolding upsert_profile
  upsert_profile-Upserted payload profile_id activate db =
      elim (Option-cases (locate profile_id activate db)) [
        | inl missing ↦ rw (missing, upsert_profile) tt
        | inr (located, found) ↦
            rw (found, upsert_profile) (write_located-IsWritten payload activate located)
      ]
