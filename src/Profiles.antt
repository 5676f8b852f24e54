-- ===== src/Profiles.antt =====
-- app/db/profile_repo.py: the profiles, of which one is active, and the scores that an edit makes stale.
-- The data of a profile is the dictionary that its dump gives.
pub mod Active
use recru_flow.Base.{
  ℕ, zero, suc, ◌+◌, ◌-◌, ◌*◌, ◌/◌, ◌%◌, ◌≤◌, ◌<◌, min, max, String, ◌<>◌, ◌≡◌, refl, sym, ap, ◌∙◌,
  ◌≢◌, ◌↔◌, ◌⊎◌, inl, inr, Bool, true, false, not, ◌&&◌, ◌||◌, Option, none, some, List, [], ◌∷◌,
  ◌++◌, map, foldl, append-nil, append_assoc, arith, str_eq, eq_iff, eq_refl, ltb, leb, ◌==◌,
  if◌then◌else◌, ltb→lt, lt→ltb, leb→le, le→leb, ==_iff, tests, Bool-cases, Option-cases, is_none,
  is_some, get_or, or_else, length, get_elem?, take, drop, filter, any, all, find, All,
  length-append, length-take, length-drop, take-append-drop, length-filter-le, any-append,
  filter-append, All-append, All-map, All-filter, length-filter-not, length-map,
}
use recru_flow.Data.Json.{Fields, end}
use recru_flow.Db.{Db, ProfileRow, MatchScoreRow}

abbrev pub default_profile_name : String
default_profile_name = "active-profile"

unfoldable pub get_active_profile : Db → Option ProfileRow
unfolding find
get_active_profile db = find (λ (p : ProfileRow). p.is_active) db.profiles

unfoldable pub get_profile_by_id : ℕ → Db → Option ProfileRow
unfolding find
get_profile_by_id id db = find (λ (p : ProfileRow). p.id == id) db.profiles

unfoldable pub find_by_name : String → Db → Option ProfileRow
unfolding find
find_by_name name db = find (λ (p : ProfileRow). str_eq p.name name) db.profiles

-- The two `UPDATE`s: every other profile off, this one on.
unfoldable pub activate_profile : ℕ → Db → Db
activate_profile id db = record db {
  profiles = map (λ (p : ProfileRow). record p { is_active = p.id == id }) db.profiles;
}

unfoldable pub invalidate_scores_for_profile : ℕ → Db → Db
unfolding filter
invalidate_scores_for_profile id db = record db {
  match_scores = filter (λ (m : MatchScoreRow). not (m.profile_id == id)) db.match_scores;
}

unfoldable pub new_profile : String → String → Fields → Db → ProfileRow × Db
new_profile name status payload db =
    let row : ProfileRow = record {
      id = db.next_id;
      name = name;
      status = status;
      is_active = false;
      payload = payload;
    } in
    (row, record db { profiles = db.profiles ++ (row ∷ []); next_id = db.next_id + 1 })

-- The row that an upsert writes: the named one, else the active one, else the one of the default name,
-- else a new one. `none` is `ProfileNotFoundError`.
unfoldable pub locate : Option ℕ → Bool → Db → Option (ProfileRow × Db)
unfolding get_profile_by_id get_active_profile find_by_name new_profile
locate (some id) activate db = elim (get_profile_by_id id db) [
  | none ↦ none
  | some row ↦ some (row, db)
]
locate none activate db =
    elim (or_else (get_active_profile db) (find_by_name default_profile_name db)) [
      | some row ↦ some (row, db)
      | none ↦
          some (new_profile default_profile_name (if activate then "active" else "draft") end db)
    ]

-- `equal` is Python's `==` of two dictionaries.
module _ (equal : Fields → Fields → Bool) where
  unfoldable pub write_profile : Fields → Bool → ℕ → Db → Db
  write_profile payload activate id db = record db {
    profiles =
        map
          (λ (p : ProfileRow).
            if p.id == id
            then record p { payload = payload; status = if activate then "active" else p.status }
            else p)
          db.profiles;
  }

  unfoldable pub activate_if : Bool → ℕ → Db → Db
  unfolding activate_profile
  activate_if activate id db = if activate then activate_profile id db else db

  unfoldable pub invalidate_if : Bool → ℕ → Db → Db
  unfolding invalidate_scores_for_profile
  invalidate_if stale id db = if stale then invalidate_scores_for_profile id db else db

  -- The body of `upsert_profile` below its search: the row is written, activated, read again, and its
  -- scores go if it is active and its data is new.
  unfoldable pub write_located : Fields → Bool → ProfileRow × Db → ProfileRow × Db
  unfolding write_profile activate_if get_profile_by_id invalidate_if
  write_located payload activate (row, db) =
      let db' = activate_if activate row.id (write_profile payload activate row.id db) in
      let refreshed = get_or (get_profile_by_id row.id db') row in
      (refreshed, invalidate_if (refreshed.is_active && not (equal row.payload payload)) row.id db')

  unfoldable pub upsert_profile : Fields → Option ℕ → Bool → Db → Option (ProfileRow × Db)
  unfolding locate write_located
  upsert_profile payload profile_id activate db = elim (locate profile_id activate db) [
    | none ↦ none
    | some located ↦ some (write_located payload activate located)
  ]

  unfoldable pub upsert_active_profile : Fields → Db → Option (ProfileRow × Db)
  unfolding upsert_profile
  upsert_active_profile payload = upsert_profile payload none true

-- `create_draft_profile`; the name has a random part.
unfoldable pub create_draft_profile : String → Fields → Db → ProfileRow × Db
unfolding new_profile
create_draft_profile uuid payload = new_profile ("draft-" <> uuid) "draft" payload
