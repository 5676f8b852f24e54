-- ===== src/Scoring/Selection.antt =====
-- app/scoring/batch.py: which offers a batch scores, and in which order.
pub mod Page
use recru_flow.Base.{
  ℕ, zero, suc, ◌+◌, ◌-◌, ◌*◌, ◌/◌, ◌%◌, ◌≤◌, ◌<◌, min, max, String, ◌<>◌, ◌≡◌, refl, sym, ap, ◌∙◌,
  ◌≢◌, ◌↔◌, ◌⊎◌, inl, inr, Bool, true, false, not, ◌&&◌, ◌||◌, Option, none, some, List, [], ◌∷◌,
  ◌++◌, map, foldl, append-nil, append_assoc, arith, str_eq, eq_iff, eq_refl, ltb, leb, ◌==◌,
  if◌then◌else◌, ltb→lt, lt→ltb, leb→le, le→leb, ==_iff, tests, Bool-cases, Option-cases, is_none,
  is_some, get_or, or_else, length, get_elem?, take, drop, filter, any, all, find, All,
  length-append, length-take, length-drop, take-append-drop, length-filter-le, any-append,
  filter-append, All-append, All-map, All-filter, length-filter-not, length-map,
}
use recru_flow.Base.Int.{ℤ, pos, to_ℕ}
use recru_flow.Data.Json.{get}
use recru_flow.Db.{Db, OfferRow, Source, ProfileRow, MatchScoreRow, ScoringFailure}
use recru_flow.Profiles.{get_active_profile}
use recru_flow.Ingestion.Persist.{Host}
use recru_flow.Ingestion.Runner.{Moment, resolve_fetch_range, before_since, after_until, clashes}

-- The row of the offers table with the source that it belongs to.
abbrev pub Candidate : Type 0
Candidate = OfferRow × Source

-- `Offer.id` is in `select(MatchScore.offer_id).where(profile_id == ...)`.
unfoldable pub already_scored : ℕ → Db → ℕ → Bool
unfolding any
already_scored profile_id db offer_id =
    any (λ (m : MatchScoreRow). m.profile_id == profile_id && m.offer_id == offer_id)
      db.match_scores

-- `Offer.id` is in `_open_scoring_failures(profile_id)`.
unfoldable pub has_open_failure : ℕ → Db → ℕ → Bool
unfolding any
has_open_failure profile_id db offer_id =
    any
      (λ (f : ScoringFailure).
        f.profile_id == profile_id && str_eq f.status "open" && f.offer_id == offer_id)
      db.scoring_failures

-- `Source.connector.in_(connectors)`
abbrev pub in_scope : List String → Source → Bool
in_scope connectors source = elim source.connector [
  | none ↦ false
  | some name ↦ any (λ c. str_eq c name) connectors
]

-- The `WHERE` of the scan.
unfoldable pub is_candidate : ℕ → List String → Db → Candidate → Bool
unfolding already_scored has_open_failure any
is_candidate profile_id connectors db (row, source) =
    in_scope connectors source
    && not (already_scored profile_id db row.id)
    && not (has_open_failure profile_id db row.id)

-- `JOIN ... ON Offer.source_id == Source.id`: an id has one source.
unfoldable pub join_sources : List Source → List OfferRow → List Candidate
unfolding find
join_sources sources [] = []
join_sources sources (row ∷ rows) =
    elim (find (λ (s : Source). s.id == to_ℕ row.offer.source_id) sources) [
      | none ↦ join_sources sources rows
      | some source ↦ (row, source) ∷ join_sources sources rows
    ]

-- `ORDER BY posted_at DESC NULLS LAST, created_at DESC, id DESC`
abbrev newer_created : OfferRow → OfferRow → Bool
newer_created a b = ltb b.created_at a.created_at || (a.created_at == b.created_at && leb b.id a.id)

abbrev newer_posted : Option ℕ → Option ℕ → Bool → Bool
newer_posted none none rest = rest
newer_posted (some a) none rest = true
newer_posted none (some b) rest = false
newer_posted (some a) (some b) rest = ltb b a || (a == b && rest)

unfoldable pub is_newer : Candidate → Candidate → Bool
is_newer (a, _) (b, _) = newer_posted a.offer.posted_at b.offer.posted_at (newer_created a b)

unfoldable pub place : Candidate → List Candidate → List Candidate
unfolding is_newer
place c [] = c ∷ []
place c (d ∷ ds) = if is_newer c d then c ∷ d ∷ ds else d ∷ place c ds

unfoldable pub newest_first : List Candidate → List Candidate
unfolding place
newest_first [] = []
newest_first (c ∷ cs) = place c (newest_first cs)

-- `_candidate_scan_stmt`
unfoldable pub candidate_scan : ℕ → List String → Db → List Candidate
unfolding newest_first filter is_candidate join_sources
candidate_scan profile_id connectors db =
    newest_first
      (filter (is_candidate profile_id connectors db) (join_sources db.sources db.offers))

module _ (host : Host) where
  -- A comparison of an aware date with the range raises, as in the runner: the date is held against
  -- `until` only if it is not before `since`.
  unfoldable pub range_clashes : Option Moment → Option Moment → ℕ → Bool
  range_clashes since until date =
      clashes since false || (not (before_since since date) && clashes until false)

  -- The dates of a row and of the clock are aware; none is an exception.
  unfoldable pub in_range_at : Option Moment → Option Moment → ℕ → Option Bool
  unfolding range_clashes
  in_range_at since until date =
      if range_clashes since until date
      then none
      else some (not (before_since since date) && not (after_until until date))

  -- `_in_fetch_range`, with the readings of the clock: an undated offer is dated now.
  unfoldable pub in_fetch_range : Candidate → ℕ → Option Bool × ℕ
  unfolding resolve_fetch_range get in_range_at
  in_fetch_range (row, source) reads =
      let (since, until) = resolve_fetch_range host (get "fetch_range" source.config_json) in
      if is_none since && is_none until then (some true, reads) else elim row.offer.posted_at [
        | none ↦ (in_range_at since until (host.clock reads), reads + 1)
        | some date ↦ (in_range_at since until date, reads)
      ]

  -- One row of the filter, before the rows that are kept of the others.
  unfoldable pub keep : Candidate → Option Bool → Option (List Candidate) → Option (List Candidate)
  keep c none rest = none
  keep c (some fits) none = none
  keep c (some true) (some kept) = some (c ∷ kept)
  keep c (some false) (some kept) = some kept

  unfoldable pub filter_in_range : List Candidate → ℕ → Option (List Candidate) × ℕ
  unfolding in_fetch_range keep
  filter_in_range [] reads = (some [], reads)
  filter_in_range (c ∷ cs) reads =
      let (fits, reads') = in_fetch_range c reads in
      let (kept, reads'') = filter_in_range cs reads' in
      (keep c fits kept, if is_none fits then reads' else reads'')

  -- `select_scoring_candidates`: the page, and how many there are, or none for an exception. The second
  -- query reads the rows of the page again, and finds them as they are.
  unfoldable pub select_scoring_candidates :
      ℕ → List String → ℕ → Db → Option (List Candidate × ℕ) × Db
  unfolding filter_in_range candidate_scan take
  select_scoring_candidates profile_id connectors limit db =
      let (in_range, reads) = filter_in_range (candidate_scan profile_id connectors db) db.reads in
      (
        elim in_range [ none ↦ none | some rows ↦ some (take limit rows, length rows) ],
        record db { reads = reads },
      )

  -- `count_unscored_backlog`, with the default scope passed in.
  unfoldable pub count_unscored_backlog : List String → Db → Option ℕ × Db
  unfolding get_active_profile select_scoring_candidates
  count_unscored_backlog connectors db = elim (get_active_profile db) [
    | none ↦ (some 0, db)
    | some profile ↦
        let (selection, db') = select_scoring_candidates profile.id connectors 0 db in
        (elim selection [ none ↦ none | some (_, total) ↦ some total ], db')
  ]
