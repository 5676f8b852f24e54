-- ===== src/Scoring/Selection/Page.antt =====
-- What a page of candidates holds: only candidates, and no more than the limit.
use recru_flow.Base.{
  ℕ, zero, suc, min, String, ◌≡◌, inl, inr, Bool, true, false, Option, none, some, List, [], ◌∷◌,
  Bool-cases, length, take, filter, All, length-take, All-filter,
}
use recru_flow.Db.{Db}
use recru_flow.Ingestion.Persist.{Host}
use recru_flow.Scoring.Selection.{
  Candidate, is_candidate, is_newer, place, newest_first, candidate_scan, in_fetch_range, keep,
  filter_in_range, join_sources, select_scoring_candidates,
}

module _ (P : Candidate → Type 0) where
  All-place : (c : Candidate) (cs : List Candidate) → P c → All P cs → All P (place c cs)
  unfolding place
  All-place c [] h k = (h, tt)
  All-place c (d ∷ ds) h k = elim (Bool-cases (is_newer c d)) [
    | inl newer ↦ rw newer (h, k)
    | inr older ↦ rw older (k.0, All-place c ds h k.1)
  ]

  All-newest_first : (cs : List Candidate) → All P cs → All P (newest_first cs)
  unfolding newest_first
  All-newest_first [] h = tt
  All-newest_first (c ∷ cs) h = All-place c (newest_first cs) h.0 (All-newest_first cs h.1)

  All-take : (n : ℕ) (cs : List Candidate) → All P cs → All P (take n cs)
  unfolding take
  All-take zero cs h = tt
  All-take (suc n) [] h = tt
  All-take (suc n) (c ∷ cs) h = (h.0, All-take n cs h.1)

  AllIf : Option (List Candidate) → Type 0
  AllIf none = Unit
  AllIf (some cs) = All P cs

  AllIf-keep :
      (host : Host) (c : Candidate) (fits : Option Bool) (kept : Option (List Candidate))
      → P c
      → AllIf kept
      → AllIf (keep host c fits kept)
  unfolding keep AllIf
  AllIf-keep host c none kept h k = tt
  AllIf-keep host c (some true) none h k = tt
  AllIf-keep host c (some false) none h k = tt
  AllIf-keep host c (some true) (some cs) h k = (h, k)
  AllIf-keep host c (some false) (some cs) h k = k

  AllIf-filter_in_range :
      (host : Host) (cs : List Candidate) (reads : ℕ)
      → All P cs
      → AllIf (filter_in_range host cs reads).0
  unfolding filter_in_range AllIf
  AllIf-filter_in_range host [] reads h = tt
  AllIf-filter_in_range host (c ∷ cs) reads h =
      AllIf-keep host c (in_fetch_range host c reads).0 _ h.0
        (AllIf-filter_in_range host cs (in_fetch_range host c reads).1 h.1)

-- The page that is selected for a profile, against the number of candidates that is reported.
pub record IsPage (profile_id : ℕ) (connectors : List String) (limit : ℕ) (db : Db)
    (selection : List Candidate × ℕ) : Type 0 where
  pub counted : length selection.0 ≡ min limit selection.1
  pub only_candidates : All (λ c. is_candidate profile_id connectors db c ≡ true) selection.0

abbrev pub PageIf : ℕ → List String → ℕ → Db → Option (List Candidate × ℕ) → Type 0
PageIf profile_id connectors limit db none = Unit
PageIf profile_id connectors limit db (some selection) =
    IsPage profile_id connectors limit db selection

module _ (profile_id : ℕ) (connectors : List String) (limit : ℕ) (db : Db) where
  page-PageIf :
      (rows : Option (List Candidate))
      → AllIf (λ c. is_candidate profile_id connectors db c ≡ true) rows
      → PageIf profile_id connectors limit db
          (elim rows [ none ↦ none | some cs ↦ some (take limit cs, length cs) ])
  unfolding AllIf
  page-PageIf none h = tt
  page-PageIf (some cs) h = record {
    counted = length-take limit cs;
    only_candidates = All-take (λ c. is_candidate profile_id connectors db c ≡ true) limit cs h;
  }

  -- A page holds as many rows as the limit and the total allow, and each is a candidate.
  pub select_scoring_candidates-PageIf :
      (host : Host)
      → PageIf profile_id connectors limit db
          (select_scoring_candidates host profile_id connectors limit db).0
  unfolding select_scoring_candidates candidate_scan
  select_scoring_candidates-PageIf host =
      let candidates =
        filter (is_candidate profile_id connectors db) (join_sources db.sources db.offers) in
      let P : Candidate → Type 0 = λ c. is_candidate profile_id connectors db c ≡ true in
      page-PageIf (filter_in_range host (newest_first candidates) db.reads).0 (
        AllIf-filter_in_range P host (newest_first candidates) db.reads (
          All-newest_first P candidates (
            All-filter (is_candidate profile_id connectors db)
              (join_sources db.sources db.offers))))
