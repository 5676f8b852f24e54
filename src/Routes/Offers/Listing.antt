-- ===== src/Routes/Offers/Listing.antt =====
-- `list_offers`: the offers that pass the filters, sorted, one page of them.
pub mod Sorted
pub mod Pages
use recru_flow.Base.{
  same_bool, ℕ, zero, suc, ◌+◌, ◌-◌, ◌*◌, ◌/◌, ◌%◌, ◌≤◌, ◌<◌, min, max, String, ◌<>◌, ◌≡◌, refl,
  sym, ap, ◌∙◌, ◌≢◌, ◌↔◌, ◌⊎◌, inl, inr, Bool, true, false, not, ◌&&◌, ◌||◌, Option, none, some,
  List, [], ◌∷◌, ◌++◌, map, foldl, append-nil, append_assoc, arith, str_eq, eq_iff, eq_refl, ltb,
  leb, ◌==◌, if◌then◌else◌, ltb→lt, lt→ltb, leb→le, le→leb, ==_iff, tests, Bool-cases, Option-cases,
  is_none, is_some, get_or, or_else, length, get_elem?, take, drop, filter, any, all, find, All,
  length-append, length-take, length-drop, take-append-drop, length-filter-le, any-append,
  filter-append, All-append, All-map, All-filter, length-filter-not, length-map,
}
use recru_flow.Base.Int.{ℤ, pos, negsuc, leb_ℤ}
use recru_flow.Db.{Db, OfferRow, Source, MatchScoreRow, ProfileRow}
use recru_flow.Profiles.{get_active_profile}
use recru_flow.Scoring.Selection.{Candidate, join_sources}
use recru_flow.Routes.Offers.View.{
  OfferSummary, offer_summary, source_label, newest_score, percent_of,
}

pub data OrderBy : Type 0 where
  posted_at : OrderBy
  score_percent : OrderBy

pub data Order : Type 0 where
  asc : Order
  desc : Order

-- The query parameters, once FastAPI has read them.
pub record Query : Type 0 where
  pub source : Option String
  pub remote : Option Bool
  pub seniority : Option String
  pub min_salary : Option ℕ
  pub min_score : Option ℕ
  pub applied : Option Bool
  pub show_hidden : Bool
  pub order_by : OrderBy
  pub order : Order
  pub limit : ℕ
  pub offset : ℕ

pub record OfferListResponse : Type 0 where
  pub items : List OfferSummary
  pub total : ℕ

-- The row of the join: the offer, its source, and the percentage of its latest score.
abbrev pub Listed : Type 0
Listed = Candidate × Option ℕ

abbrev no_active_profile_id : ℤ
no_active_profile_id = negsuc 0

abbrev is_profile : ℤ → ℕ → Bool
is_profile (pos id) profile_id = profile_id == id
is_profile (negsuc n) profile_id = false

abbrev active_profile_id : Option ProfileRow → ℤ
active_profile_id none = no_active_profile_id
active_profile_id (some profile) = pos profile.id

-- `latest_score`: the row of rank 1 by `created_at` in the partition of the offer.
unfoldable pub latest_score : Db → ℕ → Option ℕ
unfolding newest_score filter get_active_profile
latest_score db offer_id = percent_of (
    newest_score (
      filter
        (λ (m : MatchScoreRow).
          is_profile (active_profile_id (get_active_profile db)) m.profile_id
          && m.offer_id == offer_id)
        db.match_scores))

-- The join with the sources, and the outer join with the latest scores.
unfoldable pub joined : Db → List Listed
unfolding join_sources latest_score
joined db = map (λ (c : Candidate). (c, latest_score db c.0.id)) (join_sources db.sources db.offers)

-- `column >= bound`, which a null fails.
abbrev at_least : ℕ → Option ℤ → Bool
at_least bound none = false
at_least bound (some n) = leb_ℤ (pos bound) n

abbrev is_source : String → Option String → Bool
is_source name none = false
is_source name (some connector) = str_eq connector name

abbrev meets_score : ℕ → Option ℕ → Bool
meets_score bound none = false
meets_score bound (some percent) = leb bound percent

-- A condition that stands only where its parameter is given.
abbrev pub where_given {ℓ} : {A : Type ℓ} → Option A → (A → Bool) → Bool
where_given none test = true
where_given (some a) test = test a

-- `ilike text pattern` is the operator of the database.
module _ (ilike : String → String → Bool) where
  abbrev has_level : String → Option String → Bool
  has_level level none = false
  has_level level (some text) = ilike text ("%" <> (level <> "%"))

  unfoldable pub passes : Query → Listed → Bool
  passes q ((row, source), percent) =
      where_given q.source (λ name. is_source name source.connector)
      && where_given q.remote (λ remote. same_bool row.offer.remote remote)
      && where_given q.seniority (λ level. has_level level row.offer.seniority)
      && where_given q.min_salary (λ bound.
        at_least bound row.offer.salary_max
        || (is_none row.offer.salary_max && at_least bound row.offer.salary_min))
      && where_given q.min_score (λ bound. meets_score bound percent)
      && where_given q.applied (λ applied. same_bool row.applied applied)
      && (q.show_hidden || not row.hide)

  unfoldable pub matching : Query → Db → List Listed
  unfolding filter passes joined
  matching q db = filter (passes q) (joined db)

-- One clause of an `ORDER BY`: a column with its direction, and nulls last.
pub record Clause : Type 0 where
  pub column : Listed → Option ℕ
  pub order : Order

abbrev pub comes_before : Order → Option ℕ → Option ℕ → Bool
comes_before order none b = false
comes_before order (some a) none = true
comes_before asc (some a) (some b) = ltb a b
comes_before desc (some a) (some b) = ltb b a

-- The first clause that tells two rows apart decides.
unfoldable pub not_after : List Clause → Listed → Listed → Bool
not_after [] a b = true
not_after (clause ∷ clauses) a b =
    comes_before clause.order (clause.column a) (clause.column b)
    || (not (comes_before clause.order (clause.column b) (clause.column a))
        && not_after clauses a b)

abbrev by_score : Order → Clause
by_score order = record { column = λ r. r.1; order = order }

abbrev by_posted : Order → Clause
by_posted order = record { column = λ r. r.0.0.offer.posted_at; order = order }

abbrev newest_created : List Clause
newest_created =
    record { column = λ r. some r.0.0.created_at; order = desc }
    ∷ record { column = λ r. some r.0.0.id; order = desc }
    ∷ []

unfoldable pub order_clauses : OrderBy → Order → List Clause
order_clauses score_percent order = by_score order ∷ by_posted desc ∷ newest_created
order_clauses posted_at order = by_posted order ∷ newest_created

unfoldable pub insert_row : List Clause → Listed → List Listed → List Listed
unfolding not_after
insert_row clauses a [] = a ∷ []
insert_row clauses a (b ∷ rows) =
    if not_after clauses a b then a ∷ b ∷ rows else b ∷ insert_row clauses a rows

unfoldable pub sorted : List Clause → List Listed → List Listed
unfolding insert_row
sorted clauses [] = []
sorted clauses (a ∷ rows) = insert_row clauses a (sorted clauses rows)

unfoldable pub summary_of : Listed → OfferSummary
unfolding offer_summary source_label
summary_of ((row, source), percent) = offer_summary row (source_label source) percent

module _ (ilike : String → String → Bool) where
  unfoldable pub list_offers : Query → Db → OfferListResponse
  unfolding matching sorted order_clauses take drop summary_of
  list_offers q db =
      let rows = matching ilike q db in
      record {
        items =
            map summary_of
              (take q.limit (drop q.offset (sorted (order_clauses q.order_by q.order) rows)));
        total = length rows;
      }
