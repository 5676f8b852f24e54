-- ===== src/Ingestion/Persist.antt =====
-- app/ingestion/persist.py: validation of a mapped offer, and its insertion unless it is known.
pub mod Insert
use recru_flow.Base.{
  ℕ, zero, suc, ◌+◌, ◌-◌, ◌*◌, ◌/◌, ◌%◌, ◌≤◌, ◌<◌, min, max, String, ◌<>◌, ◌≡◌, refl, sym, ap, ◌∙◌,
  ◌≢◌, ◌↔◌, ◌⊎◌, inl, inr, Bool, true, false, not, ◌&&◌, ◌||◌, Option, none, some, List, [], ◌∷◌,
  ◌++◌, map, foldl, append-nil, append_assoc, arith, str_eq, eq_iff, eq_refl, ltb, leb, ◌==◌,
  if◌then◌else◌, ltb→lt, lt→ltb, leb→le, le→leb, ==_iff, tests, Bool-cases, Option-cases, is_none,
  is_some, get_or, or_else, length, get_elem?, take, drop, filter, any, all, find, All,
  length-append, length-take, length-drop, take-append-drop, length-filter-le, any-append,
  filter-append, All-append, All-map, All-filter, length-filter-not, length-map,
}
use recru_flow.Base.Int.{ℤ, pos, negsuc, to_ℕ}
use recru_flow.Data.Text.{show}
use recru_flow.Data.Json.{Value, null, bool, int, str, Fields, get, lookup, truthy}
use recru_flow.Schemas.{Offer, validate_offer}
use recru_flow.Db.{Db, OfferRow, utcnow}
use recru_flow.Dlq.Service.{validation_failed, record_failure, FailureFields}
use recru_flow.Ingestion.Dedup.{normalize_canonical_url, compute_dedup_hash}

-- What the program takes from outside: pydantic's conversion of the raw values to the field types
-- and its error texts, its reading of a date, Python's `str` of a value that is no text, SHA-256,
-- and the clock.
pub record Host : Type 0 where
  pub coerce : Fields → Option Offer
  pub complain : Fields → String
  pub parse_datetime : Value → Option ℕ
  -- The date that is read carries no time zone.
  pub is_naive : Value → Bool
  pub repr : Value → String
  pub sha256 : String → String
  pub clock : ℕ → ℕ

-- A value inside an f-string.
unfoldable pub str_of : Host → Value → String
str_of host (str s) = s
str_of host null = "None"
str_of host (bool true) = "True"
str_of host (bool false) = "False"
str_of host (int (pos n)) = show n
str_of host (int (negsuc n)) = "-" <> show (suc n)
str_of host v = host.repr v

eq_ℤ : ℤ → ℤ → Bool
eq_ℤ (pos a) (pos b) = a == b
eq_ℤ (negsuc a) (negsuc b) = a == b
eq_ℤ _ _ = false

-- `a.is_not_distinct_from(b)`
unfoldable pub is_not_distinct_from : Option ℤ → Option ℤ → Bool
unfolding eq_ℤ
is_not_distinct_from none none = true
is_not_distinct_from (some a) (some b) = eq_ℤ a b
is_not_distinct_from _ _ = false

-- The columns that make two offers the same content.
unfoldable pub same_content : Offer → Offer → Bool
unfolding is_not_distinct_from
same_content a b =
    str_eq a.company b.company
    && str_eq a.title b.title
    && is_not_distinct_from a.salary_min b.salary_min
    && is_not_distinct_from a.salary_max b.salary_max
    && str_eq a.salary_currency b.salary_currency

-- `_find_content_duplicate`: the first such row of the table.
unfoldable pub find_content_duplicate : Offer → List OfferRow → Option OfferRow
unfolding find same_content
find_content_duplicate offer = find (λ (row : OfferRow). same_content row.offer offer)

unfoldable pub find_hash : String → List OfferRow → Option OfferRow
unfolding find
find_hash hash = find (λ (row : OfferRow). str_eq row.dedup_hash hash)

module _ (host : Host) where
  unfoldable pub validation_failure_dedup_key : Fields → String
  unfolding str_of
  validation_failure_dedup_key raw =
      if truthy (get "canonical_url" raw)
      then "validation:" <> normalize_canonical_url (str_of host (get "canonical_url" raw))
      else "validation:"
        <> (str_of host (get "source_id" raw)
            <> (":"
                <> (str_of host (get_text "title") <> (":" <> str_of host (get_text "company")))))
    where
      -- `raw.get(key, "")`
      get_text : String → Value
      get_text key = get_or (lookup key raw) (str "")

  -- The source of a mapped offer: every mapper writes its number.
  unfoldable pub source_id_of : Fields → ℕ
  source_id_of raw = elim (get "source_id" raw) [ int n ↦ to_ℕ n | _ ↦ 0 ]

  -- `Offer.model_validate(raw)`
  unfoldable pub model_validate : Fields → Option Offer
  model_validate raw = elim (host.coerce raw) [ none ↦ none | some draft ↦ validate_offer draft ]

  -- The failure row of an invalid offer.
  unfoldable pub reject : Fields → Db → Db
  unfolding source_id_of
  reject raw db =
      record_failure host.clock (validation_failure_dedup_key raw) validation_failed
        (record {
          source_id = source_id_of raw;
          error_message = host.complain raw;
          raw_payload = some raw;
          scheduler_run_id = none;
          page = none;
          url = none;
          blocked_status = none;
        })
        db

  unfoldable pub normalize_and_validate : Fields → Db → Option Offer × Db
  unfolding model_validate
  normalize_and_validate raw db = elim (model_validate raw) [
    | some offer ↦ (some offer, db)
    | none ↦ (none, reject raw db)
  ]

  -- The row that `pg_insert(OfferModel)` adds.
  unfoldable pub offer_row : Offer → Fields → Db → OfferRow
  offer_row offer raw_payload db = record {
    id = db.next_id;
    dedup_hash = compute_dedup_hash host.sha256 offer;
    offer = offer;
    applied = false;
    hide = false;
    notes = none;
    link_opened_at = none;
    raw_payload = raw_payload;
    created_at = host.clock db.reads;
    updated_at = host.clock db.reads;
  }

  -- `INSERT ... ON CONFLICT (dedup_hash) DO NOTHING`, and the row that then has the hash.
  unfoldable pub insert_offer : Offer → Fields → Db → (OfferRow × Bool) × Db
  unfolding offer_row
  insert_offer offer raw_payload db =
      elim (find_hash (compute_dedup_hash host.sha256 offer) db.offers) [
        | some row ↦ ((row, false), record db { next_id = db.next_id + 1 })
        | none ↦ (
          (offer_row offer raw_payload db, true),
          record db {
            offers = db.offers ++ (offer_row offer raw_payload db ∷ []);
            next_id = db.next_id + 1;
            reads = db.reads + 1;
          },
        )
      ]

  unfoldable pub persist_offer : Offer → Fields → Db → (OfferRow × Bool) × Db
  unfolding insert_offer
  persist_offer offer raw_payload db = elim (find_content_duplicate offer db.offers) [
    | some row ↦ ((row, false), db)
    | none ↦ insert_offer offer raw_payload db
  ]

  -- `ingest_offer` below its validation.
  unfoldable pub persist_valid : Fields → Option Offer × Db → Option (OfferRow × Bool) × Db
  unfolding persist_offer
  persist_valid raw_payload (none, db) = (none, db)
  persist_valid raw_payload (some offer, db) =
      (some (persist_offer offer raw_payload db).0, (persist_offer offer raw_payload db).1)

  unfoldable pub ingest_offer : Fields → Fields → Db → Option (OfferRow × Bool) × Db
  unfolding normalize_and_validate persist_valid
  ingest_offer mapped_fields raw_payload db =
      persist_valid raw_payload (normalize_and_validate mapped_fields db)
