-- ===== src/Connectors/SitemapDetail/Noted.antt =====
-- What is left of the URLs that were blocked in a run.
use mathlib.Core.Path.{subst}
use recru_flow.Base.{
  ℕ, String, ◌≡◌, refl, sym, ◌∙◌, ◌⊎◌, inl, inr, Option, none, some, List, [], ◌∷◌, str_eq, eq_iff,
  Bool-cases, All, All-map,
}
use recru_flow.Db.{Db, Source, IngestionFailure}
use recru_flow.Connectors.ProxyPool.{Outside}
use recru_flow.Connectors.Http.{Outcome}
use recru_flow.Dlq.Service.{detail_fetch_blocked, value_of, record_failure, fresh_failure, reopen}
use recru_flow.Dlq.Service.Upsert.{row_of, row_of-upsert, upsert-recorded, recorded}
use recru_flow.Ingestion.Persist.{Host}
use recru_flow.Connectors.SitemapDetail.{Site, blocked_fields, detail_key, record_blocked}

-- The URL and its status are among those that were noted.
abbrev pub IsNoted : List (String × ℕ) → String × ℕ → Type 0
IsNoted [] b = ⊥
IsNoted (c ∷ rest) b = (b ≡ c) ⊎ IsNoted rest b

All-IsNoted : (blocked_urls : List (String × ℕ)) → All (IsNoted blocked_urls) blocked_urls
All-IsNoted [] = tt
All-IsNoted (c ∷ rest) =
    (inl refl, All-map (IsNoted rest) (IsNoted (c ∷ rest)) (λ b h. inr h) rest (All-IsNoted rest))

module _ (host : Host) (outside : Outside)
    (send : List (String × Outcome String) → String → String → Outcome String) (site : Site) where
  -- A row that waits for the retry of one of the blocked URLs: it is open, it names a blocked URL of
  -- its key, and it has the status that this URL was blocked with.
  abbrev pub IsWaiting : Source → (String × ℕ → Type 0) → String → Option IngestionFailure → Type 0
  IsWaiting source Listed key none = ⊥
  IsWaiting source Listed key (some row) =
      (row.status ≡ "open")
      × (row.failure_type ≡ "detail_fetch_blocked")
      × (row.source_id ≡ source.id)
      × ((b : String × ℕ) × Listed b
          × (detail_key host outside send site source b.0 ≡ key)
          × (row.url ≡ some b.0)
          × (row.blocked_status ≡ some b.1))

  module _ (source : Source) (Listed : String × ℕ → Type 0) where
    abbrev recorded_one : String → ℕ → Db → Db
    recorded_one url code db =
        record_failure host.clock (detail_key host outside send site source url)
          detail_fetch_blocked (blocked_fields host outside send site source url code) db

    recorded-IsWaiting :
        (url : String) (code id now : ℕ) (old : Option IngestionFailure)
        → Listed (url, code)
        → IsWaiting source Listed (detail_key host outside send site source url) (
            some (
              recorded id
                (detail_key host outside send site source url)
                detail_fetch_blocked
                (blocked_fields host outside send site source url code)
                now
                old))
    unfolding fresh_failure reopen value_of
    recorded-IsWaiting url code id now none listed =
        (refl, refl, refl, ((url, code), listed, refl, refl, refl))
    recorded-IsWaiting url code id now (some row) listed =
        (refl, refl, refl, ((url, code), listed, refl, refl, refl))

    recorded_one-waits :
        (url : String) (code : ℕ) (db : Db)
        → Listed (url, code)
        → IsWaiting source Listed (detail_key host outside send site source url) (
            row_of
              (detail_key host outside send site source url)
              (recorded_one url code db).ingestion_failures)
    unfolding record_failure
    recorded_one-waits url code db listed =
        subst (IsWaiting source Listed (detail_key host outside send site source url))
          (sym (
            upsert-recorded db.next_id (detail_key host outside send site source url)
              detail_fetch_blocked (blocked_fields host outside send site source url code)
              (host.clock db.reads) db.ingestion_failures))
          (recorded-IsWaiting url code db.next_id (host.clock db.reads) _ listed)

    recorded_one-keeps :
        (url : String) (code : ℕ) (key : String) (db : Db)
        → Listed (url, code)
        → IsWaiting source Listed key (row_of key db.ingestion_failures)
        → IsWaiting source Listed key (row_of key (recorded_one url code db).ingestion_failures)
    unfolding record_failure
    recorded_one-keeps url code key db listed h =
        elim (Bool-cases (str_eq (detail_key host outside send site source url) key)) [
          | inl same ↦
              subst
                (λ k.
                  IsWaiting source Listed k
                    (row_of k (recorded_one url code db).ingestion_failures))
                ((eq_iff (detail_key host outside send site source url) key).0 same)
                (recorded_one-waits url code db listed)
          | inr other ↦
              subst (IsWaiting source Listed key)
                (sym (
                  row_of-upsert db.next_id (detail_key host outside send site source url)
                    detail_fetch_blocked (blocked_fields host outside send site source url code)
                    (host.clock db.reads) key db.ingestion_failures
                  ∙ rw other refl))
                h
        ]

    record_blocked-keeps :
        (blocked_urls : List (String × ℕ)) (key : String) (db : Db)
        → All Listed blocked_urls
        → IsWaiting source Listed key (row_of key db.ingestion_failures)
        → IsWaiting source Listed key (
            row_of key
              (record_blocked host outside send site source blocked_urls db).ingestion_failures)
    unfolding record_blocked
    record_blocked-keeps [] key db listed h = h
    record_blocked-keeps ((url, code) ∷ rest) key db listed h =
        record_blocked-keeps rest key (recorded_one url code db) listed.1
          (recorded_one-keeps url code key db listed.0 h)

    record_blocked-all :
        (blocked_urls : List (String × ℕ)) (db : Db)
        → All Listed blocked_urls
        → All
            (λ (b : String × ℕ).
              IsWaiting source Listed (detail_key host outside send site source b.0) (
                row_of
                  (detail_key host outside send site source b.0)
                  (record_blocked host outside send site source blocked_urls
                    db).ingestion_failures))
            blocked_urls
    unfolding record_blocked
    record_blocked-all [] db listed = tt
    record_blocked-all ((url, code) ∷ rest) db listed = (
      record_blocked-keeps rest (detail_key host outside send site source url)
          (recorded_one url code db) listed.1 (recorded_one-waits url code db listed.0),
      record_blocked-all rest (recorded_one url code db) listed.1,
    )

  -- After a run has recorded its blocked URLs, the key of each of them has an open row of the source
  -- that asks for a retry of one page: the row's URL and status are those of a blocked URL with this
  -- key, which is another than the URL only where their hashes collide.
  pub record_blocked-waits :
      (source : Source) (blocked_urls : List (String × ℕ)) (db : Db)
      → All
          (λ (b : String × ℕ).
            IsWaiting source (IsNoted blocked_urls) (detail_key host outside send site source b.0) (
              row_of
                (detail_key host outside send site source b.0)
                (record_blocked host outside send site source blocked_urls db).ingestion_failures))
          blocked_urls
  record_blocked-waits source blocked_urls db =
      record_blocked-all source (IsNoted blocked_urls) blocked_urls db (All-IsNoted blocked_urls)
