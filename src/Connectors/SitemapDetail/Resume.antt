-- ===== src/Connectors/SitemapDetail/Resume.antt =====
-- Where the next run resumes.
use recru_flow.Base.{ℕ, ◌<◌, String, ◌≡◌, ◌⊎◌, false, Option, none, some, List, length, ◌==◌}
use recru_flow.Base.Int.{ℤ}
use recru_flow.Data.Json.{Value}
use recru_flow.Db.{Db, Source}
use recru_flow.Connectors.ProxyPool.{Outside}
use recru_flow.Connectors.Http.{Outcome}
use recru_flow.Ingestion.Persist.{Host}
use recru_flow.Connectors.SitemapDetail.{
  resolve_sitemap_cursor, Site, Settings, record_blocked, record_blocked,
}

-- A cursor that a run may end at: the end of the list, or a place within it.
abbrev pub CursorWithin : List String → Option ℕ → Type 0
CursorWithin urls none = Unit
CursorWithin urls (some cursor) = cursor < length urls

module _ (host : Host) (outside : Outside)
    (send : List (String × Outcome String) → String → String → Outcome String) (site : Site) where
  module _ (to_int : Value → ℤ) (source : Source) (settings : Settings) where
    -- If the row is that of the source, its next run over these URLs starts at the cursor.
    abbrev pub WalksFrom : List String → ℕ → Source → Type 0
    WalksFrom urls cursor row =
        ((row.id == source.id) ≡ false)
        ⊎ (resolve_sitemap_cursor to_int row.config_json (length urls) ≡ cursor)
