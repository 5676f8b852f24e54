-- ===== src/Connectors/Pracuj/Browser.antt =====
-- `_fetch_rendered_page` and `_fetch_html_with_proxy_rotation`: each request has a browser context of
-- its own, through another proxy. The headers of a fingerprint decide nothing here.
pub mod Rotation
use recru_flow.Base.{
  ℕ, zero, suc, ◌+◌, ◌-◌, ◌*◌, ◌/◌, ◌%◌, ◌≤◌, ◌<◌, min, max, String, ◌<>◌, ◌≡◌, refl, sym, ap, ◌∙◌,
  ◌≢◌, ◌↔◌, ◌⊎◌, inl, inr, Bool, true, false, not, ◌&&◌, ◌||◌, Option, none, some, List, [], ◌∷◌,
  ◌++◌, map, foldl, append-nil, append_assoc, arith, str_eq, eq_iff, eq_refl, ltb, leb, ◌==◌,
  if◌then◌else◌, ltb→lt, lt→ltb, leb→le, le→leb, ==_iff, tests, Bool-cases, Option-cases, is_none,
  is_some, get_or, or_else, length, get_elem?, take, drop, filter, any, all, find, All,
  length-append, length-take, length-drop, take-append-drop, length-filter-le, any-append,
  filter-append, All-append, All-map, All-filter, length-filter-not, length-map,
}
use recru_flow.Data.Text.{lower, contains}
use recru_flow.Connectors.ProxyPool.{Outside, ProxyPool, get_proxy, report_failure}
use recru_flow.Connectors.Http.{Fetched, got, nothing, blocked, is_block, max_proxy_attempts}

-- What `page.goto` ends in, with the text of the response.
pub data Navigation : Type 0 where
  loaded : ℕ → String → Navigation
  no_response : Navigation
  playwright_error : Navigation

abbrev challenge_markers : List String
challenge_markers = "Just a moment" ∷ "cf-mitigated" ∷ "Enable JavaScript and cookies" ∷ []

unfoldable pub is_challenge_page : String → Bool
unfolding any contains lower
is_challenge_page html = any (λ marker. contains (lower html) (lower marker)) challenge_markers

unfoldable pub fetch_rendered_page : Navigation → Fetched String
unfolding is_challenge_page
fetch_rendered_page no_response = nothing
fetch_rendered_page playwright_error = nothing
fetch_rendered_page (loaded status html) =
    if leb 400 status
    then if is_block status then blocked status else nothing
    else if is_challenge_page html
    then nothing
    else got html

-- The shared pool, and how many pages were opened.
pub record Browser : Type 0 where
  pub pool : ProxyPool
  pub visits : ℕ

-- Below the loop.
abbrev pub conclude : Option ℕ → Fetched String
conclude none = nothing
conclude (some status) = blocked status

-- `_proxy_pool.report_failure(proxy, logger)`
abbrev pub evict : String → Browser → Browser
evict proxy browser = record browser { pool = report_failure proxy browser.pool }

-- `navigate` is the browser: what a visit ends in, from the visits before it, the URL and the proxy.
module _ (outside : Outside) (navigate : ℕ → String → String → Navigation) where
  -- The loop over the attempts that are left, and `last_blocked_status`.
  unfoldable pub rotate : ℕ → String → Option ℕ → Browser → Fetched String × Browser
  unfolding fetch_rendered_page
  rotate zero url last browser = (conclude last, browser)
  rotate (suc left) url last browser =
      let (proxy, pool) = get_proxy outside browser.pool in
      elim proxy [
        | none ↦ rotate left url last (record browser { pool = pool })
        | some p ↦
            let opened : Browser = record { pool = pool; visits = browser.visits + 1 } in
            elim (fetch_rendered_page (navigate browser.visits url p)) [
              | got html ↦ (got html, opened)
              | nothing ↦ rotate left url none (evict p opened)
              | blocked status ↦ rotate left url (some status) (evict p opened)
            ]
      ]

  -- `_fetch_html_with_proxy_rotation`
  unfoldable pub fetch_html : String → Browser → Fetched String × Browser
  unfolding rotate
  fetch_html url browser = rotate max_proxy_attempts url none browser
