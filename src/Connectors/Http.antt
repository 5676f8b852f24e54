-- ===== src/Connectors/Http.antt =====
-- app/connectors/http.py: a request tried through at most three proxies, and what its failure says.
-- Header fingerprints, parameters and timeouts go to the HTTP library and decide nothing here.
pub mod Verdict
use recru_flow.Base.{
  ℕ, zero, suc, ◌+◌, ◌-◌, ◌*◌, ◌/◌, ◌%◌, ◌≤◌, ◌<◌, min, max, String, ◌<>◌, ◌≡◌, refl, sym, ap, ◌∙◌,
  ◌≢◌, ◌↔◌, ◌⊎◌, inl, inr, Bool, true, false, not, ◌&&◌, ◌||◌, Option, none, some, List, [], ◌∷◌,
  ◌++◌, map, foldl, append-nil, append_assoc, arith, str_eq, eq_iff, eq_refl, ltb, leb, ◌==◌,
  if◌then◌else◌, ltb→lt, lt→ltb, leb→le, le→leb, ==_iff, tests, Bool-cases, Option-cases, is_none,
  is_some, get_or, or_else, length, get_elem?, take, drop, filter, any, all, find, All,
  length-append, length-take, length-drop, take-append-drop, length-filter-le, any-append,
  filter-append, All-append, All-map, All-filter, length-filter-not, length-map,
}
use recru_flow.Connectors.ProxyPool.{Outside, ProxyPool, get_proxy, report_failure}

-- What one `httpx.get` with `raise_for_status` ends in: a response, an `HTTPStatusError` with its
-- status, or any other `HTTPError`.
pub data Outcome {ℓ} (R : Type ℓ) : Type ℓ where
  response : R → Outcome R
  status_error : ℕ → Outcome R
  transport_error : Outcome R

-- What a fetch returns: a value, `None`, or a raised `BlockedFetchError` with its status.
pub data Fetched {ℓ} (A : Type ℓ) : Type ℓ where
  got : A → Fetched A
  nothing : Fetched A
  blocked : ℕ → Fetched A

-- The shared pool, and every request that was made with the proxy it went through.
pub record Net (R : Type 0) : Type 0 where
  pub pool : ProxyPool
  pub log : List (String × Outcome R)

abbrev pub max_proxy_attempts : ℕ
max_proxy_attempts = 3

-- `last_status_code in (403, 429)`
abbrev pub is_block : ℕ → Bool
is_block code = code == 403 || code == 429

-- Below the loop: raise on a block, else `None`.
unfoldable pub give_up : {R : Type 0} → Option ℕ → Fetched R
give_up none = nothing
give_up (some code) = if is_block code then blocked code else nothing

-- `_proxy_pool.report_failure(proxy, logger)`
unfoldable pub evict : {R : Type 0} → String → Net R → Net R
evict proxy net = record net { pool = report_failure proxy net.pool }

-- `send` is the HTTP library: the outcome of a request from the requests before it, the URL and the
-- proxy.
module _ {R : Type 0} (outside : Outside)
    (send : List (String × Outcome R) → String → String → Outcome R) where
  unfoldable pub request : String → String → Net R → Outcome R × Net R
  request url proxy net =
      let outcome = send net.log url proxy in
      (outcome, record net { log = net.log ++ ((proxy, outcome) ∷ []) })

  -- The loop over the attempts that are left, and `last_status_code`.
  unfoldable pub attempts : ℕ → String → Option ℕ → Net R → Fetched R × Net R
  unfolding request evict
  attempts zero url last net = (give_up last, net)
  attempts (suc left) url last net =
      let (proxy, pool) = get_proxy outside net.pool in
      elim proxy [
        | none ↦ attempts left url last (record net { pool = pool })
        | some p ↦
            let (outcome, net') = request url p (record net { pool = pool }) in
            elim outcome [
              | response r ↦ (got r, net')
              | status_error code ↦ attempts left url (some code) (evict p net')
              | transport_error ↦ attempts left url none (evict p net')
            ]
      ]

  -- `_get`
  unfoldable pub get : String → Net R → Fetched R × Net R
  unfolding attempts
  get url net = attempts max_proxy_attempts url none net

  -- `fetch_json`, `fetch_xml`, `fetch_gzip_xml` and `fetch_text`: a decoder of the response that
  -- gives nothing on malformed content. A block passes through.
  unfoldable pub fetch : {A : Type 0} → (R → Option A) → String → Net R → Fetched A × Net R
  fetch decode url net =
      let (result, net') = get url net in
      elim result [
        | got r ↦ (elim (decode r) [ none ↦ nothing | some a ↦ got a ], net')
        | nothing ↦ (nothing, net')
        | blocked code ↦ (blocked code, net')
      ]
