-- ===== src/Connectors/ProxyPool.antt =====
-- app/connectors/proxy_pool.py: the pool of verified proxies that all connectors share.
-- A method takes the pool and returns it; a `with self._lock` block is one step.
pub mod Bounds
pub mod TopUp
use recru_flow.Base.{
  ℕ, zero, suc, ◌+◌, ◌*◌, ◌%◌, String, str_eq, Bool, not, ◌&&◌, Option, none, some, List, [], ◌∷◌,
  ◌++◌, length, get_elem?, get_or, any, ltb, leb, if◌then◌else◌,
}

-- What the pool reads from outside: the result of each scrape of the `fp` package, in the order
-- of the calls (`none` for a `FreeProxyException`), and the numbers that `random` draws.
pub record Outside : Type 0 where
  pub scrape : ℕ → Option String
  pub draw : ℕ → ℕ

pub record ProxyPool : Type 0 where
  pub target_size : ℕ
  pub good : List String
  -- How many scrapes and draws have been made.
  pub scrapes : ℕ
  pub draws : ℕ

-- `proxy in self._good`
unfoldable pub contains : List String → String → Bool
unfolding any
contains good proxy = any (λ p. str_eq p proxy) good

-- `self._good.remove(proxy)`: the first occurrence goes. An absent proxy is a `ValueError`.
unfoldable pub remove : String → List String → Option (List String)
remove proxy [] = none
remove proxy (p ∷ good) =
    if str_eq p proxy
    then some good
    else elim (remove proxy good) [ none ↦ none | some rest ↦ some (p ∷ rest) ]

unfoldable pub size : ProxyPool → ℕ
size pool = length pool.good

-- `report_failure`; none if it raises.
unfoldable pub try_report_failure : String → ProxyPool → Option ProxyPool
unfolding contains remove
try_report_failure proxy pool =
    if contains pool.good proxy
    then elim (remove proxy pool.good) [
      | none ↦ none
      | some good ↦ some (record pool { good = good })
    ]
    else some pool

-- The pool that the callers go on with.
unfoldable pub report_failure : String → ProxyPool → ProxyPool
unfolding try_report_failure
report_failure proxy pool = get_or (try_report_failure proxy pool) pool

-- The locked block that ends a round of `top_up`, and how many it admitted.
unfoldable pub admit : String → ProxyPool → ProxyPool × ℕ
unfolding contains
admit candidate pool =
    if not (contains pool.good candidate) && ltb (length pool.good) pool.target_size
    then (record pool { good = pool.good ++ (candidate ∷ []) }, 1)
    else (pool, 0)

module _ (outside : Outside) where
  unfoldable pub scrape_one : ProxyPool → Option String × ProxyPool
  scrape_one pool = (outside.scrape pool.scrapes, record pool { scrapes = pool.scrapes + 1 })

  -- One round of the loop of `top_up`, below its test.
  unfoldable pub attempt : ProxyPool → ProxyPool × ℕ
  unfolding scrape_one admit
  attempt pool =
      let (candidate, scraped) = scrape_one pool in
      elim candidate [ none ↦ (scraped, 0) | some proxy ↦ admit proxy scraped ]

  -- The loop: the attempts that are left, and the number admitted so far.
  unfoldable pub top_up_loop : ℕ → ProxyPool → ℕ → ProxyPool × ℕ
  unfolding attempt
  top_up_loop zero pool admitted = (pool, admitted)
  top_up_loop (suc left) pool admitted =
      let rest = top_up_loop left (attempt pool).0 (admitted + (attempt pool).1) in
      if leb pool.target_size (length pool.good) then (pool, admitted) else rest

  unfoldable pub top_up : Option ℕ → ProxyPool → ProxyPool × ℕ
  unfolding top_up_loop
  top_up max_attempts pool = elim max_attempts [
    | none ↦ top_up_loop (pool.target_size * 4) pool 0
    | some budget ↦ top_up_loop budget pool 0
  ]

  -- `self._rand.choice(self._good)`, which is an `IndexError` for an empty list.
  unfoldable pub choice : ProxyPool → Option (String × ProxyPool)
  choice pool = elim (get_elem? pool.good (outside.draw pool.draws % length pool.good)) [
    | none ↦ none
    | some proxy ↦ some (proxy, record pool { draws = pool.draws + 1 })
  ]

  -- `return self._rand.choice(self._good)`
  unfoldable pub return_choice : ProxyPool → Option (Option String × ProxyPool)
  unfolding choice
  return_choice pool = elim (choice pool) [
    | none ↦ none
    | some (proxy, pool') ↦ some (some proxy, pool')
  ]

  -- The second locked block of `get_proxy` and the return below it.
  unfoldable pub try_choose : ProxyPool → Option (Option String × ProxyPool)
  unfolding return_choice
  try_choose pool = if ltb 0 (length pool.good) then return_choice pool else some (none, pool)

  -- `get_proxy`; none if it raises.
  unfoldable pub try_get_proxy : ProxyPool → Option (Option String × ProxyPool)
  unfolding return_choice try_choose top_up
  try_get_proxy pool =
      if ltb 0 (length pool.good) then return_choice pool else try_choose (top_up none pool).0

  -- What the callers go on with.
  unfoldable pub choose : ProxyPool → Option String × ProxyPool
  unfolding try_choose
  choose pool = get_or (try_choose pool) (none, pool)

  unfoldable pub get_proxy : ProxyPool → Option String × ProxyPool
  unfolding try_get_proxy
  get_proxy pool = get_or (try_get_proxy pool) (none, pool)
