-- ===== src/Tests/Net.antt =====
-- The proxy pool and a fetch at concrete inputs.
use recru_flow.Base.{
  zero, suc, ◌*◌, ◌≡◌, refl, none, some, Option, String, List, [], ◌∷◌, arith, get_or,
}
use recru_flow.Connectors.ProxyPool.{
  Outside, ProxyPool, contains, report_failure, try_report_failure, admit, top_up, try_get_proxy,
}
use recru_flow.Connectors.ProxyPool.Bounds.{IsValid, Evicts, report_failure-Evicts}
use recru_flow.Connectors.ProxyPool.TopUp.{
  IsToppedUp, top_up-IsToppedUp, Serves, get_proxy-Draws, here, next, admits, evicts, Reach-IsValid,
}
use recru_flow.Connectors.Http.{Outcome, response, status_error, get}
use recru_flow.Connectors.Http.Verdict.{IsFetch, get-IsFetch}

-- Every second scrape fails; the draws are all the first proxy.
abbrev outside : Outside
outside = record {
  scrape = λ n. elim n [
    | zero ↦ some "10.0.0.1"
    | suc m ↦ elim m [ zero ↦ none | suc k ↦ some "10.0.0.2" ]
  ];
  draw = λ n. 0;
}

abbrev empty_pool : ProxyPool
empty_pool = record { target_size = 2; good = []; scrapes = 0; draws = 0 }

abbrev one_proxy : ProxyPool
one_proxy = record { target_size = 2; good = "10.0.0.9" ∷ []; scrapes = 0; draws = 0 }

empty_pool-IsValid : IsValid empty_pool
empty_pool-IsValid = record { distinct = tt; within = omega arith }

one_proxy-IsValid : IsValid one_proxy
unfolding contains
one_proxy-IsValid = record { distinct = (refl, tt); within = omega arith }

top_up-IsToppedUp_example :
    IsToppedUp outside
      (get_or none (empty_pool.target_size * 4))
      empty_pool
      (top_up outside none empty_pool)
      0
top_up-IsToppedUp_example = top_up-IsToppedUp outside none empty_pool empty_pool-IsValid

get_proxy-Draws_example :
    (drawn : Option String × ProxyPool) × (try_get_proxy outside empty_pool ≡ some drawn)
    × IsValid drawn.1
    × Serves (top_up outside none empty_pool).0 empty_pool drawn
get_proxy-Draws_example = get_proxy-Draws outside empty_pool empty_pool-IsValid

report_failure-Evicts_example :
    (after : ProxyPool) × (try_report_failure "10.0.0.9" one_proxy ≡ some after)
    × Evicts "10.0.0.9" one_proxy after
report_failure-Evicts_example = report_failure-Evicts "10.0.0.9" one_proxy one_proxy-IsValid

Reach-IsValid_example : IsValid (report_failure "10.0.0.9" (admit "10.0.0.1" one_proxy).0)
Reach-IsValid_example = Reach-IsValid outside {start = one_proxy} one_proxy-IsValid (
    next (next here (admits "10.0.0.1" one_proxy))
      (evicts "10.0.0.9" (admit "10.0.0.1" one_proxy).0))

-- A site that blocks the first request and answers the second.
abbrev site : List (String × Outcome String) → String → String → Outcome String
site [] url proxy = status_error 403
site (_ ∷ _) url proxy = response "ok"

get-IsFetch_example :
    IsFetch 3 none
      (record { pool = empty_pool; log = [] })
      (get outside site "https://jobs.example" (record { pool = empty_pool; log = [] }))
get-IsFetch_example =
    get-IsFetch outside site "https://jobs.example" (record { pool = empty_pool; log = [] })
      empty_pool-IsValid
