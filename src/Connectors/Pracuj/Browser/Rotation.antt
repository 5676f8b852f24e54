-- ===== src/Connectors/Pracuj/Browser/Rotation.antt =====
-- The rotation of the browser over proxies does what the loop of app/connectors/http.py does.
use mathlib.Core.Path.{subst}
use recru_flow.Base.{
  ℕ, zero, suc, ◌+◌, String, ◌≡◌, refl, sym, ◌⊎◌, inl, inr, true, Option, none, some, List, [], ◌∷◌,
  ◌++◌, arith, leb, Bool-cases, Option-cases, length, length-append,
}
use recru_flow.Connectors.ProxyPool.{Outside, ProxyPool, get_proxy, report_failure}
use recru_flow.Connectors.Http.{
  Outcome, response, status_error, transport_error, Fetched, got, nothing, blocked, Net, is_block,
  max_proxy_attempts, give_up, attempts, evict, request,
}
use recru_flow.Connectors.Http as Http
use recru_flow.Connectors.Pracuj.Browser.{
  Navigation, loaded, no_response, playwright_error, is_challenge_page, fetch_rendered_page,
  Browser, conclude, rotate, fetch_html,
}

-- A visit as the outcome of a request.
abbrev pub outcome_of : Fetched String → Outcome String
outcome_of (got html) = response html
outcome_of nothing = transport_error
outcome_of (blocked status) = status_error status

-- The requests of an HTTP client that sees of each visit only what `_fetch_rendered_page` makes of it.
abbrev pub sends :
    (ℕ → String → String → Navigation)
    → List (String × Outcome String)
    → String
    → String
    → Outcome String
sends navigate log url proxy = outcome_of (fetch_rendered_page (navigate (length log) url proxy))

-- The browser and the client have the same pool, and made as many requests.
abbrev pub Agrees : Browser → Net String → Type 0
Agrees browser net = (browser.pool ≡ net.pool) × (browser.visits ≡ length net.log)

abbrev IsBlock : Option ℕ → Type 0
IsBlock none = Unit
IsBlock (some status) = is_block status ≡ true

-- Only a 403 or a 429 is raised as a block.
abbrev blocked_with : ℕ → Fetched String
blocked_with status = blocked status

blocked-IsBlock :
    (page : Navigation) (status : ℕ)
    → fetch_rendered_page page ≡ blocked status
    → is_block status ≡ true
unfolding fetch_rendered_page
blocked-IsBlock no_response status e = absurd (ground (arith, e))
blocked-IsBlock playwright_error status e = absurd (ground (arith, e))
blocked-IsBlock (loaded code html) status e = elim (Bool-cases (leb 400 code)) [
  | inl refused ↦ elim (Bool-cases (is_block code)) [
    | inl block ↦
        let same : blocked_with code ≡ blocked_with status = ground (arith, e, refused, block) in
        let code_is : code ≡ status = cc in subst (λ c. is_block c ≡ true) code_is block
    | inr other ↦ absurd (ground (arith, e, refused, other))
  ]
  | inr served ↦ elim (Bool-cases (is_challenge_page html)) [
    | inl challenge ↦ absurd (ground (arith, e, served, challenge))
    | inr page ↦ absurd (ground (arith, e, served, page))
  ]
]

Fetched-cases :
    (f : Fetched String)
    → ((html : String) × (f ≡ got html)) ⊎ (((status : ℕ) × (f ≡ blocked status)) ⊎ (f ≡ nothing))
Fetched-cases (got html) = inl (html, refl)
Fetched-cases (blocked status) = inr (inl (status, refl))
Fetched-cases nothing = inr (inr refl)

conclude-give_up : (last : Option ℕ) → IsBlock last → conclude last ≡ give_up last
unfolding give_up
conclude-give_up none h = refl
conclude-give_up (some status) h = rw h refl

module _ (outside : Outside) (navigate : ℕ → String → String → Navigation) where
  abbrev Same : Fetched String × Browser → Fetched String × Net String → Type 0
  Same (page, browser) (answer, net) = (page ≡ answer) × Agrees browser net

  rotate-attempts :
      (left : ℕ) (url : String) (last : Option ℕ) (pool : ProxyPool) (visits : ℕ)
      (log : List (String × Outcome String))
      → IsBlock last
      → length log ≡ visits
      → Same
          (rotate outside navigate left url last (record { pool = pool; visits = visits }))
          (attempts outside (sends navigate) left url last (record { pool = pool; log = log }))
  unfolding rotate attempts request Http.evict
  rotate-attempts zero url last pool visits log h e = (conclude-give_up last h, (refl, sym e))
  rotate-attempts (suc left) url last pool visits log h e =
      subst
        (λ v.
          Same (rotate outside navigate (suc left) url last (record { pool = pool; visits = v })) (
            attempts outside (sends navigate) (suc left) url last
              (record { pool = pool; log = log })))
        e
        (elim (Option-cases (get_proxy outside pool).0) [
          | inl none_left ↦
              rw (none_left, rotate, attempts)
                (rotate-attempts left url last (get_proxy outside pool).1 (length log) log h refl)
          | inr (p, drawn) ↦
              rw (drawn, rotate, attempts)
                (let drawn_pool = (get_proxy outside pool).1 in
                  let page = fetch_rendered_page (navigate (length log) url p) in
                  let longer : (o : Outcome String)
                      → length (log ++ ((p, o) ∷ [])) ≡ length log + 1 =
                    λ o. length-append log ((p, o) ∷ []) in
                  elim (Fetched-cases page) [
                    | inl (html, is_page) ↦
                        rw is_page (refl, (refl, sym (longer (outcome_of page))))
                    | inr (inl (status, is_blocked)) ↦ rw is_blocked (
                        rotate-attempts left url (some status) (report_failure p drawn_pool)
                          (length log + 1) (log ++ ((p, outcome_of page) ∷ []))
                          (blocked-IsBlock (navigate (length log) url p) status is_blocked)
                          (longer (outcome_of page)))
                    | inr (inr is_nothing) ↦ rw is_nothing (
                        rotate-attempts left url none (report_failure p drawn_pool) (length log + 1)
                          (log ++ ((p, outcome_of page) ∷ [])) tt (longer (outcome_of page)))
                  ])
        ])

  -- From the same pool and after as many requests, the rotation returns what the HTTP loop returns for
  -- a client that sees of each page only whether it was read, blocked or neither, and leaves the same
  -- pool after as many requests.
  pub fetch_html-get :
      (url : String) (pool : ProxyPool) (log : List (String × Outcome String))
      → let (page, browser) =
          fetch_html outside navigate url (record { pool = pool; visits = length log }) in
        let (answer, net) =
          Http.get outside (sends navigate) url (record { pool = pool; log = log }) in
        (page ≡ answer) × ((browser.pool ≡ net.pool) × (browser.visits ≡ length net.log))
  unfolding fetch_html Http.get
  fetch_html-get url pool log =
      rotate-attempts max_proxy_attempts url none pool (length log) log tt refl
