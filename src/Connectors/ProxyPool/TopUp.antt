-- ===== src/Connectors/ProxyPool/TopUp.antt =====
-- `top_up` and `get_proxy`: what they admit, what they spend, and that every interleaving of the
-- locked blocks of several threads keeps the pool valid.
use mathlib.Core.Path.{subst}
use recru_flow.Base.{
  ℕ, zero, suc, ◌+◌, ◌*◌, ◌%◌, ◌≤◌, ◌<◌, String, ◌≡◌, refl, sym, ap, ◌∙◌, ◌⊎◌, inl, inr, true,
  Option, none, some, List, [], ◌∷◌, arith, eq_iff, ltb, leb, ltb→lt, leb→le, Bool-cases, get_or,
  length, get_elem?, any, length-append,
}
use recru_flow.Connectors.ProxyPool.{
  Outside, ProxyPool, contains, report_failure, admit, scrape_one, attempt, top_up_loop, top_up,
  choice, return_choice, try_choose, try_get_proxy, choose, get_proxy,
}
use recru_flow.Connectors.ProxyPool.Bounds.{
  Distinct, IsValid, admit-IsValid, report_failure-IsValid,
}

-- What an admission leaves alone, and how it counts.
pub record IsCounted (before after : ProxyPool) (admitted spent : ℕ) : Type 0 where
  pub valid : IsValid after
  pub target : after.target_size ≡ before.target_size
  pub counted : length after.good ≡ length before.good + admitted
  pub scraped : after.scrapes ≡ before.scrapes + spent

admit-IsCounted :
    (p : String) (pool : ProxyPool)
    → IsValid pool
    → IsCounted pool (admit p pool).0 (admit p pool).1 0
unfolding admit
admit-IsCounted p pool v = record {
  valid = admit-IsValid p pool v;
  target = ground arith;
  counted = ground (arith, length-append pool.good (p ∷ []));
  scraped = ground arith;
}

module _ (outside : Outside) where
  attempt-IsCounted :
      (pool : ProxyPool)
      → IsValid pool
      → IsCounted pool (attempt outside pool).0 (attempt outside pool).1 1
  unfolding attempt scrape_one
  attempt-IsCounted pool v = go (outside.scrape pool.scrapes)
    where
      scraped : ProxyPool
      scraped = record pool { scrapes = pool.scrapes + 1 }

      v' : IsValid scraped
      v' = record { distinct = v.distinct; within = v.within }

      go :
          (c : Option String)
          → let r : ProxyPool × ℕ = elim c [ none ↦ (scraped, 0) | some p ↦ admit p scraped ] in
            IsCounted pool r.0 r.1 1
      go none = record { valid = v'; target = refl; counted = omega arith; scraped = omega arith }
      go (some p) =
          let h = admit-IsCounted p scraped v' in
          record {
            valid = h.valid;
            target = h.target;
            counted = h.counted;
            scraped = omega (arith, h.scraped);
          }

  -- The result of the loop: it is valid, it counts, and it stops at the target or out of attempts.
  pub record IsToppedUp (budget : ℕ) (pool : ProxyPool) (result : ProxyPool × ℕ) (base : ℕ)
      : Type 0 where
    pub valid : IsValid result.0
    pub target : result.0.target_size ≡ pool.target_size
    pub counted : length result.0.good + base ≡ length pool.good + result.1
    pub spent : result.0.scrapes ≤ pool.scrapes + budget
    pub stopped :
        (length result.0.good ≡ pool.target_size) ⊎ (result.0.scrapes ≡ pool.scrapes + budget)

  top_up_loop-IsToppedUp :
      (left : ℕ) (pool : ProxyPool) (admitted : ℕ)
      → IsValid pool
      → IsToppedUp left pool (top_up_loop outside left pool admitted) admitted
  unfolding top_up_loop
  top_up_loop-IsToppedUp zero pool admitted v = record {
    valid = v;
    target = refl;
    counted = omega arith;
    spent = omega arith;
    stopped = inr (omega arith);
  }
  top_up_loop-IsToppedUp (suc left) pool admitted v =
      elim (Bool-cases (leb pool.target_size (length pool.good))) [
        | inl full ↦ rw full (record {
          valid = v;
          target = refl;
          counted = omega arith;
          spent = omega arith;
          stopped = inl (omega (arith, leb→le _ _ full, v.within));
        })
        | inr room ↦ rw room (
            let a = attempt-IsCounted pool v in
            let h =
              top_up_loop-IsToppedUp left (attempt outside pool).0
                (admitted + (attempt outside pool).1) a.valid in
            record {
              valid = h.valid;
              target = h.target ∙ a.target;
              counted = omega (arith, h.counted, a.counted);
              spent = omega (arith, h.spent, a.scraped);
              stopped = elim h.stopped [
                | inl full ↦ inl (full ∙ a.target)
                | inr out ↦ inr (omega (arith, out, a.scraped))
              ];
            })
      ]

  -- From a valid pool, `top_up` leaves a valid pool, admits as many proxies as it reports, spends at
  -- most its budget of scrapes (four times the target by default), and stops only at the target size
  -- or when the budget is spent.
  pub top_up-IsToppedUp :
      (max_attempts : Option ℕ) (pool : ProxyPool)
      → IsValid pool
      → IsToppedUp
          (get_or max_attempts (pool.target_size * 4))
          pool
          (top_up outside max_attempts pool)
          0
  unfolding top_up
  top_up-IsToppedUp none pool v = top_up_loop-IsToppedUp (pool.target_size * 4) pool 0 v
  top_up-IsToppedUp (some budget) pool v = top_up_loop-IsToppedUp budget pool 0 v

get_elem?-contains :
    (good : List String) (i : ℕ) {p : String} → get_elem? good i ≡ some p → contains good p ≡ true
unfolding contains any
get_elem?-contains [] i h = cc
get_elem?-contains (x ∷ good) zero {p} h = ground (arith, eq_iff x p)
get_elem?-contains (x ∷ good) (suc i) {p} h = ground (arith, get_elem?-contains good i h)

get_elem?-some :
    (good : List String) (i : ℕ) → i < length good → (p : String) × (get_elem? good i ≡ some p)
get_elem?-some [] i h = elim h [ ]
get_elem?-some (x ∷ good) zero h = (x, refl)
get_elem?-some (x ∷ good) (suc i) h = get_elem?-some good i (omega arith)

-- What a draw from a pool leaves: the same proxies and no new scrape, and a member of them.
pub record IsDrawn (pool : ProxyPool) (drawn : Option String × ProxyPool) : Type 0 where
  pub member : (p : String) × (drawn.0 ≡ some p) × (contains pool.good p ≡ true)
  pub kept : drawn.1.good ≡ pool.good
  pub target : drawn.1.target_size ≡ pool.target_size
  pub scraped : drawn.1.scrapes ≡ pool.scrapes

-- A draw from a pool that holds some proxy, and nothing from one that is empty.
abbrev pub Draws : ProxyPool → Option String × ProxyPool → Type 0
Draws pool drawn =
    ((0 < length pool.good) × IsDrawn pool drawn)
    ⊎ ((length pool.good ≡ 0) × (drawn ≡ (none, pool)))

-- A pool that is not empty is drawn from as it is; an empty one is topped up first.
abbrev pub Serves : (topped_up pool : ProxyPool) → Option String × ProxyPool → Type 0
Serves topped_up pool drawn =
    ((0 < length pool.good) × IsDrawn pool drawn) ⊎ ((length pool.good ≡ 0) × Draws topped_up drawn)

IsDrawn-IsValid :
    (pool : ProxyPool) (drawn : Option String × ProxyPool)
    → IsDrawn pool drawn
    → IsValid pool
    → IsValid drawn.1
IsDrawn-IsValid pool drawn d v = record {
  distinct = subst Distinct (sym d.kept) v.distinct;
  within = omega (arith, ap length d.kept, d.target, v.within);
}

module _ (outside : Outside) where
  return_choice-IsDrawn :
      (pool : ProxyPool)
      → 0 < length pool.good
      → (drawn : Option String × ProxyPool) × (return_choice outside pool ≡ some drawn)
        × IsDrawn pool drawn
  unfolding return_choice choice
  return_choice-IsDrawn pool h =
      let (p, e) =
        get_elem?-some pool.good (outside.draw pool.draws % length pool.good) (omega arith) in
      (
        (some p, record pool { draws = pool.draws + 1 }),
        rw (return_choice, choice, e) refl,
        record {
          member = (p, refl, get_elem?-contains pool.good _ e);
          kept = refl;
          target = refl;
          scraped = refl;
        },
      )

  try_choose-Draws :
      (pool : ProxyPool)
      → (drawn : Option String × ProxyPool) × (try_choose outside pool ≡ some drawn)
        × Draws pool drawn
  unfolding try_choose
  try_choose-Draws pool = elim (Bool-cases (ltb 0 (length pool.good))) [
    | inl full ↦
        let (drawn, e, d) = return_choice-IsDrawn pool (ltb→lt _ _ full) in
        (drawn, rw full e, inl (ltb→lt _ _ full, d))
    | inr empty ↦ ((none, pool), rw empty refl, inr (ground (arith, empty), refl))
  ]

  Draws-IsValid :
      (pool : ProxyPool) (drawn : Option String × ProxyPool)
      → Draws pool drawn
      → IsValid pool
      → IsValid drawn.1
  Draws-IsValid pool drawn (inl (_, d)) v = IsDrawn-IsValid pool drawn d v
  Draws-IsValid pool drawn (inr (_, e)) v = subst (λ o. IsValid o.1) (sym e) v

  choose-IsValid : (pool : ProxyPool) → IsValid pool → IsValid (choose outside pool).1
  unfolding choose
  choose-IsValid pool v =
      let (drawn, e, d) = try_choose-Draws pool in rw e (Draws-IsValid pool drawn d v)

  -- From a valid pool, get_proxy does not raise and leaves a valid pool. A pool that is not empty is
  -- not topped up: it is left with its proxies, and one of them is given. An empty pool is topped up
  -- with the default budget, and the draw is a member of the result, or nothing if that is still
  -- empty.
  pub get_proxy-Draws :
      (pool : ProxyPool)
      → IsValid pool
      → (drawn : Option String × ProxyPool) × (try_get_proxy outside pool ≡ some drawn)
        × IsValid drawn.1
        × Serves (top_up outside none pool).0 pool drawn
  unfolding try_get_proxy
  get_proxy-Draws pool v = elim (Bool-cases (ltb 0 (length pool.good))) [
    | inl full ↦
        let (drawn, e, d) = return_choice-IsDrawn pool (ltb→lt _ _ full) in
        (drawn, rw full e, IsDrawn-IsValid pool drawn d v, inl (ltb→lt _ _ full, d))
    | inr empty ↦
        let topped_up = (top_up outside none pool).0 in
        let (drawn, e, d) = try_choose-Draws topped_up in
        (
          drawn,
          rw empty e,
          Draws-IsValid topped_up drawn d (top_up-IsToppedUp outside none pool v).valid,
          inr (ground (arith, empty), d),
        )
  ]

  pub get_proxy-IsValid : (pool : ProxyPool) → IsValid pool → IsValid (get_proxy outside pool).1
  unfolding get_proxy
  get_proxy-IsValid pool v = let (drawn, e, w, _) = get_proxy-Draws pool v in rw e w

  -- The locked blocks, as the steps that several threads take in any order.
  pub data Step : ProxyPool → ProxyPool → Type 0 where
    scrapes : (pool : ProxyPool) → Step pool (scrape_one outside pool).1
    admits : (p : String) (pool : ProxyPool) → Step pool (admit p pool).0
    evicts : (p : String) (pool : ProxyPool) → Step pool (report_failure p pool)
    draws : (pool : ProxyPool) → Step pool (choose outside pool).1

  pub data Reach (start : ProxyPool) : ProxyPool → Type 0 where
    here : Reach start start
    next : {p q : ProxyPool} → Reach start p → Step p q → Reach start q

  Step-IsValid : {p q : ProxyPool} → Step p q → IsValid p → IsValid q
  unfolding scrape_one
  Step-IsValid (scrapes pool) v = record { distinct = v.distinct; within = v.within }
  Step-IsValid (admits p pool) v = admit-IsValid p pool v
  Step-IsValid (evicts p pool) v = report_failure-IsValid p pool v
  Step-IsValid (draws pool) v = choose-IsValid pool v

  -- Whatever the order in which threads take the locked blocks, a pool that starts valid stays valid.
  pub Reach-IsValid : {start p : ProxyPool} → IsValid start → Reach start p → IsValid p
  Reach-IsValid v here = v
  Reach-IsValid v (next r s) = Step-IsValid s (Reach-IsValid v r)
