-- ===== src/Connectors/ProxyPool/Bounds.antt =====
-- The pool never holds a proxy twice nor more than `target_size`, and a top-up accounts for what it
-- admits and for the scrapes that it spends.
use recru_flow.Base.{
  if◌then◌else◌, ◌≤◌, ◌≡◌, refl, ◌≢◌, inl, inr, some, true, String, str_eq, eq_iff, false, not,
  ◌&&◌, ◌||◌, List, [], ◌∷◌, ◌++◌, arith, length, length-append, any-append, ltb, Bool-cases,
}
use recru_flow.Connectors.ProxyPool.{
  ProxyPool, contains, remove, try_report_failure, report_failure, admit,
}

abbrev pub Distinct : List String → Type 0
Distinct [] = Unit
Distinct (p ∷ good) = (contains good p ≡ false) × Distinct good

pub record IsValid (pool : ProxyPool) : Type 0 where
  pub distinct : Distinct pool.good
  pub within : length pool.good ≤ pool.target_size

contains-append :
    (xs ys : List String) (p : String) → contains (xs ++ ys) p ≡ (contains xs p || contains ys p)
unfolding contains
contains-append xs ys p = any-append (λ q. str_eq q p) xs ys

contains-snoc :
    (xs : List String) (p q : String) → contains (xs ++ (q ∷ [])) p ≡ (contains xs p || str_eq q p)
unfolding contains
contains-snoc [] p q = ground arith
contains-snoc (x ∷ xs) p q = ground (arith, contains-snoc xs p q)

Distinct-snoc :
    (xs : List String) (p : String)
    → contains xs p ≡ false
    → Distinct xs
    → Distinct (xs ++ (p ∷ []))
unfolding contains
Distinct-snoc [] p h d = (refl, tt)
Distinct-snoc (x ∷ xs) p h d = (
  ground (arith, contains-snoc xs x p, eq_iff p x, eq_iff x p),
  Distinct-snoc xs p (ground arith) d.1,
)

-- The list without the first occurrence of the proxy.
unfoldable without : String → List String → List String
without proxy [] = []
without proxy (p ∷ good) = if str_eq p proxy then good else p ∷ without proxy good

contains-without_ne :
    (p q : String) (xs : List String) → p ≢ q → contains (without p xs) q ≡ contains xs q
unfolding contains without
contains-without_ne p q [] h = refl
contains-without_ne p q (x ∷ xs) h =
    ground (arith, contains-without_ne p q xs h, eq_iff x p, eq_iff x q)

contains-without_self :
    (p : String) (xs : List String) → Distinct xs → contains (without p xs) p ≡ false
unfolding contains without
contains-without_self p [] d = refl
contains-without_self p (x ∷ xs) d = ground (arith, contains-without_self p xs d.1, eq_iff x p)

length-without-le : (p : String) (xs : List String) → length (without p xs) ≤ length xs
unfolding without
length-without-le p [] = omega arith
length-without-le p (x ∷ xs) = ground (arith, length-without-le p xs)

contains-without-false :
    (p q : String) (xs : List String) → contains xs q ≡ false → contains (without p xs) q ≡ false
unfolding contains without
contains-without-false p q [] h = refl
contains-without-false p q (x ∷ xs) h = ground (arith, contains-without-false p q xs)

Distinct-without : (p : String) (xs : List String) → Distinct xs → Distinct (without p xs)
unfolding without
Distinct-without p [] d = tt
Distinct-without p (x ∷ xs) d =
    ground (arith, Distinct-without p xs d.1, contains-without-false p x xs)

remove-without :
    (p : String) (xs : List String) → contains xs p ≡ true → remove p xs ≡ some (without p xs)
unfolding contains remove without
remove-without p [] h = absurd (ground (arith, h))
remove-without p (x ∷ xs) h = elim (Bool-cases (str_eq x p)) [
  | inl same ↦ rw same refl
  | inr other ↦ rw (other, remove-without p xs (ground (arith, h, other))) refl
]

-- The pool after an eviction.
unfoldable evicted : String → ProxyPool → ProxyPool
unfolding without
evicted p pool = if contains pool.good p then record pool { good = without p pool.good } else pool

try_report_failure-evicted :
    (p : String) (pool : ProxyPool) → try_report_failure p pool ≡ some (evicted p pool)
unfolding try_report_failure evicted
try_report_failure-evicted p pool = elim (Bool-cases (contains pool.good p)) [
  | inl held ↦ rw (held, remove-without p pool.good held) refl
  | inr absent ↦ rw absent refl
]

evicted-IsValid : (p : String) (pool : ProxyPool) → IsValid pool → IsValid (evicted p pool)
unfolding evicted
evicted-IsValid p pool v =
    ground (arith, Distinct-without p pool.good v.distinct, length-without-le p pool.good)

pub report_failure-IsValid :
    (p : String) (pool : ProxyPool) → IsValid pool → IsValid (report_failure p pool)
unfolding report_failure
report_failure-IsValid p pool v = rw (try_report_failure-evicted p pool) (evicted-IsValid p pool v)

-- What an eviction leaves of the good proxies.
pub record Evicts (p : String) (before after : ProxyPool) : Type 0 where
  pub gone : contains after.good p ≡ false
  pub others : (q : String) → p ≢ q → contains after.good q ≡ contains before.good q
  pub valid : IsValid after

-- In a valid pool, report_failure does not raise, whether the proxy is in the pool or not, removes
-- the failed proxy and no other, and leaves the pool valid.
pub report_failure-Evicts :
    (p : String) (pool : ProxyPool)
    → IsValid pool
    → (after : ProxyPool) × (try_report_failure p pool ≡ some after) × Evicts p pool after
unfolding evicted
report_failure-Evicts p pool v = (
  evicted p pool,
  try_report_failure-evicted p pool,
  record {
    gone = ground (arith, contains-without_self p pool.good v.distinct);
    others = λ q other. ground (arith, contains-without_ne p q pool.good other);
    valid = evicted-IsValid p pool v;
  },
)

pub admit-IsValid : (p : String) (pool : ProxyPool) → IsValid pool → IsValid (admit p pool).0
unfolding admit
admit-IsValid p pool v =
    elim (Bool-cases (not (contains pool.good p) && ltb (length pool.good) pool.target_size)) [
      | inl yes_admit ↦ rw yes_admit (record {
        distinct = Distinct-snoc pool.good p (ground arith) v.distinct;
        within = ground (arith, length-append pool.good (p ∷ []));
      })
      | inr no_admit ↦ rw no_admit v
    ]
