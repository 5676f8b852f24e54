-- ===== src/Connectors/Http/Verdict.antt =====
-- What the log of requests says that a fetch must return.
use recru_flow.Base.{
  ℕ, zero, suc, ◌≤◌, String, ◌≡◌, refl, sym, ap, ◌∙◌, ◌⊎◌, inl, inr, Option, none, some, List, [],
  ◌∷◌, ◌++◌, ◌||◌, ◌==◌, if◌then◌else◌, append-nil, append_assoc, arith, Option-cases, length,
}
use recru_flow.Connectors.ProxyPool.{Outside, ProxyPool, get_proxy}
use recru_flow.Connectors.ProxyPool.Bounds.{IsValid, report_failure-IsValid}
use recru_flow.Connectors.ProxyPool.TopUp.{get_proxy-IsValid}
use recru_flow.Connectors.Http.{
  Outcome, response, status_error, transport_error, Fetched, got, nothing, blocked, Net,
  max_proxy_attempts, give_up, attempts, get,
}

-- Where no response came: the last status that was an error is a block if it is 403 or 429.
abbrev pub unanswered : {R : Type 0} → Option ℕ → Fetched R
unanswered none = nothing
unanswered (some code) = if code == 403 || code == 429 then blocked code else nothing

-- Read off the requests of one fetch: only the last one counts. A response is returned; a status of
-- 403 or 429 is a block; anything else, and no request at all, is nothing.
abbrev pub verdict : {R : Type 0} → Option ℕ → List (String × Outcome R) → Fetched R
verdict last [] = unanswered last
verdict last ((_, response r) ∷ _) = got r
verdict last ((_, status_error code) ∷ rest) = verdict (some code) rest
verdict last ((_, transport_error) ∷ rest) = verdict none rest

Outcome-cases :
    {R : Type 0} (o : Outcome R)
    → ((r : R) × (o ≡ response r))
      ⊎ (((code : ℕ) × (o ≡ status_error code)) ⊎ (o ≡ transport_error))
Outcome-cases (response r) = inl (r, refl)
Outcome-cases (status_error code) = inr (inl (code, refl))
Outcome-cases transport_error = inr (inr refl)

-- A response ends the fetch, so it is never followed by a request.
abbrev pub EndsAtResponse : {R : Type 0} → List (String × Outcome R) → Type 0
EndsAtResponse [] = Unit
EndsAtResponse ((_, response _) ∷ rest) = length rest ≡ 0
EndsAtResponse ((_, status_error _) ∷ rest) = EndsAtResponse rest
EndsAtResponse ((_, transport_error) ∷ rest) = EndsAtResponse rest

-- The requests that a fetch made, and its result as their verdict.
pub record IsFetch {R : Type 0} (left : ℕ) (last : Option ℕ) (before : Net R)
    (after : Fetched R × Net R) : Type 0 where
  pub sent : List (String × Outcome R)
  pub logged : after.1.log ≡ before.log ++ sent
  pub few : length sent ≤ left
  pub ends : EndsAtResponse sent
  pub judged : after.0 ≡ verdict last sent
  pub valid : IsValid after.1.pool

IsFetch-skip :
    {R : Type 0} {left : ℕ} {last : Option ℕ} {before : Net R} (pool : ProxyPool)
    {after : Fetched R × Net R}
    → IsFetch left last (record before { pool = pool }) after
    → IsFetch (suc left) last before after
IsFetch-skip pool f = record {
  sent = f.sent;
  logged = f.logged;
  few = omega (arith, f.few);
  ends = f.ends;
  judged = f.judged;
  valid = f.valid;
}

-- A failed request in front: what follows is judged from the status that it leaves.
IsFetch-status :
    {R : Type 0} {left : ℕ} (last : Option ℕ) {before next : Net R} (p : String) (code : ℕ)
    {after : Fetched R × Net R}
    → next.log ≡ before.log ++ ((p, status_error code) ∷ [])
    → IsFetch left (some code) next after
    → IsFetch (suc left) last before after
IsFetch-status last {before} p code e f = record {
  sent = (p, status_error code) ∷ f.sent;
  logged = f.logged ∙ ap (λ l. l ++ f.sent) e ∙ append_assoc before.log _ f.sent;
  few = omega (arith, f.few);
  ends = f.ends;
  judged = f.judged;
  valid = f.valid;
}

IsFetch-error :
    {R : Type 0} {left : ℕ} (last : Option ℕ) {before next : Net R} (p : String)
    {after : Fetched R × Net R}
    → next.log ≡ before.log ++ ((p, transport_error) ∷ [])
    → IsFetch left none next after
    → IsFetch (suc left) last before after
IsFetch-error last {before} p e f = record {
  sent = (p, transport_error) ∷ f.sent;
  logged = f.logged ∙ ap (λ l. l ++ f.sent) e ∙ append_assoc before.log _ f.sent;
  few = omega (arith, f.few);
  ends = f.ends;
  judged = f.judged;
  valid = f.valid;
}

give_up-unanswered : {R : Type 0} (last : Option ℕ) → give_up {R = R} last ≡ unanswered last
unfolding give_up
give_up-unanswered none = refl
give_up-unanswered (some code) = refl

module _ {R : Type 0} (outside : Outside)
    (send : List (String × Outcome R) → String → String → Outcome R) where
  attempts-IsFetch :
      (left : ℕ) (url : String) (last : Option ℕ) (net : Net R)
      → IsValid net.pool
      → IsFetch left last net (attempts outside send left url last net)
  unfolding attempts
  attempts-IsFetch zero url last net v = record {
    sent = [];
    logged = sym (append-nil net.log);
    few = omega arith;
    ends = tt;
    judged = give_up-unanswered last;
    valid = v;
  }
  attempts-IsFetch (suc left) url last net v = elim (Option-cases (get_proxy outside net.pool).0) [
    | inl none_left ↦
        rw (none_left, attempts)
          (IsFetch-skip _ (
            attempts-IsFetch left url last (record net { pool = (get_proxy outside net.pool).1 })
              drawn))
    | inr (p, e) ↦
        rw (e, attempts)
          (let net' : Net R = record net { pool = (get_proxy outside net.pool).1 } in
            elim (Outcome-cases (send net.log url p)) [
              | inl (r, is_r) ↦ rw is_r (record {
                sent = (p, response r) ∷ [];
                logged = ap (λ o. net.log ++ ((p, o) ∷ [])) is_r;
                few = omega arith;
                ends = refl;
                judged = refl;
                valid = drawn;
              })
              | inr (inl (code, is_code)) ↦ rw is_code (
                  IsFetch-status last p code (ap (λ o. net.log ++ ((p, o) ∷ [])) is_code)
                    (attempts-IsFetch left url (some code) _ (report_failure-IsValid p _ drawn)))
              | inr (inr is_error) ↦ rw is_error (
                  IsFetch-error last p (ap (λ o. net.log ++ ((p, o) ∷ [])) is_error)
                    (attempts-IsFetch left url none _ (report_failure-IsValid p _ drawn)))
            ])
  ]
    where
      drawn : IsValid (get_proxy outside net.pool).1
      drawn = get_proxy-IsValid outside net.pool v

  -- From a valid pool, one fetch makes at most three requests, stops at the first response,
  -- returns what its requests say (a response, a block if the last request ended in 403 or 429,
  -- else nothing), and leaves the pool valid.
  pub get-IsFetch :
      (url : String) (net : Net R)
      → IsValid net.pool
      → IsFetch 3 none net (get outside send url net)
  unfolding get
  get-IsFetch url net v = attempts-IsFetch max_proxy_attempts url none net v
