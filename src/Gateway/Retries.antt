-- ===== src/Gateway/Retries.antt =====
-- `doWithRetry` ends with a value, after a bounded number of requests, and rides out failures.
use the_black_hole.Prelude.{
  ℕ, zero, suc, ◌+◌, ◌≤◌, ◌<◌, String, List, Option, none, some, Bool, true, ◌&&◌, ltb, leb, length,
  ◌≡◌, inl, inr, refl, sym, ap, ◌∙◌, subst, if_cases, on_option_cases, arith,
}
use the_black_hole.Prelude.Results.{ℤ, pos, negsuc, Result, ok, err, Result-cases}
use the_black_hole.Gateway.{
  Response, Sent, answered, failed, nothing, Network, is_idempotent, attempts, Round, done, again,
  signed, rounds, judge, judge_response, after, pause, retry, do_with_retry, max_response_bytes,
}

-- Something was returned: a response or an error.
abbrev pub IsValue : Sent → Type 0
IsValue (answered status body) = Unit
IsValue (failed e) = Unit
IsValue nothing = ⊥

-- A round ends with a value, or not yet.
abbrev IsProgress : Round → Type 0
IsProgress (done sent) = IsValue sent
IsProgress (again e) = Unit

judge-IsProgress :
    (method : String) (has_more : Bool) (status : ℕ) (body : List ℕ)
    → IsProgress (judge method has_more status body)
unfolding judge
judge-IsProgress method has_more status body =
    if_cases IsProgress (ltb max_response_bytes (length body)) _ _ (λ y. tt)
      (λ n.
        if_cases IsProgress (leb 500 status && is_idempotent method && has_more) _ _ (λ y. tt)
          (λ n. tt))

judge_response-IsProgress :
    (method : String) (has_more : Bool) (r : Result Response)
    → IsProgress (judge_response method has_more r)
unfolding judge_response
judge_response-IsProgress method has_more (err e) = tt
judge_response-IsProgress method has_more (ok resp) = elim (Result-cases resp.body) [
  | inl (e, bad) ↦
      subst IsProgress
        (ap
          (λ (b : Result (List ℕ)). judge_response method has_more (ok (record resp { body = b })))
          (sym bad))
        tt
  | inr (body, good) ↦
      subst IsProgress
        (ap
          (λ (b : Result (List ℕ)). judge_response method has_more (ok (record resp { body = b })))
          (sym good))
        (judge-IsProgress method has_more resp.status body)
]

-- A number of retries to which one can be added.
abbrev pub IsBelowMax : ℤ → Type 0
IsBelowMax (pos n) = n < 9223372036854775807
IsBelowMax (negsuc n) = Unit

rounds-signed : (n : ℕ) → n < 9223372036854775808 → rounds (signed n) ≡ n
unfolding rounds signed
rounds-signed n h = ground arith

-- Below the largest number of retries there is a round.
attempts-pos :
    (max_retries : ℤ) (method : String)
    → IsBelowMax max_retries
    → (n : ℕ) × (attempts max_retries method ≡ suc n)
unfolding attempts
attempts-pos (pos zero) method h = (0, refl)
attempts-pos (pos (suc n)) method h =
    if_cases (λ k. (m : ℕ) × (k ≡ suc m)) (is_idempotent method) _ _
      (λ y. (suc n, omega (arith, rounds-signed (suc n + 1) (omega (arith, h))))) (λ n. (0, refl))
attempts-pos (negsuc n) method h = (0, refl)

-- With the largest number of retries a repeatable request is not sent at all, and the code has neither a
-- response nor an error.
do_with_retry-overflow :
    {S : Type 0} (net : Network S) (method : String) (s : S)
    → net.max_retries ≡ pos 9223372036854775807
    → is_idempotent method ≡ true
    → do_with_retry net method s ≡ (s, nothing)
unfolding do_with_retry attempts retry signed rounds
do_with_retry-overflow net method s h e = rw (h, e) refl

module _ {S : Type 0} (net : Network S) (sent : S → ℕ)
    (one_each : (s : S) → sent (net.do_request s).0 ≡ sent s + 1)
    (wait_quiet : (b : ℤ) (s : S) → sent (net.wait b s).0 ≡ sent s) where
  -- A loop with an error already, or a round left, ends with a value, and sends at most a request a round.
  abbrev pub Ends : (left : ℕ) → S → S × Sent → Type 0
  Ends left s r = IsValue r.1 × (sent s ≤ sent r.0) × (sent r.0 ≤ sent s + left)

  pause_quiet : (attempt : ℕ) (s : S) → sent (pause net attempt s).0 ≡ sent s
  unfolding pause
  pause_quiet zero s = refl
  pause_quiet (suc n) s = wait_quiet _ s

  after-Ends :
      (left : ℕ) (s s2 : S) (r : Round) (go_on : String → S × Sent)
      → sent s2 ≡ sent s + 1
      → IsProgress r
      → ((e : String) → Ends left s2 (go_on e))
      → Ends (suc left) s (after r s2 go_on)
  after-Ends left s s2 (done v) go_on one p h = (p, omega (arith, one), omega (arith, one))
  after-Ends left s s2 (again e) go_on one p h =
      let rest = h e in (rest.0, omega (arith, one, rest.1), omega (arith, one, rest.2))

  retry-round :
      (method : String) (left attempt : ℕ) (o : Option String) (s : S)
      → ((e : String) (s2 : S) → Ends left s2 (retry net method left (attempt + 1) (some e) s2))
      → Ends (suc left) s (retry net method (suc left) attempt o s)
  unfolding retry
  retry-round method left attempt o s h =
      let quiet = pause_quiet attempt s in
      let s1 = (pause net attempt s).0 in
      let one = one_each s1 in
      on_option_cases (Ends (suc left) s) (pause net attempt s).1 _ _
        (λ n.
          after-Ends left s (net.do_request s1).0 _ _ (omega (arith, quiet, one))
            (judge_response-IsProgress method (ltb 0 left) (net.do_request s1).1) (λ e. h e _))
        (λ e stopped. (tt, omega (arith, quiet), omega (arith, quiet)))

  retry-Ends :
      (method : String) (left attempt : ℕ) (e : String) (s : S)
      → Ends left s (retry net method left attempt (some e) s)
  unfolding retry
  retry-Ends method zero attempt e s = (tt, omega arith, omega arith)
  retry-Ends method (suc left) attempt e s =
      retry-round method left attempt (some e) s (λ e s2. retry-Ends method left (attempt + 1) e s2)

  -- Where each request counts once, waiting counts nothing, and the number of retries is not the largest
  -- int64, `doWithRetry` ends with a response or an error, and has sent at most as many requests as there
  -- are attempts.
  pub do_with_retry-Ends :
      (method : String) (s : S)
      → IsBelowMax net.max_retries
      → Ends (attempts net.max_retries method) s (do_with_retry net method s)
  unfolding do_with_retry
  do_with_retry-Ends method s h =
      let (n, e) = attempts-pos net.max_retries method h in
      subst (λ k. Ends k s (retry net method k 0 none s)) (sym e)
        (retry-round method n 0 none s (λ e s2. retry-Ends method n 1 e s2))

-- The next rounds fail, `k` of them, without more than a pause between, and the one behind them gives a
-- body within the limit, with a status that is no failure of the server.
module _ {S : Type 0} (net : Network S) (method : String) (status : ℕ) (body : List ℕ) where
  -- The response of a round that is tried again while others remain: no response, no body, or a failure
  -- of the server.
  abbrev pub IsTransient : Result Response → Type 0
  IsTransient r = (e : String) × (judge_response method true r ≡ again e)

  abbrev pub Recovers : (failures attempt : ℕ) → S → Type 0
  Recovers zero attempt s =
      ((pause net attempt s).1 ≡ none)
      × ((net.do_request (pause net attempt s).0).1
          ≡ ok (record { status = status; body = ok body }))
  Recovers (suc k) attempt s =
      ((pause net attempt s).1 ≡ none)
      × IsTransient (net.do_request (pause net attempt s).0).1
      × Recovers k (attempt + 1) (net.do_request (pause net attempt s).0).0

  retry-Recovers :
      (k left attempt : ℕ) (o : Option String) (s : S)
      → status < 500
      → length body ≤ max_response_bytes
      → k < left
      → Recovers k attempt s
      → (retry net method left attempt o s).1 ≡ answered status body
  unfolding retry judge_response judge
  retry-Recovers k zero attempt o s fine fits room h = let bad : ⊥ = omega arith in elim bad [ ]
  retry-Recovers zero (suc left) attempt o s fine fits room h = rw (h.0, h.1) (ground arith)
  retry-Recovers (suc k) (suc left) attempt o s fine fits room h =
      let r = (net.do_request (pause net attempt s).0).1 in
      let more : ltb 0 left ≡ true = ground arith in
      let (e, failing) = h.1 in
      let judged : judge_response method (ltb 0 left) r ≡ again e =
        ap (λ b. judge_response method b r) more ∙ failing in
      rw (h.0, judged)
        (retry-Recovers k left (attempt + 1) (some e) _ fine fits (omega (arith, room)) h.2)

  -- Where fewer rounds fail in a way that is tried again than there are attempts, and the next one gives a
  -- body within the limit under a status below 500, `doWithRetry` returns this status and this body.
  pub do_with_retry-Recovers :
      (k : ℕ) (s : S)
      → status < 500
      → length body ≤ max_response_bytes
      → k < attempts net.max_retries method
      → Recovers k 0 s
      → (do_with_retry net method s).1 ≡ answered status body
  unfolding do_with_retry
  do_with_retry-Recovers k s fine fits room h =
      retry-Recovers k (attempts net.max_retries method) 0 none s fine fits room h
