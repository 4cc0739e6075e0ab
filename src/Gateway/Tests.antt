-- ===== src/Gateway/Tests.antt =====
-- The theorems on the retries at concrete runs.
use the_black_hole.Prelude.{String, ℕ, ◌+◌, zero, suc, [], ◌∷◌, none, ◌≡◌, refl, arith}
use the_black_hole.Prelude.Results.{pos, ok, err}
use the_black_hole.Gateway.{Network, answered, attempts, pause, judge_response, do_with_retry}
use the_black_hole.Gateway.Egress.{dial_context}
use the_black_hole.Gateway.Samples.{resolver, closed_policy}
use the_black_hole.Gateway.Egress.Dialing.{IsPublicTarget, dial_context-IsPublicTarget}
use the_black_hole.Gateway.Retries.{Ends, do_with_retry-Ends, do_with_retry-Recovers}

-- The state counts the requests, of which the first fails.
abbrev network : Network ℕ
network = record {
  do_request = λ n. elim n [
    | zero ↦ (1, err "refused")
    | suc k ↦ (suc k + 1, ok (record { status = 200; body = ok (7 ∷ []) }))
  ];
  wait = λ b n. (n, none);
  max_retries = pos 2;
}

count_one : (n : ℕ) → (network.do_request n).0 ≡ n + 1
count_one zero = refl
count_one (suc n) = refl

do_with_retry-Ends_example :
    Ends network
      (λ n. n)
      count_one
      (λ b n. refl)
      (attempts (pos 2) "GET")
      0
      (do_with_retry network "GET" 0)
do_with_retry-Ends_example =
    do_with_retry-Ends network (λ n. n) count_one (λ b n. refl) "GET" 0 (omega arith)

do_with_retry-Recovers_example : (do_with_retry network "GET" 0).1 ≡ answered 200 (7 ∷ [])
unfolding attempts pause judge_response
do_with_retry-Recovers_example =
    do_with_retry-Recovers network "GET" 200 (7 ∷ []) 1 0 (omega arith) (omega arith) (omega arith)
      (refl, ("http request failed: refused", refl), (refl, refl))

dial_context-IsPublicTarget_example :
    (host : String) × (port : String) × (resolver.split_host_port "api.example:443"
      ≡ ok (host, port))
    × IsPublicTarget resolver closed_policy "api.example:443" host port "11:443"
unfolding dial_context
dial_context-IsPublicTarget_example =
    dial_context-IsPublicTarget resolver closed_policy "api.example:443" "11:443" refl refl
