-- ===== src/Gateway.antt =====
-- pkg/gateway/client.go: how a request to an API behind the gateway is sent and sent again.
pub mod Retries
pub mod Egress
pub mod Render
pub mod Call
pub mod Samples
mod Tests
use the_black_hole.Prelude.{
  ℕ, zero, suc, ◌+◌, ◌-◌, ◌*◌, ◌%◌, String, List, Option, none, some, Bool, true, false, ◌&&◌, ◌||◌,
  ◌===◌, ◌<>◌, ltb, leb, if◌then◌else◌, on_option, decimal, length,
}
use the_black_hole.Prelude.Results.{ℤ, pos, negsuc, Result, ok, err}

-- The limit on the size of a body, `maxResponseBytes`.
abbrev pub max_response_bytes : ℕ
max_response_bytes = 10485760

-- A response: its status, and what `io.ReadAll` gives of its body, up to one byte past the limit.
pub record Response : Type 0 where
  pub status : ℕ
  pub body : Result (List ℕ)

-- The values of `doWithRetry`: a response and its body, an error, or neither.
pub data Sent : Type 0 where
  answered : (status : ℕ) (body : List ℕ) → Sent
  failed : String → Sent
  nothing : Sent

-- The state `S` has the network, the clock and the source of randomness. `wait` is the `select` on the
-- context and on a timer of a backoff in nanoseconds, which it changes by a jitter; it gives the error of
-- the context where that ends first.
pub record Network (S : Type 0) : Type 0 where
  pub do_request : S → S × Result Response
  pub wait : (backoff : ℤ) → S → S × Option String
  pub max_retries : ℤ

-- `isIdempotent`
unfoldable pub is_idempotent : String → Bool
is_idempotent method = method === "GET" || method === "HEAD" || method === "OPTIONS"

abbrev pub pow2 : ℕ → ℕ
pow2 zero = 1
pow2 (suc n) = 2 * pow2 n

-- A number of 64 bits, read with its sign.
unfoldable pub signed : ℕ → ℤ
signed n = let m = n % pow2 64 in if ltb m (pow2 63) then pos m else negsuc (pow2 64 - m - 1)

-- `backoff`, before the jitter: 100 milliseconds, doubled with each retry, and at most two seconds. The
-- arithmetic on an int64 wraps around.
unfoldable pub backoff : (attempt : ℕ) → ℤ
unfolding signed
backoff attempt = elim (signed (100 * pow2 (attempt - 1) * 1000000)) [
  | pos n ↦ if ltb 2000000000 n then pos 2000000000 else pos n
  | negsuc n ↦ negsuc n
]

-- The rounds of a loop from 0 up to a number, which is excluded.
unfoldable pub rounds : ℤ → ℕ
rounds (pos n) = n
rounds (negsuc n) = 0

-- `attempts`, as the number of rounds. The sum wraps around: the largest int64 gives a negative number.
unfoldable pub attempts : (max_retries : ℤ) (method : String) → ℕ
unfolding is_idempotent signed rounds
attempts (pos (suc n)) method = if is_idempotent method then rounds (signed (suc n + 1)) else 1
attempts _ method = 1

-- What a response makes of the loop: it ends with a value, or the next round begins with an error.
pub data Round : Type 0 where
  done : Sent → Round
  again : (last_err : String) → Round

-- The end of a round, with a body that was read.
unfoldable pub judge : (method : String) (has_more : Bool) (status : ℕ) (body : List ℕ) → Round
unfolding is_idempotent
judge method has_more status body =
    if ltb max_response_bytes (length body)
    then done (
        failed (
          "response body exceeds maximum allowed size of "
          <> decimal max_response_bytes
          <> " bytes"))
    else if leb 500 status && is_idempotent method && has_more
    then again ("target API returned status " <> decimal status)
    else done (answered status body)

-- A round, from the response on.
unfoldable pub judge_response : (method : String) (has_more : Bool) → Result Response → Round
unfolding judge
judge_response method has_more (err e) = again ("http request failed: " <> e)
judge_response method has_more (ok resp) = elim resp.body [
  | err e ↦ again ("failed to read response body: " <> e)
  | ok body ↦ judge method has_more resp.status body
]

-- Ends with the value of a round, or goes on with its error.
abbrev pub after : {S : Type 0} → Round → S → (String → S × Sent) → S × Sent
after (done sent) s go_on = (s, sent)
after (again e) s go_on = go_on e

module _ {S : Type 0} (net : Network S) where
  -- The wait before every round but the first.
  unfoldable pub pause : (attempt : ℕ) → S → S × Option String
  unfolding backoff
  pause zero s = (s, none)
  pause (suc n) s = net.wait (backoff (suc n)) s

  -- The loop of `doWithRetry`, of which `left` rounds remain from the one with the number `attempt` on.
  -- No error yet is `none`.
  unfoldable pub retry :
      (method : String) (left attempt : ℕ) → (last_err : Option String) → S → S × Sent
  unfolding pause judge_response
  retry method zero attempt none s = (s, nothing)
  retry method zero attempt (some e) s = (s, failed e)
  retry method (suc left) attempt last_err s =
      let (s1, stopped) = pause attempt s in
      let (s2, response) = net.do_request s1 in
      on_option stopped
        (after (judge_response method (ltb 0 left) response) s2
          (λ e. retry method left (attempt + 1) (some e) s2))
        (λ e. (s1, failed e))

  -- `doWithRetry`
  unfoldable pub do_with_retry : (method : String) → S → S × Sent
  unfolding attempts retry
  do_with_retry method s = retry method (attempts net.max_retries method) 0 none s
