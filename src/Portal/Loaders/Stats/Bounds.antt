-- ===== src/Portal/Loaders/Stats/Bounds.antt =====
-- The bounds of the numbers that the dashboard and the telemetry view show.
use the_black_hole.Prelude.{
  ℕ, ◌+◌, ◌*◌, ◌≤◌, ◌<◌, List, [], ◌∷◌, All, length, length-keep_if-le, arith, ◌===◌,
}
use native.Mathlib.Nat.{div-lt_iff_lt-mul, le-div_iff_mul-le}
use the_black_hole.Portal.Types.{Log}
use the_black_hole.Portal.Loaders.Stats.{
  total_duration, round_div, mean_latency, successes, success_rate,
}

round_div-le : (a b c : ℕ) → a ≤ c * b → 0 < b → round_div a b ≤ c
unfolding round_div
round_div-le a b c h p =
    let small =
      (div-lt_iff_lt-mul {k = 2 * b} {x = 2 * a + b} {y = c + 1} (omega arith)).1 (omega arith) in
    omega arith

-- The share of the successful requests that the telemetry view shows is at most 100 percent.
pub success_rate-le : (l : Log) (ls : List Log) → success_rate (l ∷ ls) ≤ 100
unfolding success_rate successes
success_rate-le l ls =
    round_div-le _ _ 100 (omega (arith, length-keep_if-le (λ k. k.status === "success") (l ∷ ls)))
      (omega arith)

le-round_div : (a b c : ℕ) → c * b ≤ a → 0 < b → c ≤ round_div a b
unfolding round_div
le-round_div a b c h p =
    (le-div_iff_mul-le {k = 2 * b} {x = c} {y = 2 * a + b} (omega arith)).1 (omega arith)

total_duration-bounds :
    (lo hi : ℕ) (logs : List Log)
    → All (λ l. (lo ≤ l.duration_ms) × (l.duration_ms ≤ hi)) logs
    → (lo * length logs ≤ total_duration logs) × (total_duration logs ≤ hi * length logs)
unfolding total_duration
total_duration-bounds lo hi [] h = (omega arith, omega arith)
total_duration-bounds lo hi (l ∷ ls) ((h0, h1), h) =
    let (i0, i1) = total_duration-bounds lo hi ls h in (omega arith, omega arith)

-- The mean latency that the dashboard shows for a log that is not empty lies between any two bounds
-- of the durations.
pub mean_latency-bounds :
    (lo hi : ℕ) (l : Log) (ls : List Log)
    → All (λ k. (lo ≤ k.duration_ms) × (k.duration_ms ≤ hi)) (l ∷ ls)
    → (lo ≤ mean_latency (l ∷ ls)) × (mean_latency (l ∷ ls) ≤ hi)
unfolding mean_latency
mean_latency-bounds lo hi l ls h =
    let (i0, i1) = total_duration-bounds lo hi (l ∷ ls) h in
    (le-round_div _ _ lo i0 (omega arith), round_div-le _ _ hi i1 (omega arith))
