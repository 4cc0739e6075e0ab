-- ===== src/Portal/Loaders/Stats.antt =====
-- The numbers that the dashboard and the telemetry view show. JavaScript computes them in floating
-- point; the values are those of exact arithmetic, rounded as the source says, for the counts and
-- sums below 2^53 / 100 at which no division is close enough to a boundary to be rounded over it.
pub mod Sorting
pub mod Bounds
use the_black_hole.Prelude.{
  ℕ, ◌+◌, ◌*◌, ◌/◌, List, [], ◌∷◌, Option, ◌===◌, if◌then◌else◌, length, keep_if, get_elem?, leb,
}
use the_black_hole.Portal.Types.{Log}

-- `logs.reduce((sum, l) => sum + l.duration_ms, 0)`
unfoldable pub total_duration : List Log → ℕ
total_duration [] = 0
total_duration (l ∷ ls) = l.duration_ms + total_duration ls

-- `Math.round(a / b)` of numbers that are not negative, for a positive `b`: halves go up.
unfoldable pub round_div : ℕ → ℕ → ℕ
round_div a b = (2 * a + b) / (2 * b)

-- `stat-latency`
unfoldable pub mean_latency : List Log → ℕ
unfolding total_duration round_div
mean_latency logs = round_div (total_duration logs) (length logs)

-- `logs.filter(l => l.status === 'success').length`
unfoldable pub successes : List Log → ℕ
successes logs = length (keep_if (λ l. l.status === "success") logs)

-- `telemetry-success-rate`
unfoldable pub success_rate : List Log → ℕ
unfolding successes round_div
success_rate logs = round_div (successes logs * 100) (length logs)

-- `.sort((a, b) => a - b)`, as an insertion sort: the result is the one sorted list of the numbers.
unfoldable pub insert_sorted : ℕ → List ℕ → List ℕ
insert_sorted a [] = a ∷ []
insert_sorted a (b ∷ bs) = if leb a b then a ∷ b ∷ bs else b ∷ insert_sorted a bs

unfoldable pub sort_numbers : List ℕ → List ℕ
unfolding insert_sorted
sort_numbers [] = []
sort_numbers (a ∷ rest) = insert_sorted a (sort_numbers rest)

unfoldable pub durations : List Log → List ℕ
durations [] = []
durations (l ∷ ls) = l.duration_ms ∷ durations ls

-- `durations[Math.floor(durations.length * 0.95)]`; `none` is JavaScript's `undefined`.
unfoldable pub p95_latency : List Log → Option ℕ
unfolding durations sort_numbers
p95_latency logs =
    let sorted = sort_numbers (durations logs) in get_elem? sorted (length sorted * 95 / 100)
