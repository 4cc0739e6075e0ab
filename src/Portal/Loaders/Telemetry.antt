-- ===== src/Portal/Loaders/Telemetry.antt =====
-- The telemetry view: the scraped metrics, the numbers over the audit log, and what its two charts
-- show.
pub mod Counts
use the_black_hole.Prelude.{
  ℕ, ◌+◌, String, List, [], ◌∷◌, Option, none, some, Bool, false, not, ◌&&◌, ◌||◌, ◌===◌, ◌<>◌,
  ◌==◌, leb, if◌then◌else◌, has_prefix, decimal, length, take, keep_if, Char, code,
}
use mathlib.Core.List.{reverse}
use the_black_hole.Portal.Types.{Log}
use the_black_hole.Portal.Task.{Task, done, read, catch, ◌>>=◌, ◌>>◌}
use the_black_hole.Portal.Page.{set_text, set_html, show_toast, if_present, fetch_get, received}
use the_black_hole.Portal.Loaders.Common.{with_session, json_logs, body_text}
use the_black_hole.Portal.Loaders.Charts.{width_of, latency_chart, frequency_chart}
use the_black_hole.Portal.Loaders.Stats.{success_rate, p95_latency}

-- The white space and line ends of ECMAScript.
unfoldable pub is_space : ℕ → Bool
is_space c =
    (leb 9 c && leb c 13)
    || c == 32
    || c == 160
    || c == 5760
    || (leb 8192 c && leb c 8202)
    || c == 8232
    || c == 8233
    || c == 8239
    || c == 8287
    || c == 12288
    || c == 65279

-- `line.trim()` as a condition: is there a character that is no white space?
unfoldable pub has_ink : String → Bool
unfolding is_space
has_ink String.[] = false
has_ink (String.◌∷◌ c s) = not (is_space (code c)) || has_ink s

-- The lines behind a first character that stands in the first line.
push_front : Char → List String → List String
push_front c [] = String.◌∷◌ c "" ∷ []
push_front c (l ∷ ls) = String.◌∷◌ c l ∷ ls

-- `text.split('\n')`
unfoldable pub split_lines : String → List String
unfolding push_front
split_lines String.[] = "" ∷ []
split_lines (String.◌∷◌ c s) =
    if code c == b'\n' then "" ∷ split_lines s else push_front c (split_lines s)

unfoldable pub is_sample : String → Bool
unfolding has_ink
is_sample line = has_ink line && not (has_prefix line "#")

-- `metricsCount`
unfoldable pub metrics_count : String → ℕ
unfolding split_lines is_sample
metrics_count s = length (keep_if is_sample (split_lines s))

-- `[...logs].slice(0, 20).reverse()`, what the latency chart shows.
unfoldable pub latency_data : List Log → List Log
latency_data logs = reverse (take 20 logs)

-- `freqMap[l.tool_name] = (freqMap[l.tool_name] || 0) + 1`, with the keys in the order of their
-- insertion, as JavaScript keeps those that are no array indices. A name that every object inherits, such
-- as "constructor", is counted here as any other; in the code the function that is inherited takes
-- the place of its number, and `__proto__` never becomes an entry.
unfoldable pub count_name : String → List (String × ℕ) → List (String × ℕ)
count_name name [] = (name, 1) ∷ []
count_name name ((key, n) ∷ m) =
    if key === name then (key, n + 1) ∷ m else (key, n) ∷ count_name name m

unfoldable pub count_names : List Log → List (String × ℕ) → List (String × ℕ)
unfolding count_name
count_names [] m = m
count_names (l ∷ ls) m = count_names ls (count_name l.tool_name m)

-- `.sort((a, b) => b.count - a.count)`, which is stable.
unfoldable pub insert_count : String × ℕ → List (String × ℕ) → List (String × ℕ)
insert_count (key, n) [] = (key, n) ∷ []
insert_count (key, n) ((key', n') ∷ m) =
    if leb n' n then (key, n) ∷ (key', n') ∷ m else (key', n') ∷ insert_count (key, n) m

unfoldable pub sort_counts : List (String × ℕ) → List (String × ℕ)
unfolding insert_count
sort_counts [] = []
sort_counts (entry ∷ m) = insert_count entry (sort_counts m)

-- The five tools called most, what the frequency chart shows.
unfoldable pub frequency_data : List Log → List (String × ℕ)
unfolding count_names sort_counts
frequency_data logs = take 5 (sort_counts (count_names logs []))

-- `${durations[p95Idx]}ms`
unfoldable pub milliseconds : Option ℕ → String
milliseconds none = "undefinedms"
milliseconds (some n) = decimal n <> "ms"

abbrev pub no_chart : String
no_chart =
    "<p class=\"text-center text-muted\" style=\"line-height:220px;\">"
    <> "No execution data available</p>"

unfoldable pub rate_text : List Log → String
rate_text [] = "0%"
rate_text (l ∷ ls) = decimal (success_rate (l ∷ ls)) <> "%"

unfoldable pub p95_text : List Log → String
unfolding milliseconds
p95_text [] = "0ms"
p95_text (l ∷ ls) = milliseconds (p95_latency (l ∷ ls))

module _ {J : Type 0} where
  -- `renderLatencyChart`
  unfoldable pub render_latency_chart : List Log → Task J (Unit {0})
  render_latency_chart [] =
      if_present "latency-chart-wrapper" (set_html "latency-chart-wrapper" no_chart)
  render_latency_chart (l ∷ ls) = if_present "latency-chart-wrapper" (
      read λ w. set_html "latency-chart-wrapper" (
        latency_chart w.browser.doubles (width_of (w.browser.client_width "latency-chart-wrapper"))
          (latency_data (l ∷ ls))))

  -- `renderFrequencyChart`
  unfoldable pub render_frequency_chart : List Log → Task J (Unit {0})
  render_frequency_chart [] =
      if_present "frequency-chart-wrapper" (set_html "frequency-chart-wrapper" no_chart)
  render_frequency_chart (l ∷ ls) = if_present "frequency-chart-wrapper" (
      read λ w. set_html "frequency-chart-wrapper" (
        frequency_chart w.browser.doubles
          (width_of (w.browser.client_width "frequency-chart-wrapper")) (frequency_data (l ∷ ls))))

  unfoldable pub show_metrics : String → Task J (Unit {0})
  show_metrics s = do
    if_present "telemetry-raw-prom" (set_text "telemetry-raw-prom" s)
    set_text "telemetry-scraped-count" (decimal (metrics_count s))

  unfoldable pub show_log_numbers : List Log → Task J (Unit {0})
  show_log_numbers ls = do
    set_text "telemetry-success-rate" (rate_text ls)
    set_text "telemetry-p95-latency" (p95_text ls)
    render_latency_chart ls
    render_frequency_chart ls

  -- `loadTelemetry`
  unfoldable pub load_telemetry : Task J (Unit {0})
  load_telemetry = with_session (
      catch
        (fetch_get "/metrics" λ r1. received r1 λ ok1 metrics. do
          if ok1 then (body_text metrics >>= show_metrics) else done tt
          fetch_get "/api/logs" λ r2.
              received r2
                λ ok2 audit. if ok2 then (json_logs audit >>= show_log_numbers) else done tt)
        (λ e. show_toast "Error loading telemetry dashboard data" "error"))
