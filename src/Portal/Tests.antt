-- ===== src/Portal/Tests.antt =====
-- The theorems at concrete inputs.
use the_black_hole.Prelude.{
  occurrences, List, ◌<>◌, ℕ, ◌≤◌, ◌<◌, ◌*◌, ◌≡◌, refl, [], ◌∷◌, some, All, arith, length, leb, ◌⊎◌,
}
use the_black_hole.Portal.Page.{on_element, hide, show}
use the_black_hole.Portal.Session.{init_auth}
use the_black_hole.Portal.Types.{Log}
use the_black_hole.Portal.Loaders.Charts.{latency_chart, frequency_chart}
use the_black_hole.Portal.Loaders.Charts.Markup.{rename, rename_counts, latency_chart_markup}
use the_black_hole.Portal.Samples.{fresh, log, weather, plain, tool}
use the_black_hole.Portal.Html.{escape_html}
use the_black_hole.Portal.Html.Escape.{displayed, displayed-escape_html}
use the_black_hole.Portal.Loaders.Stats.{p95_latency}
use the_black_hole.Portal.Loaders.Stats.Sorting.{entries, p95_latency-IsPercentile}
use the_black_hole.Portal.Loaders.Conflicts.{clashing, resolve_names, full_name, name_of}
use the_black_hole.Portal.Loaders.Conflicts.Sources.{sources_of, clashing-sources}
use the_black_hole.Portal.Loaders.Telemetry.{frequency_data}
use the_black_hole.Portal.Loaders.Telemetry.Counts.{
  count_of, IsDescending, IsPlain, frequency_data-IsTop,
}
use the_black_hole.Portal.Loop.{act, reload, logout, start_page, step}
use the_black_hole.Portal.Loop.Session.{logout_reload}
use the_black_hole.Portal.Dialogs.{rand_hex}
use the_black_hole.Portal.Dialogs.Hex.{parse_hex, parse_hex-rand_hex}

displayed-escape_html_example :
    displayed 20 (escape_html "a < \"b\" & 'c'") ≡ some "a < \"b\" & 'c'"
displayed-escape_html_example = displayed-escape_html 20 "a < \"b\" & 'c'" (omega arith)

p95_latency-IsPercentile_example :
    (d : ℕ) × (p95_latency (log "a" ∷ log "b" ∷ []) ≡ some d)
    × (95 * length (log "a" ∷ log "b" ∷ []) < 100 * entries (λ a. leb a d) (log "a" ∷ log "b" ∷ []))
    × (5 * length (log "a" ∷ log "b" ∷ []) ≤ 100 * entries (λ a. leb d a) (log "a" ∷ log "b" ∷ []))
p95_latency-IsPercentile_example = p95_latency-IsPercentile (log "a") (log "b" ∷ [])

clashing-sources_example :
    sources_of "w_now" (
      clashing (resolve_names (weather ∷ plain ∷ []) (tool "c1" "now" ∷ tool "c2" "w_now" ∷ []) []))
    ≡ "Weather" ∷ "Plain" ∷ []
unfolding full_name name_of
clashing-sources_example =
    clashing-sources "w_now" (weather ∷ plain ∷ []) (tool "c1" "now" ∷ tool "c2" "w_now" ∷ [])

a-IsPlain : IsPlain (log "a")
a-IsPlain = (
  refl,
  (refl, (refl, (refl, (refl, (refl, (refl, (refl, (refl, (refl, (refl, (refl, tt))))))))))),
)

b-IsPlain : IsPlain (log "b")
b-IsPlain = (
  refl,
  (refl, (refl, (refl, (refl, (refl, (refl, (refl, (refl, (refl, (refl, (refl, tt))))))))))),
)

frequency_data-IsTop_example :
    (length (frequency_data (log "a" ∷ log "b" ∷ log "a" ∷ [])) ≤ 5)
    × IsDescending (frequency_data (log "a" ∷ log "b" ∷ log "a" ∷ []))
    × ((count_of "a" (frequency_data (log "a" ∷ log "b" ∷ log "a" ∷ [])) ≡ 2)
        ⊎ All (λ e. 2 ≤ e.1) (frequency_data (log "a" ∷ log "b" ∷ log "a" ∷ [])))
frequency_data-IsTop_example =
    frequency_data-IsTop "a" (log "a" ∷ log "b" ∷ log "a" ∷ [])
      (a-IsPlain, (b-IsPlain, (a-IsPlain, tt)))

logout_reload_example :
    ((step reload (step (act logout) (start_page fresh))).pool ≡ [])
    × ((step reload (step (act logout) (start_page fresh))).world.state.token ≡ "")
    × ((step reload (step (act logout) (start_page fresh))).world.sent
        ≡ (start_page fresh).world.sent)
unfolding start_page init_auth show on_element hide
logout_reload_example = logout_reload (start_page fresh) refl

parse_hex-rand_hex_example : parse_hex (rand_hex (0 ∷ 255 ∷ 16 ∷ [])) ≡ 0 ∷ 255 ∷ 16 ∷ []
parse_hex-rand_hex_example =
    parse_hex-rand_hex (0 ∷ 255 ∷ 16 ∷ []) (omega arith, (omega arith, (omega arith, tt)))

-- Integers in place of the browser's numbers; one tool is named as a tag.
abbrev slow : List Log
slow = record (log "a") { tool_name = "<b>" } ∷ log "a" ∷ []

latency_chart_markup_example :
    (occurrences b'<' (latency_chart fresh.browser.doubles 400 (rename (λ s. s <> "<") slow))
      ≡ occurrences b'<' (latency_chart fresh.browser.doubles 400 slow))
    × (occurrences b'"' (latency_chart fresh.browser.doubles 400 (rename (λ s. s <> "<") slow))
        ≡ occurrences b'"' (latency_chart fresh.browser.doubles 400 slow))
    × (occurrences b'<' (
          frequency_chart fresh.browser.doubles 400
            (rename_counts (λ s. s <> "<") (("<b>", 2) ∷ [])))
        ≡ occurrences b'<' (frequency_chart fresh.browser.doubles 400 (("<b>", 2) ∷ [])))
    × (occurrences b'"' (
          frequency_chart fresh.browser.doubles 400
            (rename_counts (λ s. s <> "<") (("<b>", 2) ∷ [])))
        ≡ occurrences b'"' (frequency_chart fresh.browser.doubles 400 (("<b>", 2) ∷ [])))
latency_chart_markup_example =
    latency_chart_markup fresh.browser.doubles 400 (λ s. s <> "<") slow (("<b>", 2) ∷ [])
