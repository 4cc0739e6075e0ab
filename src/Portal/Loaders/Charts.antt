-- ===== src/Portal/Loaders/Charts.antt =====
-- The two charts of the telemetry view, as markup. Numbers that app.js has as whole numbers are exact;
-- what it divides is computed by the browser in floating point.
pub mod Markup
use the_black_hole.Prelude.{
  ℕ, suc, ◌+◌, ◌-◌, ◌/◌, String, List, [], ◌∷◌, Bool, ◌<>◌, ◌==◌, ltb, if◌then◌else◌, decimal,
  length, zero, Char, code, true, false,
}
use the_black_hole.Portal.Types.{Log}
use the_black_hole.Portal.World.{Doubles}
use the_black_hole.Portal.Html.{escape_html}

-- `height`, and of the latency chart `paddingTop` and `chartHeight`
abbrev pub chart_box : ℕ
chart_box = 220

abbrev pub padding_top : ℕ
padding_top = 20

abbrev pub chart_height : ℕ
chart_height = 170

-- `Math.max(...data.map(d => d.duration_ms), 50)`
unfoldable pub max_latency : List Log → ℕ
max_latency [] = 50
max_latency (l ∷ ls) =
    let rest = max_latency ls in if ltb rest l.duration_ms then l.duration_ms else rest

-- `Math.max(...data.map(d => d.count), 5)`
unfoldable pub max_count : List (String × ℕ) → ℕ
max_count [] = 5
max_count ((name, n) ∷ m) = let rest = max_count m in if ltb rest n then n else rest

-- A character of two units of UTF-16, which are what JavaScript counts.
unfoldable pub is_wide : Char → Bool
is_wide c = ltb 65535 (code c)

-- `d.name.length`
unfoldable pub name_length : String → ℕ
unfolding is_wide
name_length String.[] = 0
name_length (String.◌∷◌ c s) = name_length s + (if is_wide c then 2 else 1)

-- `d.name.substring(0, n)`. Half of a character, at the end, is shown as the replacement character.
unfoldable pub substring : (n : ℕ) → String → String
unfolding is_wide
substring zero s = ""
substring (suc n) String.[] = ""
substring (suc zero) (String.◌∷◌ c s) = if is_wide c then "�" else String.◌∷◌ c ""
substring (suc (suc n)) (String.◌∷◌ c s) = elim (is_wide c) [
  | true ↦ String.◌∷◌ c (substring n s)
  | false ↦ String.◌∷◌ c (substring (suc n) s)
]

-- `displayName`
unfoldable pub display_name : String → String
unfolding name_length substring
display_name name = if ltb 22 (name_length name) then substring 19 name <> "..." else name

-- `wrapper.clientWidth || 400`
unfoldable pub width_of : (client_width : ℕ) → ℕ
width_of client_width = if client_width == 0 then 400 else client_width

module _ (d : Doubles) (width : ℕ) where
  -- `x` of the point with the number `i` of `n` points
  unfoldable pub x_of : (n i : ℕ) → ℕ
  x_of n i = d.plus (d.of_nat 40) (
      d.times (d.divide (d.of_nat i) (d.of_nat (if n - 1 == 0 then 1 else n - 1)))
        (d.minus (d.minus (d.of_nat width) (d.of_nat 40)) (d.of_nat 10)))

  -- `y` of a point, where `top` is the longest time
  unfoldable pub y_of : (top : ℕ) → Log → ℕ
  y_of top l =
      d.minus (d.of_nat (padding_top + chart_height))
        (d.times (d.divide (d.of_nat l.duration_ms) (d.of_nat top)) (d.of_nat chart_height))

  unfoldable pub point : (n top i : ℕ) → Log → String
  unfolding x_of y_of
  point n top i l = d.text (x_of n i) <> " " <> d.text (y_of top l)

  -- What the loop from 1 on adds to both paths.
  unfoldable pub lines_to : (n top i : ℕ) → List Log → String
  unfolding point
  lines_to n top i [] = ""
  lines_to n top i (l ∷ ls) = " L " <> point n top i l <> lines_to n top (i + 1) ls

  -- `pathD` and `areaD`
  unfoldable pub path_d : (n top : ℕ) → List Log → String
  unfolding lines_to
  path_d n top [] = ""
  path_d n top (l ∷ ls) = "M " <> point n top 0 l <> lines_to n top 1 ls

  unfoldable pub area_d : (n top : ℕ) → List Log → String
  unfolding lines_to
  area_d n top [] = ""
  area_d n top (l ∷ ls) =
      "M "
      <> d.text (x_of n 0)
      <> " "
      <> decimal (padding_top + chart_height)
      <> " L "
      <> point n top 0 l
      <> lines_to n top 1 ls
      <> " L "
      <> d.text (x_of n (n - 1))
      <> " "
      <> decimal (padding_top + chart_height)
      <> " Z"

  -- The drawing, up to the dots.
  unfoldable pub latency_frame : (top : ℕ) (area path : String) → String
  latency_frame top area path =
      "\n"
      <> "    <svg width=\"100%\" height=\"100%\" viewBox=\"0 0 "
      <> decimal width
      <> " "
      <> decimal chart_box
      <> "\" xmlns=\"http://www.w3.org/2000/svg\">\n"
      <> "        <defs>\n"
      <> "            <linearGradient id=\"area-grad\" x1=\"0\" y1=\"0\" x2=\"0\" y2=\"1\">\n"
      <> "                <stop offset=\"0%\" stop-color=\"var(--primary-color)\" stop-opacity=\"0.3\"/>\n"
      <> "                <stop offset=\"100%\" stop-color=\"var(--primary-color)\" stop-opacity=\"0.0\"/>\n"
      <> "            </linearGradient>\n"
      <> "        </defs>\n"
      <> "        <!-- Horizontal grid lines -->\n"
      <> "        <line x1=\""
      <> decimal 40
      <> "\" y1=\""
      <> decimal padding_top
      <> "\" x2=\""
      <> d.text (d.minus (d.of_nat width) (d.of_nat 10))
      <> "\" y2=\""
      <> decimal padding_top
      <> "\" stroke=\"hsla(0,0%,100%,0.08)\" stroke-dasharray=\"3,3\"/>\n"
      <> "        <line x1=\""
      <> decimal 40
      <> "\" y1=\""
      <> decimal (padding_top + chart_height / 2)
      <> "\" x2=\""
      <> d.text (d.minus (d.of_nat width) (d.of_nat 10))
      <> "\" y2=\""
      <> decimal (padding_top + chart_height / 2)
      <> "\" stroke=\"hsla(0,0%,100%,0.08)\" stroke-dasharray=\"3,3\"/>\n"
      <> "        <line x1=\""
      <> decimal 40
      <> "\" y1=\""
      <> decimal (padding_top + chart_height)
      <> "\" x2=\""
      <> d.text (d.minus (d.of_nat width) (d.of_nat 10))
      <> "\" y2=\""
      <> decimal (padding_top + chart_height)
      <> "\" stroke=\"hsla(0,0%,100%,0.15)\"/>\n"
      <> "        \n"
      <> "        <!-- Y-axis labels -->\n"
      <> "        <text x=\""
      <> decimal (40 - 8)
      <> "\" y=\""
      <> decimal (padding_top + 4)
      <> "\" fill=\"var(--text-secondary)\" font-size=\"10\" text-anchor=\"end\">"
      <> decimal top
      <> "ms</text>\n"
      <> "        <text x=\""
      <> decimal (40 - 8)
      <> "\" y=\""
      <> decimal (padding_top + chart_height / 2 + 4)
      <> "\" fill=\"var(--text-secondary)\" font-size=\"10\" text-anchor=\"end\">"
      <> decimal ((top + 1) / 2)
      <> "ms</text>\n"
      <> "        <text x=\""
      <> decimal (40 - 8)
      <> "\" y=\""
      <> decimal (padding_top + chart_height + 4)
      <> "\" fill=\"var(--text-secondary)\" font-size=\"10\" text-anchor=\"end\">0ms</text>\n"
      <> "\n"
      <> "        <!-- Area chart -->\n"
      <> "        <path d=\""
      <> area
      <> "\" fill=\"url(#area-grad)\"/>\n"
      <> "\n"
      <> "        <!-- Line chart -->\n"
      <> "        <path d=\""
      <> path
      <> "\" fill=\"none\" stroke=\"var(--primary-color)\" stroke-width=\"2.5\" stroke-linecap=\"round\"/>\n"
      <> "\n"
      <> "        <!-- Data dots -->\n"
      <> "    "

  -- The dot of a point, with its title.
  unfoldable pub latency_dot : (n top i : ℕ) → Log → String
  unfolding x_of y_of
  latency_dot n top i l =
      "\n"
      <> "        <circle cx=\""
      <> d.text (x_of n i)
      <> "\" cy=\""
      <> d.text (y_of top l)
      <> "\" r=\"4\" fill=\"hsl(220, 15%, 15%)\" stroke=\"var(--primary-color)\" stroke-width=\"2\" style=\"cursor: pointer;\">\n"
      <> "            <title>"
      <> escape_html l.tool_name
      <> "\n"
      <> "Latency: "
      <> decimal l.duration_ms
      <> "ms</title>\n"
      <> "        </circle>\n"
      <> "        "

  unfoldable pub latency_dots : (n top i : ℕ) → List Log → String
  unfolding latency_dot
  latency_dots n top i [] = ""
  latency_dots n top i (l ∷ ls) = latency_dot n top i l <> latency_dots n top (i + 1) ls

  -- `renderLatencyChart` for data that is there
  unfoldable pub latency_chart : List Log → String
  unfolding max_latency path_d area_d latency_frame latency_dots
  latency_chart ls =
      let n = length ls in
      let top = max_latency ls in
      latency_frame top (area_d n top ls) (path_d n top ls) <> latency_dots n top 0 ls <> "</svg>"

  -- `chartWidth`, `barWidth` and `y` of the frequency chart, of `n` rows
  unfoldable pub bars_width : ℕ
  bars_width = d.minus (d.minus (d.of_nat width) (d.of_nat 140)) (d.of_nat 20)

  unfoldable pub bar_width : (top count : ℕ) → ℕ
  unfolding bars_width
  bar_width top count = d.times (d.divide (d.of_nat count) (d.of_nat top)) bars_width

  unfoldable pub row_y : (n i : ℕ) → ℕ
  row_y n i =
      let height = d.divide (d.of_nat 190) (d.of_nat n) in
      d.plus (d.plus (d.of_nat 10) (d.times (d.of_nat i) height))
        (d.divide (d.minus height (d.of_nat 14)) (d.of_nat 2))

  -- The label, the bar and the number of a tool.
  unfoldable pub frequency_row : (y bar : ℕ) (name : String) (count : ℕ) → String
  unfolding bars_width display_name
  frequency_row y bar name count =
      "\n"
      <> "        <!-- Tool Name label -->\n"
      <> "        <text x=\""
      <> decimal (140 - 10)
      <> "\" y=\""
      <> d.text (d.plus y (d.of_nat 11))
      <> "\" fill=\"var(--text-secondary)\" font-size=\"11\" text-anchor=\"end\">"
      <> escape_html (display_name name)
      <> "</text>\n"
      <> "        \n"
      <> "        <!-- Bar Background -->\n"
      <> "        <rect x=\""
      <> decimal 140
      <> "\" y=\""
      <> d.text y
      <> "\" width=\""
      <> d.text bars_width
      <> "\" height=\"14\" rx=\"3\" fill=\"hsla(0,0%,100%,0.03)\" />\n"
      <> "        \n"
      <> "        <!-- Bar Fill with orange glow -->\n"
      <> "        <rect x=\""
      <> decimal 140
      <> "\" y=\""
      <> d.text y
      <> "\" width=\""
      <> d.text bar
      <> "\" height=\"14\" rx=\"3\" fill=\"var(--primary-color)\" opacity=\"0.85\">\n"
      <> "            <title>Calls: "
      <> decimal count
      <> "</title>\n"
      <> "        </rect>\n"
      <> "        \n"
      <> "        <!-- Bar Label -->\n"
      <> "        <text x=\""
      <> d.text (d.plus (d.plus (d.of_nat 140) bar) (d.of_nat 8))
      <> "\" y=\""
      <> d.text (d.plus y (d.of_nat 11))
      <> "\" fill=\"var(--text-primary)\" font-size=\"11\">"
      <> decimal count
      <> "</text>\n"
      <> "        "

  unfoldable pub frequency_rows : (n top i : ℕ) → List (String × ℕ) → String
  unfolding frequency_row row_y bar_width
  frequency_rows n top i [] = ""
  frequency_rows n top i ((name, count) ∷ m) =
      frequency_row (row_y n i) (bar_width top count) name count <> frequency_rows n top (i + 1) m

  -- The drawing, up to the rows.
  unfoldable pub frequency_frame : String
  frequency_frame =
      "\n"
      <> "    <svg width=\"100%\" height=\"100%\" viewBox=\"0 0 "
      <> decimal width
      <> " "
      <> decimal chart_box
      <> "\" xmlns=\"http://www.w3.org/2000/svg\">\n"
      <> "    "

  -- `renderFrequencyChart` for data that is there
  unfoldable pub frequency_chart : List (String × ℕ) → String
  unfolding max_count frequency_rows frequency_frame
  frequency_chart m = frequency_frame <> frequency_rows (length m) (max_count m) 0 m <> "</svg>"
