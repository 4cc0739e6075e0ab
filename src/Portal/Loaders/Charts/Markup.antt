-- ===== src/Portal/Loaders/Charts/Markup.antt =====
-- The charts as markup: the names of tools add nothing to it.
use the_black_hole.Prelude.{
  ℕ, ◌+◌, String, List, [], ◌∷◌, ◌≡◌, refl, ap, ◌∙◌, ◌<>◌, occurrences, occurrences-<>, length,
  arith,
}
use the_black_hole.Portal.Types.{Log}
use the_black_hole.Portal.World.{Doubles}
use the_black_hole.Portal.Html.{escape_html}
use the_black_hole.Portal.Html.Rows.Markup.{open_escaped, quote_escaped}
use the_black_hole.Portal.Loaders.Charts.{
  max_latency, max_count, y_of, point, lines_to, path_d, area_d, latency_frame, latency_dot,
  latency_dots, latency_chart, row_y, bar_width, frequency_row, frequency_rows, frequency_frame,
  frequency_chart,
}

-- The same calls, of tools with other names.
abbrev pub rename : (String → String) → List Log → List Log
rename f [] = []
rename f (l ∷ ls) = record l { tool_name = f l.tool_name } ∷ rename f ls

abbrev pub rename_counts : (String → String) → List (String × ℕ) → List (String × ℕ)
rename_counts f [] = []
rename_counts f ((name, n) ∷ m) = (f name, n) ∷ rename_counts f m

length-rename : (f : String → String) (ls : List Log) → length (rename f ls) ≡ length ls
length-rename f [] = refl
length-rename f (l ∷ ls) = let rest = length-rename f ls in ground arith

length-rename_counts :
    (f : String → String) (m : List (String × ℕ)) → length (rename_counts f m) ≡ length m
length-rename_counts f [] = refl
length-rename_counts f ((name, n) ∷ m) = let rest = length-rename_counts f m in ground arith

max_latency-rename :
    (f : String → String) (ls : List Log) → max_latency (rename f ls) ≡ max_latency ls
unfolding max_latency
max_latency-rename f [] = refl
max_latency-rename f (l ∷ ls) = let rest = max_latency-rename f ls in rw rest refl

max_count-rename_counts :
    (f : String → String) (m : List (String × ℕ)) → max_count (rename_counts f m) ≡ max_count m
unfolding max_count
max_count-rename_counts f [] = refl
max_count-rename_counts f ((name, n) ∷ m) = let rest = max_count-rename_counts f m in rw rest refl

module _ (d : Doubles) (width : ℕ) (f : String → String) where
  lines_to-rename :
      (n top i : ℕ) (ls : List Log)
      → lines_to d width n top i (rename f ls) ≡ lines_to d width n top i ls
  unfolding lines_to point y_of
  lines_to-rename n top i [] = refl
  lines_to-rename n top i (l ∷ ls) = rw (lines_to-rename n top (i + 1) ls) refl

  path_d-rename :
      (n top : ℕ) (ls : List Log) → path_d d width n top (rename f ls) ≡ path_d d width n top ls
  unfolding path_d point y_of
  path_d-rename n top [] = refl
  path_d-rename n top (l ∷ ls) = rw (lines_to-rename n top 1 ls) refl

  area_d-rename :
      (n top : ℕ) (ls : List Log) → area_d d width n top (rename f ls) ≡ area_d d width n top ls
  unfolding area_d point y_of
  area_d-rename n top [] = refl
  area_d-rename n top (l ∷ ls) = rw (lines_to-rename n top 1 ls) refl

  -- A character that escaped text does not have.
  module _ (c : ℕ) (escaped : (s : String) → occurrences c (escape_html s) ≡ 0) where
    joined :
        (s s' t t' : String)
        → occurrences c s ≡ occurrences c s'
        → occurrences c t ≡ occurrences c t'
        → occurrences c (s <> t) ≡ occurrences c (s' <> t')
    joined s s' t t' h k =
        let left = occurrences-<> c s t in
        let right = occurrences-<> c s' t' in omega (arith, left, right, h, k)

    latency_dot-rename :
        (n top i : ℕ) (l : Log)
        → occurrences c (latency_dot d width n top i (record l { tool_name = f l.tool_name }))
          ≡ occurrences c (latency_dot d width n top i l)
    unfolding latency_dot y_of
    latency_dot-rename n top i l = simp (occurrences-<>, escaped)

    latency_dots-rename :
        (n top i : ℕ) (ls : List Log)
        → occurrences c (latency_dots d width n top i (rename f ls))
          ≡ occurrences c (latency_dots d width n top i ls)
    unfolding latency_dots
    latency_dots-rename n top i [] = refl
    latency_dots-rename n top i (l ∷ ls) =
        joined (latency_dot d width n top i (record l { tool_name = f l.tool_name }))
          (latency_dot d width n top i l) (latency_dots d width n top (i + 1) (rename f ls))
          (latency_dots d width n top (i + 1) ls) (latency_dot-rename n top i l)
          (latency_dots-rename n top (i + 1) ls)

    latency_chart-rename :
        (ls : List Log)
        → occurrences c (latency_chart d width (rename f ls))
          ≡ occurrences c (latency_chart d width ls)
    unfolding latency_chart
    latency_chart-rename ls =
        let n = length ls in
        let top = max_latency ls in
        let frame = latency_frame d width top (area_d d width n top ls) (path_d d width n top ls) in
        let same : latency_chart d width (rename f ls)
            ≡ frame <> latency_dots d width n top 0 (rename f ls) <> "</svg>" =
          rw
            (
              length-rename f ls,
              max_latency-rename f ls,
              path_d-rename n top ls,
              area_d-rename n top ls,
            )
            refl in
        ap (occurrences c) same
        ∙ joined frame frame (latency_dots d width n top 0 (rename f ls) <> "</svg>")
            (latency_dots d width n top 0 ls <> "</svg>") refl
            (joined (latency_dots d width n top 0 (rename f ls)) (latency_dots d width n top 0 ls)
              "</svg>" "</svg>" (latency_dots-rename n top 0 ls) refl)

    frequency_row-rename :
        (y bar : ℕ) (name : String) (count : ℕ)
        → occurrences c (frequency_row d width y bar (f name) count)
          ≡ occurrences c (frequency_row d width y bar name count)
    unfolding frequency_row
    frequency_row-rename y bar name count = simp (occurrences-<>, escaped)

    frequency_rows-rename :
        (n top i : ℕ) (m : List (String × ℕ))
        → occurrences c (frequency_rows d width n top i (rename_counts f m))
          ≡ occurrences c (frequency_rows d width n top i m)
    unfolding frequency_rows
    frequency_rows-rename n top i [] = refl
    frequency_rows-rename n top i ((name, count) ∷ m) =
        let y = row_y d width n i in
        let bar = bar_width d width top count in
        joined (frequency_row d width y bar (f name) count) (frequency_row d width y bar name count)
          (frequency_rows d width n top (i + 1) (rename_counts f m))
          (frequency_rows d width n top (i + 1) m) (frequency_row-rename y bar name count)
          (frequency_rows-rename n top (i + 1) m)

    frequency_chart-rename :
        (m : List (String × ℕ))
        → occurrences c (frequency_chart d width (rename_counts f m))
          ≡ occurrences c (frequency_chart d width m)
    unfolding frequency_chart
    frequency_chart-rename m =
        let rows = frequency_rows d width (length m) (max_count m) 0 in
        let frame = frequency_frame d width in
        let same : frequency_chart d width (rename_counts f m)
            ≡ frame <> rows (rename_counts f m) <> "</svg>" =
          rw (length-rename_counts f m, max_count-rename_counts f m) refl in
        ap (occurrences c) same
        ∙ joined frame frame (rows (rename_counts f m) <> "</svg>") (rows m <> "</svg>") refl (
            joined (rows (rename_counts f m)) (rows m) "</svg>" "</svg>"
              (frequency_rows-rename (length m) (max_count m) 0 m) refl)

  -- Both charts have as many opening angle brackets and quotation marks as the charts of the same calls
  -- of tools with any other names: no name adds a tag, or ends an attribute.
  pub latency_chart_markup :
      (ls : List Log) (m : List (String × ℕ))
      → (occurrences b'<' (latency_chart d width (rename f ls))
          ≡ occurrences b'<' (latency_chart d width ls))
        × (occurrences b'"' (latency_chart d width (rename f ls))
            ≡ occurrences b'"' (latency_chart d width ls))
        × (occurrences b'<' (frequency_chart d width (rename_counts f m))
            ≡ occurrences b'<' (frequency_chart d width m))
        × (occurrences b'"' (frequency_chart d width (rename_counts f m))
            ≡ occurrences b'"' (frequency_chart d width m))
  latency_chart_markup ls m = (
    latency_chart-rename b'<' open_escaped ls,
    latency_chart-rename b'"' quote_escaped ls,
    frequency_chart-rename b'<' open_escaped m,
    frequency_chart-rename b'"' quote_escaped m,
  )
