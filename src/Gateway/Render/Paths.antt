-- ===== src/Gateway/Render/Paths.antt =====
-- The structure of a rendered path: no value adds a segment, a query or a fragment.
use the_black_hole.Prelude.{
  ℕ, zero, suc, ◌-◌, ◌≤◌, String, ◌||◌, ◌==◌, ◌≡◌, ◌≢◌, refl, ap, subst, Char, code, ◌<>◌, false,
  true, if◌then◌else◌, if_cases, has_prefix, occurrences, occurrences-<>, arith,
}
use the_black_hole.Json.{Fields, end, field}
use the_black_hole.Portal.Uri.{is_unreserved, utf8_percent}
use the_black_hole.Portal.Uri.Safety.{IsQuerySafe, utf8_percent-IsQuerySafe}
use the_black_hole.Portal.Html.Escape.{AllChars}
use the_black_hole.Gateway.Render.{
  Printer, size, replace_from, replace_all, is_segment_char, path_escape, placeholder, show_value,
  render_path,
}

-- A character that no escaped value has.
abbrev pub IsDelimiter : ℕ → Type 0
IsDelimiter n = (is_segment_char n || is_unreserved n || n == b'%') ≡ false

safe_occurrences :
    (n : ℕ) (s : String) → IsDelimiter n → AllChars IsQuerySafe s → occurrences n s ≡ 0
safe_occurrences n String.[] d h = refl
safe_occurrences n (String.◌∷◌ c s) d h =
    let rest = safe_occurrences n s d h.1 in
    let here = h.0 in
    let apart = ap (λ (x : ℕ). is_unreserved x || x == b'%') {x = code c} {y = n} in ground arith

segment_char-differs :
    (n : ℕ) (c : Char) → IsDelimiter n → is_segment_char (code c) ≡ true → code c ≢ n
segment_char-differs n c d y e =
    let kept : is_segment_char n ≡ true = subst (λ x. is_segment_char x ≡ true) e y in ground arith

occurrences-other : (n : ℕ) (c : Char) → code c ≢ n → occurrences n (String.◌∷◌ c "") ≡ 0
occurrences-other n c h = ground arith

path_escape-occurrences : (n : ℕ) (s : String) → IsDelimiter n → occurrences n (path_escape s) ≡ 0
unfolding path_escape
path_escape-occurrences n String.[] d = refl
path_escape-occurrences n (String.◌∷◌ c s) d =
    let rest = path_escape-occurrences n s d in
    let escaped =
      safe_occurrences n (utf8_percent (code c)) d (utf8_percent-IsQuerySafe (code c)) in
    if_cases (λ t. occurrences n (t <> path_escape s) ≡ 0) (is_segment_char (code c)) _ _
      (λ y.
        let other = segment_char-differs n c d y in
        let first = occurrences-<> n (String.◌∷◌ c "") (path_escape s) in
        let alone = occurrences-other n c other in omega (arith, first, alone))
      (λ z. let parts = occurrences-<> n (utf8_percent (code c)) (path_escape s) in omega arith)

replace_from-occurrences :
    (n : ℕ) (old new : String) (skip : ℕ) (s : String)
    → occurrences n new ≡ 0
    → occurrences n (replace_from old new skip s) ≤ occurrences n s
unfolding replace_from
replace_from-occurrences n old new skip String.[] h = omega arith
replace_from-occurrences n old new (suc k) (String.◌∷◌ c s) h =
    let rest = replace_from-occurrences n old new k s h in ground arith
replace_from-occurrences n old new zero (String.◌∷◌ c s) h =
    let hit = has_prefix (String.◌∷◌ c s) old in
    let go = if hit then size old - 1 else 0 in
    let rest = replace_from-occurrences n old new go s h in
    let split = occurrences-<> n new (replace_from old new go s) in
    if_cases (λ t. occurrences n t ≤ occurrences n (String.◌∷◌ c s)) hit _ _ (λ y. ground arith)
      (λ n. ground arith)

render_path-delimiter :
    (p : Printer) (params : Fields) (n : ℕ) (path : String)
    → IsDelimiter n
    → occurrences n (render_path p params path) ≤ occurrences n path
unfolding render_path replace_all
render_path-delimiter p end n path d = omega arith
render_path-delimiter p (field k v params) n path d =
    let value = path_escape (show_value p v) in
    let here =
      replace_from-occurrences n (placeholder k) value 0 path
        (path_escape-occurrences n (show_value p v) d) in
    let rest = render_path-delimiter p params n (replace_all path (placeholder k) value) d in
    omega (arith, here, rest)

-- Whatever the parameters are, a rendered path has no more slashes, question marks and number signs
-- than its template.
pub render_path-occurrences :
    (p : Printer) (params : Fields) (path : String)
    → (occurrences b'/' (render_path p params path) ≤ occurrences b'/' path)
      × (occurrences b'?' (render_path p params path) ≤ occurrences b'?' path)
      × (occurrences b'#' (render_path p params path) ≤ occurrences b'#' path)
unfolding is_segment_char is_unreserved
render_path-occurrences p params path = (
  render_path-delimiter p params b'/' path refl,
  render_path-delimiter p params b'?' path refl,
  render_path-delimiter p params b'#' path refl,
)
