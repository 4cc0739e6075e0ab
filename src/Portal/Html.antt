-- ===== src/Portal/Html.antt =====
-- `escapeHtml` of pkg/portal/static/app.js; the markup that is built with it is below.
pub mod Escape
pub mod Rows
pub mod Badges
use Prim.Native.String
use the_black_hole.Prelude.{String, ◌<>◌, if◌then◌else◌, Char, code, ◌==◌}

-- The table `map` of `escapeHtml`.
unfoldable pub escape_char : Char → String
escape_char c =
    if code c == b'&'
    then "&amp;"
    else if code c == b'<'
    then "&lt;"
    else if code c == b'>'
    then "&gt;"
    else if code c == b'"'
    then "&quot;"
    else if code c == b'\''
    then "&#039;"
    else String.◌∷◌ c ""

-- `escapeHtml`; the empty text, and a missing one, give the empty text.
unfoldable pub escape_html : String → String
unfolding escape_char
escape_html String.[] = ""
escape_html (String.◌∷◌ c s) = escape_char c <> escape_html s
