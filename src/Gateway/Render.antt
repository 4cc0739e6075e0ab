-- ===== src/Gateway/Render.antt =====
-- The templates of pkg/gateway/client.go: how `ExecuteCall` puts parameters into the path and the body of
-- a request. The encoder of encoding/json and the formats of package fmt are parameters.
pub mod Paths
use the_black_hole.Prelude.{
  ℕ, zero, suc, ◌-◌, String, List, [], ◌∷◌, Bool, true, false, not, ◌&&◌, ◌||◌, ◌==◌, ◌<>◌, ◌===◌,
  Char, code, leb, has_prefix, trim_suffix_slash, text_drop, includes, is_set, if◌then◌else◌,
}
use the_black_hole.Prelude.Results.{Result, ok, err}
use the_black_hole.Json.{Value, null, flag, number, text, array, object, Fields, end, field}
use the_black_hole.Portal.Uri.{utf8_percent}

-- `json.Marshal`, and `%v` of a value that is no text.
pub record Printer : Type 0 where
  pub marshal : Value → Result String
  pub show : Value → String

-- How many characters a text has.
abbrev pub size : String → ℕ
size String.[] = 0
size (String.◌∷◌ c s) = suc (size s)

-- `strings.ReplaceAll(s, old, new)` behind the next `skip` characters of `s`, where `old` is not empty.
unfoldable pub replace_from : (old new : String) (skip : ℕ) → String → String
replace_from old new skip String.[] = ""
replace_from old new (suc n) (String.◌∷◌ c s) = replace_from old new n s
replace_from old new zero (String.◌∷◌ c s) =
    let hit = has_prefix (String.◌∷◌ c s) old in
    let rest = replace_from old new (if hit then size old - 1 else 0) s in
    if hit then new <> rest else String.◌∷◌ c rest

unfoldable pub replace_all : (s old new : String) → String
unfolding replace_from
replace_all s old new = replace_from old new 0 s

-- The characters that `url.PathEscape` leaves: letters, digits and `-_.~$&+:=@`.
unfoldable pub is_segment_char : ℕ → Bool
is_segment_char c =
    (leb b'a' c && leb c b'z')
    || (leb b'A' c && leb c b'Z')
    || (leb b'0' c && leb c b'9')
    || c == b'-'
    || c == b'_'
    || c == b'.'
    || c == b'~'
    || c == b'$'
    || c == b'&'
    || c == b'+'
    || c == b':'
    || c == b'='
    || c == b'@'

-- `url.PathEscape`
unfoldable pub path_escape : String → String
unfolding is_segment_char utf8_percent
path_escape String.[] = ""
path_escape (String.◌∷◌ c s) =
    (if is_segment_char (code c) then String.◌∷◌ c "" else utf8_percent (code c)) <> path_escape s

-- `fmt.Sprintf("{{%s}}", k)`
abbrev pub placeholder : (key : String) → String
placeholder key = "{{" <> key <> "}}"

-- `fmt.Sprintf("%v", v)`
unfoldable pub show_value : Printer → Value → String
show_value p (text s) = s
show_value p null = p.show null
show_value p (flag b) = p.show (flag b)
show_value p (number n) = p.show (number n)
show_value p (array xs) = p.show (array xs)
show_value p (object fs) = p.show (object fs)

-- `renderedPath`, with the parameters in the order in which the loop meets them.
unfoldable pub render_path : Printer → Fields → (path : String) → String
unfolding replace_all path_escape show_value
render_path p end path = path
render_path p (field k v params) path =
    render_path p params (replace_all path (placeholder k) (path_escape (show_value p v)))

-- `strings.TrimPrefix(s, "/")`
unfoldable pub trim_prefix_slash : String → String
trim_prefix_slash s = if has_prefix s "/" then text_drop 1 s else s

-- `fullURLStr`
unfoldable pub full_url : Printer → Fields → (base_url path : String) → String
unfolding render_path trim_suffix_slash trim_prefix_slash
full_url p params base_url path =
    trim_suffix_slash base_url <> "/" <> trim_prefix_slash (render_path p params path)

-- The parameters that the path has no placeholder for, which a GET request has in its query.
unfoldable pub query_of : Printer → Fields → (path : String) → List (String × String)
unfolding show_value
query_of p end path = []
query_of p (field k v params) path =
    if not (includes path (placeholder k))
    then (k, show_value p v) ∷ query_of p params path
    else query_of p params path

-- `strings.Trim(s, "\"")`
trim_quotes_left : String → String
trim_quotes_left String.[] = ""
trim_quotes_left (String.◌∷◌ c s) =
    let rest = trim_quotes_left s in if code c == b'"' then rest else String.◌∷◌ c s

trim_quotes_right : String → String
trim_quotes_right String.[] = ""
trim_quotes_right (String.◌∷◌ c s) =
    let rest = trim_quotes_right s in
    if code c == b'"' && not (is_set rest) then "" else String.◌∷◌ c rest

unfoldable pub trim_quotes : String → String
unfolding trim_quotes_left trim_quotes_right
trim_quotes s = trim_quotes_right (trim_quotes_left s)

-- One parameter in the body: first where its placeholder stands in quotation marks.
unfoldable pub render_param :
    (key : String) → (serialized : Result String) → (body : String) → String
unfolding replace_all trim_quotes
render_param key (err e) body = body
render_param key (ok raw) body =
    replace_all (replace_all body ("\"" <> placeholder key <> "\"") raw) (placeholder key)
      (trim_quotes raw)

-- `renderedBody`, with the parameters in the order in which the loop meets them.
unfoldable pub render_body : Printer → Fields → (body : String) → String
unfolding render_param
render_body p end body = body
render_body p (field k v params) body = render_body p params (render_param k (p.marshal v) body)
