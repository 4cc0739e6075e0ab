-- ===== src/Prelude/Strings.antt =====
-- What Go's packages strings, sort and unicode do, as the gateway uses them.
use Prim.Native.Nat.{ℕ, zero, suc, compare, Ordering}
use Prim.Native.Char.{Char, code}
use Prim.Native.String.{String}
use mathlib.Core.Bool.{Bool, true, false, not, ◌&&◌, ◌||◌}
use mathlib.Core.List.{List, [], ◌∷◌}
use the_black_hole.Prelude.Tests.{leb, ◌==◌, if◌then◌else◌}
use the_black_hole.Prelude.Text.{◌===◌, is_set}

-- Go's `strings.HasSuffix(s, t)`.
unfoldable pub has_suffix : String → String → Bool
has_suffix String.[] t = String.[] === t
has_suffix (String.◌∷◌ c s) t = (String.◌∷◌ c s) === t || has_suffix s t

-- `s[:len(s)-1]`, where the last character is one byte.
unfoldable pub drop_last : String → String
drop_last String.[] = ""
drop_last (String.◌∷◌ c String.[]) = ""
drop_last (String.◌∷◌ c (String.◌∷◌ d s)) = String.◌∷◌ c (drop_last (String.◌∷◌ d s))

-- The order of `sort.Strings`: by bytes, which for UTF-8 is by code points.
abbrev pub text_leb : String → String → Bool
text_leb String.[] t = true
text_leb (String.◌∷◌ c s) String.[] = false
text_leb (String.◌∷◌ c s) (String.◌∷◌ d t) = elim (compare (code c) (code d)) [
  | Ordering.lt ↦ true
  | Ordering.eq ↦ text_leb s t
  | Ordering.gt ↦ false
]

-- The first characters of a text, and those behind them.
abbrev pub text_take : ℕ → String → String
text_take zero s = ""
text_take (suc n) String.[] = ""
text_take (suc n) (String.◌∷◌ c s) = String.◌∷◌ c (text_take n s)

abbrev pub text_drop : ℕ → String → String
text_drop zero s = s
text_drop (suc n) String.[] = ""
text_drop (suc n) (String.◌∷◌ c s) = text_drop n s

-- The code points of a text.
abbrev pub codes : String → List ℕ
codes String.[] = []
codes (String.◌∷◌ c s) = code c ∷ codes s

-- Go's `unicode.IsSpace`.
unfoldable pub is_go_space : ℕ → Bool
is_go_space c =
    (leb 9 c && leb c 13)
    || c == 32
    || c == 133
    || c == 160
    || c == 5760
    || (leb 8192 c && leb c 8202)
    || c == 8232
    || c == 8233
    || c == 8239
    || c == 8287
    || c == 12288

trim_left : String → String
unfolding is_go_space
trim_left String.[] = ""
trim_left (String.◌∷◌ c s) = if is_go_space (code c) then trim_left s else String.◌∷◌ c s

trim_right : String → String
unfolding is_go_space
trim_right String.[] = ""
trim_right (String.◌∷◌ c s) =
    let rest = trim_right s in
    if is_go_space (code c) && not (is_set rest) then "" else String.◌∷◌ c rest

-- Go's `strings.TrimSpace`.
unfoldable pub trim_space : String → String
unfolding trim_left trim_right
trim_space s = trim_right (trim_left s)

-- Puts a character before the first part.
grow_first : Char → List String → List String
grow_first c [] = String.◌∷◌ c "" ∷ []
grow_first c (s ∷ ss) = String.◌∷◌ c s ∷ ss

-- Go's `strings.Split(s, sep)` for a separator of one character.
unfoldable pub split_on : ℕ → String → List String
unfolding grow_first
split_on sep String.[] = "" ∷ []
split_on sep (String.◌∷◌ c s) =
    let rest = split_on sep s in if code c == sep then "" ∷ rest else grow_first c rest

-- Go's `strings.TrimSuffix(s, "/")`.
unfoldable pub trim_suffix_slash : String → String
unfolding has_suffix drop_last
trim_suffix_slash s = if has_suffix s "/" then drop_last s else s

split_spaces : String → List String
unfolding grow_first is_go_space
split_spaces String.[] = "" ∷ []
split_spaces (String.◌∷◌ c s) =
    let rest = split_spaces s in if is_go_space (code c) then "" ∷ rest else grow_first c rest

drop_empty : List String → List String
drop_empty [] = []
drop_empty (s ∷ ss) = let rest = drop_empty ss in if is_set s then s ∷ rest else rest

-- Go's `strings.Fields`.
unfoldable pub text_fields : String → List String
unfolding split_spaces drop_empty
text_fields s = drop_empty (split_spaces s)
