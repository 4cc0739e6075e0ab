-- ===== src/Portal/Uri.antt =====
-- `encodeURIComponent`, as ECMAScript defines it over the UTF-8 bytes of a text.
pub mod Safety
use the_black_hole.Prelude.{
  ℕ, ◌+◌, ◌/◌, ◌%◌, String, Bool, ◌&&◌, ◌||◌, Char, code, ◌==◌, ltb, leb, if◌then◌else◌, ◌<>◌,
}

unfoldable pub hex_digit : ℕ → String
hex_digit n =
    if n == 0
    then "0"
    else if n == 1
    then "1"
    else if n == 2
    then "2"
    else if n == 3
    then "3"
    else if n == 4
    then "4"
    else if n == 5
    then "5"
    else if n == 6
    then "6"
    else if n == 7
    then "7"
    else if n == 8
    then "8"
    else if n == 9
    then "9"
    else if n == 10
    then "A"
    else if n == 11
    then "B"
    else if n == 12
    then "C"
    else if n == 13
    then "D"
    else if n == 14
    then "E"
    else "F"

-- A byte as `%XY`.
unfoldable pub percent : ℕ → String
unfolding hex_digit
percent b = "%" <> hex_digit (b / 16) <> hex_digit (b % 16)

-- The letters, the digits and `-_.!~*'()`.
unfoldable pub is_unreserved : ℕ → Bool
is_unreserved c =
    (leb b'a' c && leb c b'z')
    || (leb b'A' c && leb c b'Z')
    || (leb b'0' c && leb c b'9')
    || c == b'-'
    || c == b'_'
    || c == b'.'
    || c == b'!'
    || c == b'~'
    || c == b'*'
    || c == b'\''
    || c == b'('
    || c == b')'

-- The bytes of a code point, each as `%XY`.
unfoldable pub utf8_percent : ℕ → String
unfolding percent
utf8_percent c =
    if ltb c 128
    then percent c
    else if ltb c 2048
    then percent (192 + c / 64) <> percent (128 + c % 64)
    else if ltb c 65536
    then percent (224 + c / 4096) <> percent (128 + c / 64 % 64) <> percent (128 + c % 64)
    else percent (240 + c / 262144)
      <> percent (128 + c / 4096 % 64)
      <> percent (128 + c / 64 % 64)
      <> percent (128 + c % 64)

unfoldable pub encode_char : Char → String
unfolding is_unreserved utf8_percent
encode_char c = if is_unreserved (code c) then String.◌∷◌ c "" else utf8_percent (code c)

unfoldable pub encode_uri_component : String → String
unfolding encode_char
encode_uri_component String.[] = ""
encode_uri_component (String.◌∷◌ c s) = encode_char c <> encode_uri_component s
