-- ===== src/Portal/Uri/Safety.antt =====
-- `encodeURIComponent`: what it writes has no character that ends a query parameter.
use Prim.Native.String.{String, [], ◌∷◌}
use the_black_hole.Prelude.{
  ℕ, ◌+◌, ◌/◌, ◌%◌, ◌≡◌, refl, ◌==◌, Char, code, true, ◌<>◌, ◌||◌, if◌then◌else◌, if_cases, Bool,
  ltb,
}
use the_black_hole.Portal.Html.Escape.{AllChars, AllChars-<>}
use the_black_hole.Portal.Uri.{
  hex_digit, percent, is_unreserved, utf8_percent, encode_char, encode_uri_component,
}

-- An unreserved character, or the percent sign.
abbrev pub IsQuerySafe : Char → Type 0
IsQuerySafe c = (is_unreserved (code c) || code c == b'%') ≡ true

both : (P : String → Type 0) (b : Bool) {s t : String} → P s → P t → P (if b then s else t)
both P b hs ht = if_cases P b _ _ (λ _. hs) (λ _. ht)

hex_digit_cases :
    (P : String → Type 0)
    → P "0"
    → P "1"
    → P "2"
    → P "3"
    → P "4"
    → P "5"
    → P "6"
    → P "7"
    → P "8"
    → P "9"
    → P "A"
    → P "B"
    → P "C"
    → P "D"
    → P "E"
    → P "F"
    → (n : ℕ) → P (hex_digit n)
unfolding hex_digit
hex_digit_cases P p0 p1 p2 p3 p4 p5 p6 p7 p8 p9 pA pB pC pD pE pF n = both P _ p0 (
    both P _ p1 (
      both P _ p2 (
        both P _ p3 (
          both P _ p4 (
            both P _ p5 (
              both P _ p6 (
                both P _ p7 (
                  both P _ p8 (
                    both P _ p9 (
                      both P _ pA
                        (both P _ pB (both P _ pC (both P _ pD (both P _ pE pF))))))))))))))

hex_digit-IsQuerySafe : (n : ℕ) → AllChars IsQuerySafe (hex_digit n)
unfolding is_unreserved
hex_digit-IsQuerySafe =
    hex_digit_cases (AllChars IsQuerySafe) (refl, tt) (refl, tt) (refl, tt) (refl, tt) (refl, tt)
      (refl, tt) (refl, tt) (refl, tt) (refl, tt) (refl, tt) (refl, tt) (refl, tt) (refl, tt)
      (refl, tt) (refl, tt) (refl, tt)

percent-IsQuerySafe : (b : ℕ) → AllChars IsQuerySafe (percent b)
unfolding percent is_unreserved
percent-IsQuerySafe b = (
  refl,
  AllChars-<> IsQuerySafe (hex_digit (b / 16)) (hex_digit (b % 16)) (hex_digit-IsQuerySafe (b / 16))
      (hex_digit-IsQuerySafe (b % 16)),
)

-- A code point is its bytes, however many it has.
percents : (b : ℕ) (s : String) → AllChars IsQuerySafe s → AllChars IsQuerySafe (percent b <> s)
percents b s h = AllChars-<> IsQuerySafe (percent b) s (percent-IsQuerySafe b) h

utf8_percent_cases :
    (P : String → Type 0)
    → ((b : ℕ) → P (percent b))
    → ((b : ℕ) (s : String) → P s → P (percent b <> s))
    → (c : ℕ) → P (utf8_percent c)
unfolding utf8_percent
utf8_percent_cases P last more c =
    let tail = last (128 + c % 64) in
    let tails = more (128 + c / 64 % 64) _ tail in
    both P (ltb c 128) (last c) (
      both P (ltb c 2048) (more (192 + c / 64) _ tail) (
        both P (ltb c 65536) (more (224 + c / 4096) _ tails)
          (more (240 + c / 262144) _ (more (128 + c / 4096 % 64) _ tails))))

pub utf8_percent-IsQuerySafe : (c : ℕ) → AllChars IsQuerySafe (utf8_percent c)
utf8_percent-IsQuerySafe = utf8_percent_cases (AllChars IsQuerySafe) percent-IsQuerySafe percents

encode_char-IsQuerySafe : (c : Char) → AllChars IsQuerySafe (encode_char c)
unfolding encode_char
encode_char-IsQuerySafe c =
    if_cases (AllChars IsQuerySafe) (is_unreserved (code c)) _ _ (λ e. (rw e refl, tt))
      (λ _. utf8_percent-IsQuerySafe (code c))

-- What `encodeURIComponent` writes for any text are letters, digits, percent signs and the marks
-- `-_.!~*'()`: nothing that ends the parameter of a query.
pub encode_uri_component-IsQuerySafe : (s : String) → AllChars IsQuerySafe (encode_uri_component s)
unfolding encode_uri_component
encode_uri_component-IsQuerySafe [] = tt
encode_uri_component-IsQuerySafe (c ∷ s) =
    AllChars-<> IsQuerySafe (encode_char c) (encode_uri_component s) (encode_char-IsQuerySafe c)
      (encode_uri_component-IsQuerySafe s)
