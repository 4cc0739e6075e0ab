-- ===== src/Portal/Html/Escape.antt =====
-- `escapeHtml`: what it writes cannot open or close a tag or a quoted attribute, and a browser
-- reads it back as the text that it was given.

use Prim.Native.String.{String, [], ◌∷◌}
use text.Mathlib.TextEquality.{Char-path}
use the_black_hole.Prelude.{
  ℕ, zero, suc, ◌≤◌, ◌≡◌, refl, ap, ◌≢◌, Char, code, ◌==◌, if◌then◌else◌, ◌<>◌, arith, Option, none,
  Bool, ◌||◌, some-injective, some, true, false, if_cases, ==_iff, sym, ◌∙◌, ◌+◌, <>_assoc,
}
use the_black_hole.Portal.Html.{escape_char, escape_html}

-- A property of every character of a text.
abbrev pub AllChars : (Char → Type 0) → String → Type 0
AllChars P [] = Unit
AllChars P (c ∷ s) = P c × AllChars P s

-- A character that markup gives no meaning to, in text and in a quoted attribute.
abbrev pub IsInert : Char → Type 0
IsInert c = (code c ≢ b'<') × (code c ≢ b'>') × (code c ≢ b'"') × (code c ≢ b'\'')

pub AllChars-<> :
    (P : Char → Type 0) (s t : String) → AllChars P s → AllChars P t → AllChars P (s <> t)
AllChars-<> P [] t hs ht = ht
AllChars-<> P (c ∷ s) t hs ht = (hs.0, AllChars-<> P s t hs.1 ht)

-- What holds of the five entities, each for its character, and of any other character by itself.
escape_char_cases :
    (P : String → Type 0) (c : Char)
    → (code c ≡ b'&' → P "&amp;")
    → (code c ≡ b'<' → P "&lt;")
    → (code c ≡ b'>' → P "&gt;")
    → (code c ≡ b'"' → P "&quot;")
    → (code c ≡ b'\'' → P "&#039;")
    → (code c ≢ b'&' → IsInert c → P (c ∷ ""))
    → P (escape_char c)
unfolding escape_char
escape_char_cases P c amp lt gt quot apos other =
    if_cases P (code c == b'&') _ _ (λ e. amp ((==_iff _ _).0 e))
      λ n1.
        if_cases P (code c == b'<') _ _ (λ e. lt ((==_iff _ _).0 e))
          λ n2.
            if_cases P (code c == b'>') _ _ (λ e. gt ((==_iff _ _).0 e))
              λ n3.
                if_cases P (code c == b'"') _ _ (λ e. quot ((==_iff _ _).0 e))
                  λ n4.
                    if_cases P (code c == b'\'') _ _ (λ e. apos ((==_iff _ _).0 e))
                      λ n5.
                        other (ground arith)
                          (ground arith, ground arith, ground arith, ground arith)

escape_char-IsInert : (c : Char) → AllChars IsInert (escape_char c)
escape_char-IsInert c =
    escape_char_cases (AllChars IsInert) c (λ _. omega arith) (λ _. omega arith) (λ _. omega arith)
      (λ _. omega arith) (λ _. omega arith) (λ _ inert. (inert, tt))

-- Escaped text has no angle bracket, no quotation mark and no apostrophe.
pub escape_html-IsInert : (s : String) → AllChars IsInert (escape_html s)
unfolding escape_html
escape_html-IsInert [] = tt
escape_html-IsInert (c ∷ s) =
    AllChars-<> IsInert (escape_char c) (escape_html s) (escape_char-IsInert c)
      (escape_html-IsInert s)

pub escape_html-<> : (s t : String) → escape_html (s <> t) ≡ escape_html s <> escape_html t
unfolding escape_html
escape_html-<> [] t = refl
escape_html-<> (c ∷ s) t = rw (escape_html-<> s t, <>_assoc)

-- What a browser does with the character references: `strip` takes a reference's name off the text.
strip : String → String → Option String
strip [] s = some s
strip (a ∷ t) [] = none
strip (a ∷ t) (c ∷ s) = if code c == code a then strip t s else none

or_try : Option String → String → Option (String × String) → Option (String × String)
or_try none sign next = next
or_try (some rest) sign next = some (sign, rest)

-- The reference behind an ampersand: the character that it stands for, and what follows.
reference : String → Option (String × String)
unfolding or_try strip
reference s = or_try (strip "amp;" s) "&" (
    or_try (strip "lt;" s) "<" (
      or_try (strip "gt;" s) ">"
        (or_try (strip "quot;" s) "\"" (or_try (strip "#039;" s) "'" none))))

-- Characters of a source text that could open or close a tag or a quoted attribute.
is_delimiter : Char → Bool
is_delimiter c = code c == b'<' || code c == b'>' || code c == b'"' || code c == b'\''

abbrev before : String → Option String → Option String
before sign none = none
before sign (some t) = some (sign <> t)

-- The text that a browser shows for a source that stands between tags or in a quoted attribute: each
-- reference as its character. There is none where the source has one of the delimiters, which could end
-- the text. The fuel bounds the characters shown.
unfoldable pub displayed : ℕ → String → Option String
unfolding reference is_delimiter
displayed zero s = some ""
displayed (suc f) [] = some ""
displayed (suc f) (c ∷ s) = elim (is_delimiter c) [
  | true ↦ none
  | false ↦ elim (code c == b'&') [
    | true ↦ elim (reference s) [
      | none ↦ before (c ∷ "") (displayed f s)
      | some (sign, rest) ↦ before sign (displayed f rest)
    ]
    | false ↦ before (c ∷ "") (displayed f s)
  ]
]

abbrev pub count : String → ℕ
count [] = 0
count (c ∷ s) = suc (count s)

displayed-escape_char :
    (f : ℕ) (c : Char) (s : String)
    → displayed (suc f) (escape_char c <> s) ≡ before (c ∷ "") (displayed f s)
unfolding displayed
displayed-escape_char f c s =
    let same : (d : Char)
        → code c ≡ code d
        → before (d ∷ "") (displayed f s) ≡ before (c ∷ "") (displayed f s) =
      λ d e. ap (λ (x : Char). before (x ∷ "") (displayed f s)) (Char-path d c (sym e)) in
    escape_char_cases (λ e. displayed (suc f) (e <> s) ≡ before (c ∷ "") (displayed f s)) c
      (λ e. same _ e) (λ e. same _ e) (λ e. same _ e) (λ e. same _ e) (λ e. same _ e)
      (λ n inert. ground arith)

displayed_empty : (f : ℕ) → displayed f "" ≡ some ""
unfolding displayed
displayed_empty zero = refl
displayed_empty (suc f) = refl

-- An escaped text has nothing that could open or close a tag or a quoted attribute, and a browser that
-- reads it there shows the text itself, for any fuel that is at least its number of characters.
pub displayed-escape_html :
    (f : ℕ) (s : String) → count s ≤ f → displayed f (escape_html s) ≡ some s
unfolding escape_html
displayed-escape_html zero [] h = displayed_empty zero
displayed-escape_html (suc f) [] h = displayed_empty (suc f)
displayed-escape_html zero (c ∷ s) h = absurd (omega arith)
displayed-escape_html (suc f) (c ∷ s) h =
    displayed-escape_char f c (escape_html s)
    ∙ ap (before (c ∷ "")) (displayed-escape_html f s (omega arith))

pub escape_html_injective : (s t : String) → escape_html s ≡ escape_html t → s ≡ t
escape_html_injective s t e = some-injective _ _ (
    sym (displayed-escape_html (count s + count t) s (omega arith))
    ∙ ap (displayed (count s + count t)) e
    ∙ displayed-escape_html (count s + count t) t (omega arith))
