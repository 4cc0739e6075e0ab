-- ===== src/Portal/Dialogs/Hex.antt =====
-- The generated client tokens: no random byte is lost in them.
use Prim.Native.String.{String, [], ◌∷◌}
use the_black_hole.Prelude.{
  ℕ, ◌+◌, ◌-◌, ◌*◌, ◌/◌, ◌%◌, ◌<◌, List, All, ◌≡◌, refl, sym, ap, ◌∙◌, Char, code, ◌<>◌, ◌==◌, leb,
  if◌then◌else◌, if_cases, ==_iff, arith,
}
use the_black_hole.Portal.Dialogs.{hex_lower, rand_hex}

-- The value of a digit of base 16, in lower case.
abbrev pub digit_value : ℕ → ℕ
digit_value c = if leb b'a' c then c - 87 else c - b'0'

-- The bytes of a text of pairs of digits.
unfoldable pub parse_hex : String → List ℕ
parse_hex [] = List.[]
parse_hex (a ∷ []) = List.[]
parse_hex (a ∷ b ∷ s) = List.◌∷◌ (digit_value (code a) * 16 + digit_value (code b)) (parse_hex s)

-- A text of one digit with a value.
abbrev IsDigit : ℕ → String → Type 0
IsDigit n t = (c : Char) × (t ≡ c ∷ "") × (digit_value (code c) ≡ n)

hex_lower-IsDigit : (n : ℕ) → n < 16 → IsDigit n (hex_lower n)
unfolding hex_lower
hex_lower-IsDigit n h =
    if_cases (IsDigit n) (n == 0) _ _ (λ e. (_, refl, sym ((==_iff _ _).0 e)))
      λ n0.
        if_cases (IsDigit n) (n == 1) _ _ (λ e. (_, refl, sym ((==_iff _ _).0 e)))
          λ n1.
            if_cases (IsDigit n) (n == 2) _ _ (λ e. (_, refl, sym ((==_iff _ _).0 e)))
              λ n2.
                if_cases (IsDigit n) (n == 3) _ _ (λ e. (_, refl, sym ((==_iff _ _).0 e)))
                  λ n3.
                    if_cases (IsDigit n) (n == 4) _ _ (λ e. (_, refl, sym ((==_iff _ _).0 e)))
                      λ n4.
                        if_cases (IsDigit n) (n == 5) _ _ (λ e. (_, refl, sym ((==_iff _ _).0 e)))
                          λ n5.
                            if_cases (IsDigit n) (n == 6) _ _
                              (λ e. (_, refl, sym ((==_iff _ _).0 e)))
                              λ n6.
                                if_cases (IsDigit n) (n == 7) _ _
                                  (λ e. (_, refl, sym ((==_iff _ _).0 e)))
                                  λ n7.
                                    if_cases (IsDigit n) (n == 8) _ _
                                      (λ e. (_, refl, sym ((==_iff _ _).0 e)))
                                      λ n8.
                                        if_cases (IsDigit n) (n == 9) _ _
                                          (λ e. (_, refl, sym ((==_iff _ _).0 e)))
                                          λ n9.
                                            if_cases (IsDigit n) (n == 10) _ _
                                              (λ e. (_, refl, sym ((==_iff _ _).0 e)))
                                              λ n10.
                                                if_cases (IsDigit n) (n == 11) _ _
                                                  (λ e. (_, refl, sym ((==_iff _ _).0 e)))
                                                  λ n11.
                                                    if_cases (IsDigit n) (n == 12) _ _
                                                      (λ e. (_, refl, sym ((==_iff _ _).0 e)))
                                                      λ n12.
                                                        if_cases (IsDigit n) (n == 13) _ _
                                                          (λ e. (_, refl, sym ((==_iff _ _).0 e)))
                                                          λ n13.
                                                            if_cases (IsDigit n) (n == 14) _ _
                                                            (λ e. (_, refl, sym ((==_iff _ _).0 e)))
                                                            λ n14. (_, refl, ground arith)

parse_hex_pair :
    (a b : ℕ) (t u s : String)
    → IsDigit a t
    → IsDigit b u
    → parse_hex (t <> u <> s) ≡ List.◌∷◌ (a * 16 + b) (parse_hex s)
unfolding parse_hex
parse_hex_pair a b t u s (c, et, ec) (d, eu, ed) =
    ap (λ x. parse_hex (x <> u <> s)) et
    ∙ ap (λ x. parse_hex (c ∷ (x <> s))) eu
    ∙ ap (λ k. List.◌∷◌ (k * 16 + digit_value (code d)) (parse_hex s)) ec
    ∙ ap (λ k. List.◌∷◌ (a * 16 + k) (parse_hex s)) ed

-- Random bytes, each below 256, can be read off the digits that are generated from them, so that
-- different bytes give different tokens.
pub parse_hex-rand_hex :
    (bytes : List ℕ) → All (λ b. b < 256) bytes → parse_hex (rand_hex bytes) ≡ bytes
unfolding parse_hex rand_hex
parse_hex-rand_hex List.[] h = refl
parse_hex-rand_hex (List.◌∷◌ b bs) (h, hs) =
    parse_hex_pair (b / 16) (b % 16) (hex_lower (b / 16)) (hex_lower (b % 16)) (rand_hex bs)
      (hex_lower-IsDigit (b / 16) (omega arith)) (hex_lower-IsDigit (b % 16) (omega arith))
    ∙ ap (λ k. List.◌∷◌ k (parse_hex (rand_hex bs))) (omega arith)
    ∙ ap (List.◌∷◌ b) (parse_hex-rand_hex bs hs)
