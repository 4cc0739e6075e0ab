-- ===== src/Redaction/Luhn.antt =====
-- The check of card numbers in pkg/redaction/patterns.go, and what it detects.
use mathlib.Core.List.{reverse, reverse-append, reverse-cons, append_assoc}
use text.Mathlib.TextEquality.{Char-path}
use native.Mathlib.Nat.{add_assoc}
use the_black_hole.Prelude.{
  ℕ, ◌+◌, ◌-◌, ◌*◌, ◌%◌, ◌≤◌, String, List, [], ◌∷◌, ◌++◌, Bool, true, false, not, ◌&&◌, ◌||◌, ltb,
  leb, ◌==◌, if◌then◌else◌, codes, code, length, ◌≡◌, refl, ap, ◌∙◌, sym, Char, ◌<>◌, ◌⊎◌, ==_iff,
  arith,
}

-- `int(digits[i] - '0')`, of bytes.
unfoldable pub digit_of : ℕ → ℕ
digit_of c = (c + 208) % 256

-- What a digit adds to the sum.
unfoldable pub digit_share : Bool → ℕ → ℕ
digit_share double d = if double then (if ltb 9 (2 * d) then 2 * d - 9 else 2 * d) else d

-- The loop of `luhnValid`, over the digits from the last one on.
unfoldable pub luhn_loop : Bool → ℕ → List ℕ → ℕ
unfolding digit_of digit_share
luhn_loop double sum [] = sum
luhn_loop double sum (c ∷ cs) = luhn_loop (not double) (sum + digit_share double (digit_of c)) cs

-- `luhnValid`
unfoldable pub luhn_valid : String → Bool
unfolding luhn_loop
luhn_valid digits = luhn_loop false 0 (reverse (codes digits)) % 10 == 0

-- `strings.NewReplacer(" ", "", "-", "")`
unfoldable pub strip_separators : String → String
strip_separators String.[] = ""
strip_separators (String.◌∷◌ c s) =
    if code c == b' ' || code c == b'-'
    then strip_separators s
    else String.◌∷◌ c (strip_separators s)

unfoldable pub all_digits : List ℕ → Bool
all_digits [] = true
all_digits (c ∷ cs) = leb b'0' c && leb c b'9' && all_digits cs

-- `isValidCreditCard`. Its `len` counts bytes; where it counts other than the characters, the digits
-- are not all numeric and the result is the same.
unfoldable pub is_valid_credit_card : String → Bool
unfolding strip_separators all_digits luhn_valid
is_valid_credit_card match =
    let digits = strip_separators match in
    let n = length (codes digits) in
    if ltb n 13 || ltb 19 n
    then false
    else if not (all_digits (codes digits))
    then false
    else luhn_valid digits

abbrev pub IsDigit : Char → Type 0
IsDigit c = (b'0' ≤ code c) × (code c ≤ b'9')

luhn_loop_sum :
    (double : Bool) (sum k : ℕ) (cs : List ℕ)
    → luhn_loop double (sum + k) cs ≡ luhn_loop double sum cs + k
unfolding luhn_loop
luhn_loop_sum double sum k [] = refl
luhn_loop_sum double sum k (c ∷ cs) =
    ap (λ n. luhn_loop (not double) n cs) (omega arith)
    ∙ luhn_loop_sum (not double) (sum + digit_share double (digit_of c)) k cs

-- What the sum owes to one digit, and to two neighbours.
luhn_loop_at :
    (double : Bool) (sum : ℕ) (pre post : List ℕ)
    → (total : ℕ) × (d : Bool) × ((c : ℕ)
        → luhn_loop double sum (pre ++ c ∷ post) ≡ total + digit_share d (digit_of c))
unfolding luhn_loop
luhn_loop_at double sum [] post = (
  luhn_loop (not double) sum post,
  double,
  λ c. luhn_loop_sum (not double) sum (digit_share double (digit_of c)) post,
)
luhn_loop_at double sum (b ∷ pre) post =
    luhn_loop_at (not double) (sum + digit_share double (digit_of b)) pre post

luhn_loop_at_two :
    (double : Bool) (sum : ℕ) (pre post : List ℕ)
    → (total : ℕ) × (d : Bool) × ((b c : ℕ)
        → luhn_loop double sum (pre ++ b ∷ c ∷ post)
          ≡ total + digit_share d (digit_of b) + digit_share (not d) (digit_of c))
unfolding luhn_loop
luhn_loop_at_two double sum [] post = (
  luhn_loop (not (not double)) sum post,
  double,
  λ b c.
      ap (λ n. luhn_loop (not (not double)) n post) (add_assoc sum _ _)
      ∙ luhn_loop_sum (not (not double)) sum _ post
      ∙ sym (add_assoc _ _ _),
)
luhn_loop_at_two double sum (b ∷ pre) post =
    luhn_loop_at_two (not double) (sum + digit_share double (digit_of b)) pre post

codes-<> : (s t : String) → codes (s <> t) ≡ codes s ++ codes t
codes-<> String.[] t = refl
codes-<> (String.◌∷◌ c s) t = ap (λ l. code c ∷ l) (codes-<> s t)

codes_reversed :
    (p : String) (c : Char) (s : String)
    → reverse (codes (p <> String.◌∷◌ c s)) ≡ reverse (codes s) ++ code c ∷ reverse (codes p)
codes_reversed p c s = simp (codes-<>, reverse-append, reverse-cons, append_assoc)

share_injective :
    (d : Bool) (total a b : ℕ)
    → b'0' ≤ a
    → a ≤ b'9'
    → b'0' ≤ b
    → b ≤ b'9'
    → (total + digit_share d (digit_of a)) % 10 ≡ 0
    → (total + digit_share d (digit_of b)) % 10 ≡ 0
    → a ≡ b
unfolding digit_share digit_of
share_injective d total a b h1 h2 h3 h4 ea eb = ground arith

swap_shares :
    (d : Bool) (total a b : ℕ)
    → b'0' ≤ a
    → a ≤ b'9'
    → b'0' ≤ b
    → b ≤ b'9'
    → (total + digit_share d (digit_of a) + digit_share (not d) (digit_of b)) % 10 ≡ 0
    → (total + digit_share d (digit_of b) + digit_share (not d) (digit_of a)) % 10 ≡ 0
    → (a ≡ b) ⊎ (((a ≡ b'0') × (b ≡ b'9')) ⊎ ((a ≡ b'9') × (b ≡ b'0')))
unfolding digit_share digit_of
swap_shares d total a b h1 h2 h3 h4 ea eb = ground arith

luhn_valid_at :
    (p : String) (c : Char) (s : String)
    → luhn_valid (p <> String.◌∷◌ c s) ≡ true
    → luhn_loop false 0 (reverse (codes s) ++ code c ∷ reverse (codes p)) % 10 ≡ 0
unfolding luhn_valid
luhn_valid_at p c s h =
    ap (λ l. luhn_loop false 0 l % 10) (sym (codes_reversed p c s)) ∙ (==_iff _ _).0 h

-- Two card numbers that differ in one digit do not both pass the check: a single mistyped digit is
-- always found.
pub luhn_valid_one_digit :
    (p s : String) (a b : Char)
    → IsDigit a
    → IsDigit b
    → luhn_valid (p <> String.◌∷◌ a s) ≡ true
    → luhn_valid (p <> String.◌∷◌ b s) ≡ true
    → a ≡ b
luhn_valid_one_digit p s a b (a0, a9) (b0, b9) ha hb =
    let (total, d, at) = luhn_loop_at false 0 (reverse (codes s)) (reverse (codes p)) in
    Char-path a b (
      share_injective d total (code a) (code b) a0 a9 b0 b9
        (ap (λ n. n % 10) (sym (at (code a))) ∙ luhn_valid_at p a s ha)
        (ap (λ n. n % 10) (sym (at (code b))) ∙ luhn_valid_at p b s hb))

-- Two card numbers that differ by the exchange of two neighbouring digits do not both pass the check,
-- unless these are 0 and 9.
pub luhn_valid_exchange :
    (p s : String) (a b : Char)
    → IsDigit a
    → IsDigit b
    → luhn_valid (p <> String.◌∷◌ a (String.◌∷◌ b s)) ≡ true
    → luhn_valid (p <> String.◌∷◌ b (String.◌∷◌ a s)) ≡ true
    → (code a ≡ code b)
      ⊎ (((code a ≡ b'0') × (code b ≡ b'9')) ⊎ ((code a ≡ b'9') × (code b ≡ b'0')))
luhn_valid_exchange p s a b (a0, a9) (b0, b9) ha hb =
    let (total, d, at) = luhn_loop_at_two false 0 (reverse (codes s)) (reverse (codes p)) in
    let ea =
      ap (λ n. n % 10) (sym (at (code b) (code a)) ∙ ap (luhn_loop false 0) (neighbours a b))
      ∙ luhn_valid_at p a (String.◌∷◌ b s) ha in
    let eb =
      ap (λ n. n % 10) (sym (at (code a) (code b)) ∙ ap (luhn_loop false 0) (neighbours b a))
      ∙ luhn_valid_at p b (String.◌∷◌ a s) hb in
    flip (swap_shares d total (code b) (code a) b0 b9 a0 a9 ea eb)
  where
    flip :
        (code b ≡ code a)
          ⊎ (((code b ≡ b'0') × (code a ≡ b'9')) ⊎ ((code b ≡ b'9') × (code a ≡ b'0')))
        → (code a ≡ code b)
          ⊎ (((code a ≡ b'0') × (code b ≡ b'9')) ⊎ ((code a ≡ b'9') × (code b ≡ b'0')))
    flip h = ground arith

    neighbours :
        (c d : Char)
        → reverse (codes s) ++ code d ∷ code c ∷ reverse (codes p)
          ≡ reverse (codes (String.◌∷◌ d s)) ++ code c ∷ reverse (codes p)
    neighbours c d = simp (reverse-cons, append_assoc)
