-- ===== src/Prelude/Text.antt =====
-- Texts: equality as a test, concatenation, search, splitting, and numbers in decimal.
use Prim.Native.Nat.{ℕ, zero, suc, ◌/◌, ◌%◌, compare, Ordering}
use Prim.Native.String.{String}
use mathlib.Core.Path.{◌≡◌, refl, ap}
use mathlib.Core.Bool.{Bool, true, false}
use mathlib.Core.List.{List, [], ◌∷◌}
use text.Mathlib.Text.{◌==◌, find?, starts_with}
use mathlib.Core.Option.{none, some}

-- JavaScript's `===` on texts.
infix 50 ◌===◌
abbrev pub ◌===◌ : String → String → Bool
s === t = s == t

-- JavaScript's `+` on texts.
infixr 66 ◌<>◌
abbrev pub ◌<>◌ : String → String → String
String.[] <> t = t
(String.◌∷◌ c s) <> t = String.◌∷◌ c (s <> t)

-- JavaScript's `s.includes(t)` and `s.startsWith(t)`.
abbrev pub includes : String → String → Bool
includes s t = elim (find? s t) [ none ↦ false | some _ ↦ true ]

abbrev pub has_prefix : String → String → Bool
has_prefix s t = starts_with s t

-- JavaScript's `s || t` on texts: the empty text counts as false.
abbrev pub or_else : String → String → String
or_else String.[] t = t
or_else (String.◌∷◌ c s) t = String.◌∷◌ c s

-- Is a text true, as a JavaScript condition?
abbrev pub is_set : String → Bool
is_set String.[] = false
is_set (String.◌∷◌ c s) = true

digit : ℕ → String
digit n = elim n [
  | zero ↦ "0"
  | suc zero ↦ "1"
  | suc (suc zero) ↦ "2"
  | suc (suc (suc zero)) ↦ "3"
  | suc (suc (suc (suc zero))) ↦ "4"
  | suc (suc (suc (suc (suc zero)))) ↦ "5"
  | suc (suc (suc (suc (suc (suc zero))))) ↦ "6"
  | suc (suc (suc (suc (suc (suc (suc zero)))))) ↦ "7"
  | suc (suc (suc (suc (suc (suc (suc (suc zero))))))) ↦ "8"
  | _ ↦ "9"
]

-- The fuel bounds the number of digits; a number has at most as many digits as its successor says.
decimal_from : ℕ → ℕ → String
decimal_from zero n = ""
decimal_from (suc f) n =
    let more = decimal_from f (n / 10) <> digit (n % 10) in
    elim (compare n 10) [ Ordering.lt ↦ digit n | _ ↦ more ]

-- A number in a template literal.
unfoldable pub decimal : ℕ → String
unfolding decimal_from digit
decimal n = decimal_from (suc n) n

-- `ss.join(sep)`.
unfoldable pub join : String → List String → String
join sep [] = ""
join sep (s ∷ []) = s
join sep (s ∷ t ∷ ss) = s <> sep <> join sep (t ∷ ss)

pub <>_assoc : (s t u : String) → (s <> t) <> u ≡ s <> t <> u
<>_assoc String.[] t u = refl
<>_assoc (String.◌∷◌ c s) t u = ap (String.◌∷◌ c) (<>_assoc s t u)
