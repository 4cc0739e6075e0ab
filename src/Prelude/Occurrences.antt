-- ===== src/Prelude/Occurrences.antt =====
-- How often a text has a character.
use Prim.Native.Nat.{ℕ, suc, ◌+◌}
use Prim.Native.Char.{code}
use Prim.Native.String.{String, [], ◌∷◌}
use mathlib.Core.Path.{◌≡◌}
use native.Mathlib.Omega.{arith}
use the_black_hole.Prelude.Tests.{◌==◌, if◌then◌else◌}
use the_black_hole.Prelude.Text.{◌<>◌}

abbrev pub occurrences : ℕ → String → ℕ
occurrences n [] = 0
occurrences n (c ∷ s) = if code c == n then suc (occurrences n s) else occurrences n s

pub occurrences-<> :
    (n : ℕ) (s t : String) → occurrences n (s <> t) ≡ occurrences n s + occurrences n t
occurrences-<> n [] t = omega arith
occurrences-<> n (c ∷ s) t = let rest = occurrences-<> n s t in ground arith
