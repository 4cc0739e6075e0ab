-- ===== src/Prelude/Results.antt =====
-- Integers over the native numbers, and Go's pair of a value and an error.
use Prim.Native.Nat.{ℕ}
use Prim.Native.String.{String}
use native.Mathlib.Omega.{arith}
use mathlib.Core.Path.{◌≡◌, refl}
use mathlib.Core.Logic.{◌⊎◌, inl, inr}

-- `pos n` is n, `negsuc n` is -(n + 1).
pub data ℤ : Type 0 where
  pos : ℕ → ℤ
  negsuc : ℕ → ℤ

pub data Result {ℓ} (A : Type ℓ) : Type ℓ where
  ok : A → Result A
  err : String → Result A

infixl 5 ◌>>=◌
abbrev pub ◌>>=◌ {ℓ κ} : {A : Type ℓ} {B : Type κ} → Result A → (A → Result B) → Result B
ok a >>= f = f a
err e >>= f = err e

pub Result-cases {ℓ} :
    {A : Type ℓ} (r : Result A) → ((e : String) × (r ≡ err e)) ⊎ ((a : A) × (r ≡ ok a))
Result-cases (err e) = inl (e, refl)
Result-cases (ok a) = inr (a, refl)

pub err-ok {ℓ} : {A : Type ℓ} {e : String} {a : A} → err e ≡ ok a → ⊥
err-ok h = cc

pub ok-injective {ℓ} : {A : Type ℓ} {a b : A} → ok a ≡ ok b → a ≡ b
ok-injective h = cc

-- What is done with the error or the value of a result.
abbrev pub on_result {ℓ κ} : {A : Type ℓ} {B : Type κ} → Result A → (String → B) → (A → B) → B
on_result (err e) f g = f e
on_result (ok a) f g = g a

pub on_result_cases {ℓ κ μ} :
    {A : Type ℓ} {B : Type κ} (P : B → Type μ) (r : Result A) (f : String → B) (g : A → B)
    → ((e : String) → r ≡ err e → P (f e))
    → ((a : A) → r ≡ ok a → P (g a))
    → P (on_result r f g)
on_result_cases P (err e) f g hf hg = hf e refl
on_result_cases P (ok a) f g hf hg = hg a refl

-- An error, whatever it says.
abbrev pub Fails {ℓ} : {A : Type ℓ} → Result A → Type ℓ
Fails r = (e : String) × (r ≡ err e)

pub Fails-first {ℓ κ} :
    {A : Type ℓ} {B : Type κ} (r : Result A) (f : A → Result B) → Fails r → Fails (r >>= f)
Fails-first (ok a) f (e, h) = ground arith
Fails-first (err e') f h = (e', refl)

pub Fails-then {ℓ κ} :
    {A : Type ℓ} {B : Type κ} (r : Result A) (f : A → Result B)
    → ((a : A) → Fails (f a))
    → Fails (r >>= f)
Fails-then (ok a) f h = h a
Fails-then (err e) f h = (e, refl)
