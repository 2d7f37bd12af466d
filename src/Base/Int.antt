-- ===== src/Base/Int.antt =====
-- Signed integers over the native numbers, and their wrap-around at 64 bits.
use Prim.Native.Nat.{ℕ, ◌+◌, ◌-◌, ◌%◌, ◌^◌, ◌<◌}
use mathlib.Core.Path.{◌≡◌}
use native.Mathlib.Omega.{arith}
use mathlib.Core.Logic.{inl, inr}
use mathlib.Core.Bool.{Bool, true, false}
use portal_conductor.Base.Tests.{Bool-cases, ltb, leb, nat_eq, if◌then◌else◌}

-- `negsuc n` is -(n + 1).
pub data ℤ : Type 0 where
  pos : ℕ → ℤ
  negsuc : ℕ → ℤ

-- The two's complement pattern of an integer, in 64 bits.
abbrev pub word : ℤ → ℕ
word (pos n) = n % 2 ^ 64
word (negsuc n) = 2 ^ 64 - 1 - n % 2 ^ 64

-- The `int64` that a 64-bit pattern stands for.
abbrev pub of_word : ℕ → ℤ
of_word u = if ltb u (2 ^ 63) then pos u else negsuc (2 ^ 64 - 1 - u)

-- An `int64`.
abbrev pub IsInt64 : ℤ → Type 0
IsInt64 (pos n) = n < 2 ^ 63
IsInt64 (negsuc n) = n < 2 ^ 63

IsInt64-of_word : (u : ℕ) → u < 2 ^ 64 → IsInt64 (of_word u)
IsInt64-of_word u h = elim (Bool-cases (ltb u (2 ^ 63))) [
  | inl e ↦ rw e (ground arith)
  | inr e ↦ rw e (ground arith)
]

-- `a + b` on `int64`.
infixl 65 ◌+ℤ◌
unfoldable pub ◌+ℤ◌ : ℤ → ℤ → ℤ
a +ℤ b = of_word ((word a + word b) % 2 ^ 64)

abbrev pub int_eq : ℤ → ℤ → Bool
int_eq (pos m) (pos n) = nat_eq m n
int_eq (negsuc m) (negsuc n) = nat_eq m n
int_eq (pos m) (negsuc n) = false
int_eq (negsuc m) (pos n) = false

pub int_eq_refl : (a : ℤ) → int_eq a a ≡ true
int_eq_refl (pos n) = ground arith
int_eq_refl (negsuc n) = ground arith

pub IsInt64-+ℤ : (a b : ℤ) → IsInt64 (a +ℤ b)
unfolding ◌+ℤ◌
IsInt64-+ℤ a b = IsInt64-of_word ((word a + word b) % 2 ^ 64) (omega arith)

abbrev pub is_negative : ℤ → Bool
is_negative (pos n) = false
is_negative (negsuc n) = true

-- `n <= 0`.
abbrev pub is_nonpositive : ℤ → Bool
is_nonpositive (pos n) = leb n 0
is_nonpositive (negsuc n) = true
