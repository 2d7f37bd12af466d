-- ===== src/Base/Text/Decimal.antt =====
-- `Atoi` reads back what `Itoa` writes.
use Prim.{⊥, absurd}
use Prim.Native.Nat.{ℕ, zero, suc, ◌+◌, ◌-◌, ◌*◌, ◌/◌, ◌%◌, ◌^◌, ◌≤◌, ◌<◌}
use Prim.Native.Char.{Char, code}
use Prim.Native.String.{String, ◌++◌ as ◌<>◌}
use text.Mathlib.TextLemmas.{cons-append, nil-append}
use mathlib.Core.Path.{◌≡◌, refl, ap, ◌∙◌}
use mathlib.Core.Logic.{inl, inr}
use mathlib.Core.Bool.{Bool, true, false}
use mathlib.Core.Option.{Option, none, some}
use native.Mathlib.Omega.{arith}
use portal_conductor.Base.Tests.{ltb, nat_eq, Bool-cases}
use portal_conductor.Base.Int.{IsInt64, ℤ, pos, negsuc}
use portal_conductor.Base.Text.{
  digit, decimal, itoa_ℕ, itoa, is_digit, digits_value, unsigned, in_range, signed, atoi,
}

abbrev shifted : ℕ → Option ℕ → Option ℕ
shifted d none = none
shifted d (some m) = some (m * 10 + d)

digits_value-digit : (d m : ℕ) → d < 10 → digits_value (digit d) m ≡ some (m * 10 + d)
unfolding digits_value digit is_digit
digits_value-digit zero m h = refl
digits_value-digit (suc zero) m h = refl
digits_value-digit (suc (suc zero)) m h = refl
digits_value-digit (suc (suc (suc zero))) m h = refl
digits_value-digit (suc (suc (suc (suc zero)))) m h = refl
digits_value-digit (suc (suc (suc (suc (suc zero))))) m h = refl
digits_value-digit (suc (suc (suc (suc (suc (suc zero)))))) m h = refl
digits_value-digit (suc (suc (suc (suc (suc (suc (suc zero))))))) m h = refl
digits_value-digit (suc (suc (suc (suc (suc (suc (suc (suc zero)))))))) m h = refl
digits_value-digit (suc (suc (suc (suc (suc (suc (suc (suc (suc zero))))))))) m h = refl
digits_value-digit (suc (suc (suc (suc (suc (suc (suc (suc (suc (suc d)))))))))) m h =
    absurd (omega arith)

-- A digit behind a number.
digits_value-append :
    (s : String) (d m : ℕ) → d < 10 → digits_value (s <> digit d) m ≡ shifted d (digits_value s m)
unfolding digits_value
digits_value-append String.[] d m h = rw (nil-append (digit d)) (digits_value-digit d m h)
digits_value-append (String.◌∷◌ c s) d m h =
    rw (cons-append c s (digit d)) (elim (Bool-cases (is_digit (code c))) [
      | inl e ↦ rw (digits_value, e) (digits_value-append s d (m * 10 + (code c - b'0')) h)
      | inr e ↦ rw (digits_value, e) refl
    ])

digits_value-decimal : (fuel n : ℕ) → n ≤ fuel → digits_value (decimal fuel n) 0 ≡ some n
unfolding decimal
digits_value-decimal zero n h = digits_value-digit (n % 10) 0 (omega arith) ∙ ap some (omega arith)
digits_value-decimal (suc fuel) n h = elim (Bool-cases (ltb n 10)) [
  | inl e ↦ rw (decimal, e) (digits_value-digit n 0 (ground arith) ∙ ap some (omega arith))
  | inr e ↦
      rw (decimal, e)
        (digits_value-append (decimal fuel (n / 10)) (n % 10) 0 (omega arith)
          ∙ rw (digits_value-decimal fuel (n / 10) (ground arith)) (ap some (omega arith)))
]

-- The first character of a number.
abbrev is_blank : String → Bool
is_blank String.[] = true
is_blank (String.◌∷◌ c s) = false

is_blank-append : (s t : String) → is_blank t ≡ false → is_blank (s <> t) ≡ false
is_blank-append String.[] t h = rw (nil-append t) h
is_blank-append (String.◌∷◌ c s) t h = rw (cons-append c s t) refl

is_blank-digit : (d : ℕ) → is_blank (digit d) ≡ false
unfolding digit
is_blank-digit zero = refl
is_blank-digit (suc zero) = refl
is_blank-digit (suc (suc zero)) = refl
is_blank-digit (suc (suc (suc zero))) = refl
is_blank-digit (suc (suc (suc (suc zero)))) = refl
is_blank-digit (suc (suc (suc (suc (suc zero))))) = refl
is_blank-digit (suc (suc (suc (suc (suc (suc zero)))))) = refl
is_blank-digit (suc (suc (suc (suc (suc (suc (suc zero))))))) = refl
is_blank-digit (suc (suc (suc (suc (suc (suc (suc (suc zero)))))))) = refl
is_blank-digit (suc (suc (suc (suc (suc (suc (suc (suc (suc d))))))))) = refl

is_blank-decimal : (fuel n : ℕ) → is_blank (decimal fuel n) ≡ false
unfolding decimal
is_blank-decimal zero n = is_blank-digit (n % 10)
is_blank-decimal (suc fuel) n = elim (Bool-cases (ltb n 10)) [
  | inl e ↦ rw (decimal, e) (is_blank-digit n)
  | inr e ↦
      rw (decimal, e)
        (is_blank-append (decimal fuel (n / 10)) (digit (n % 10)) (is_blank-digit (n % 10)))
]

unsigned-digits :
    (s : String) (n : ℕ) → is_blank s ≡ false → digits_value s 0 ≡ some n → unsigned s ≡ some n
unfolding unsigned
unsigned-digits String.[] n b h = cc
unsigned-digits (String.◌∷◌ c s) n b h = h

unsigned-itoa_ℕ : (n : ℕ) → unsigned (itoa_ℕ n) ≡ some n
unfolding itoa_ℕ
unsigned-itoa_ℕ n =
    unsigned-digits (decimal n n) n (is_blank-decimal n n) (digits_value-decimal n n (omega arith))

digit_first :
    (c : Char) (s : String) (n : ℕ)
    → digits_value (String.◌∷◌ c s) 0 ≡ some n
    → is_digit (code c) ≡ true
unfolding digits_value
digit_first c s n h = elim (Bool-cases (is_digit (code c))) [
  | inl e ↦ e
  | inr e ↦ absurd (nothing (rw (digits_value, e) at h))
]
  where
    nothing : Path (Option ℕ) none (some n) → ⊥
    nothing k = cc

no_sign : (k : ℕ) → is_digit k ≡ true → (nat_eq k b'-' ≡ false) × (nat_eq k b'+' ≡ false)
unfolding is_digit
no_sign k h = (ground arith, ground arith)

-- A text of digits has no sign.
atoi-unsigned : (s : String) (n : ℕ) → unsigned s ≡ some n → atoi s ≡ in_range false n
unfolding atoi unsigned signed
atoi-unsigned String.[] n h = cc
atoi-unsigned (String.◌∷◌ c s) n h =
    let (minus, plus) = no_sign (code c) (digit_first c s n h) in rw (atoi, minus, plus, h) refl

below : (n : ℕ) → n < 2 ^ 63 → ltb n (2 ^ 63) ≡ true
below n h = ground arith

minus_text : (s : String) → "-" <> s ≡ String.◌∷◌ "-" s
minus_text s = cons-append "-" "" s ∙ ap (String.◌∷◌ "-") (nil-append s)

-- `Atoi` reads back the text of any 64-bit integer.
pub atoi-itoa : (z : ℤ) → IsInt64 z → atoi (itoa z) ≡ some z
unfolding itoa atoi signed
atoi-itoa (pos n) h = atoi-unsigned (itoa_ℕ n) n (unsigned-itoa_ℕ n) ∙ rw (below n h) refl
atoi-itoa (negsuc n) h = rw (minus_text (itoa_ℕ (suc n)), unsigned-itoa_ℕ (suc n), below n h) refl
