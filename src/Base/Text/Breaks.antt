-- ===== src/Base/Text/Breaks.antt =====
-- Texts without a line break.
use Prim.Native.Nat.{ℕ, zero, suc, ◌/◌, ◌%◌}
use Prim.Native.Char.{code}
use Prim.Native.String.{String, ◌++◌ as ◌<>◌}
use mathlib.Core.Path.{◌≡◌, refl}
use mathlib.Core.Bool.{Bool, true, false, ◌||◌}
use mathlib.Core.Option.{Option, none, some}
use text.Mathlib.TextLemmas.{nil-append, cons-append}
use portal_conductor.Base.Tests.{ltb, nat_eq, or_first, or_second, if◌then◌else◌}
use portal_conductor.Base.Int.{ℤ, pos, negsuc}
use portal_conductor.Base.Text.{digit, decimal, itoa_ℕ, itoa}
use portal_conductor.Base.Text.Search.{after_last}

-- A carriage return or a line feed.
abbrev pub is_break : ℕ → Bool
is_break c = nat_eq c b'\r' || nat_eq c b'\n'

unfoldable pub has_break : String → Bool
has_break String.[] = false
has_break (String.◌∷◌ c s) = is_break (code c) || has_break s

abbrev pub IsUnbroken : String → Type 0
IsUnbroken s = has_break s ≡ false

or_false : (a b : Bool) → a ≡ false → b ≡ false → (a || b) ≡ false
or_false true b h k = cc
or_false false b h k = k

pub IsUnbroken-append : (s t : String) → IsUnbroken s → IsUnbroken t → IsUnbroken (s <> t)
unfolding has_break
IsUnbroken-append String.[] t h k = rw (nil-append t) k
IsUnbroken-append (String.◌∷◌ c s) t h k =
    rw (cons-append c s t)
      (or_false _ _ (or_first _ _ h) (IsUnbroken-append s t (or_second (is_break (code c)) _ h) k))

digit-IsUnbroken : (n : ℕ) → IsUnbroken (digit n)
unfolding has_break digit
digit-IsUnbroken zero = refl
digit-IsUnbroken (suc zero) = refl
digit-IsUnbroken (suc (suc zero)) = refl
digit-IsUnbroken (suc (suc (suc zero))) = refl
digit-IsUnbroken (suc (suc (suc (suc zero)))) = refl
digit-IsUnbroken (suc (suc (suc (suc (suc zero))))) = refl
digit-IsUnbroken (suc (suc (suc (suc (suc (suc zero)))))) = refl
digit-IsUnbroken (suc (suc (suc (suc (suc (suc (suc zero))))))) = refl
digit-IsUnbroken (suc (suc (suc (suc (suc (suc (suc (suc zero)))))))) = refl
digit-IsUnbroken (suc (suc (suc (suc (suc (suc (suc (suc (suc n))))))))) = refl

IsUnbroken-if :
    (b : Bool) (s t : String) → IsUnbroken s → IsUnbroken t → IsUnbroken (if b then s else t)
IsUnbroken-if true s t h k = h
IsUnbroken-if false s t h k = k

decimal-IsUnbroken : (fuel n : ℕ) → IsUnbroken (decimal fuel n)
unfolding decimal
decimal-IsUnbroken zero n = digit-IsUnbroken (n % 10)
decimal-IsUnbroken (suc fuel) n =
    IsUnbroken-if (ltb n 10) (digit n) (decimal fuel (n / 10) <> digit (n % 10))
      (digit-IsUnbroken n)
      (IsUnbroken-append (decimal fuel (n / 10)) (digit (n % 10)) (decimal-IsUnbroken fuel (n / 10))
        (digit-IsUnbroken (n % 10)))

pub itoa-IsUnbroken : (n : ℤ) → IsUnbroken (itoa n)
unfolding itoa itoa_ℕ has_break
itoa-IsUnbroken (pos n) = decimal-IsUnbroken n n
itoa-IsUnbroken (negsuc n) =
    IsUnbroken-append "-" (decimal (suc n) (suc n)) refl (decimal-IsUnbroken (suc n) (suc n))

abbrev pub AreUnbroken : Option String → Type 0
AreUnbroken (some s) = IsUnbroken s
AreUnbroken none = Unit

pub after_last-AreUnbroken : (b : ℕ) (s : String) → IsUnbroken s → AreUnbroken (after_last b s)
unfolding after_last has_break
after_last-AreUnbroken b String.[] h = tt
after_last-AreUnbroken b (String.◌∷◌ c s) h =
    by_rest (after_last b s) (nat_eq (code c) b)
      (after_last-AreUnbroken b s (or_second (is_break (code c)) _ h))
  where
    by_rest :
        (o : Option String) (here : Bool)
        → AreUnbroken o
        → AreUnbroken (elim o [ some rest ↦ some rest | none ↦ if here then some s else none ])
    by_rest (some rest) here k = k
    by_rest none true k = or_second (is_break (code c)) _ h
    by_rest none false k = tt
