-- ===== src/Base/Text.antt =====
-- What the program uses of Go's `strings` and `strconv`.
pub mod Decimal
pub mod Lower
pub mod Search
pub mod Order
pub mod Breaks
use Prim.Native.Nat.{ℕ, zero, suc, ◌+◌, ◌-◌, ◌*◌, ◌/◌, ◌%◌, ◌^◌}
use Prim.Native.Char.{Char, code}
use Prim.Native.String.{String, ◌++◌ as ◌<>◌, len, slice, char_at}
use mathlib.Core.Path.{◌≡◌, refl}
use mathlib.Core.Bool.{Bool, true, false, ◌&&◌}
use mathlib.Core.Option.{Option, none, some}
use mathlib.Core.List.{List, [], ◌∷◌}
use text.Mathlib.Text.{starts_with, find?}
use portal_conductor.Base.Tests.{ltb, leb, nat_eq, if◌then◌else◌}
use portal_conductor.Base.Int.{ℤ, pos, negsuc}

-- The code points of a text.
abbrev pub codes : String → List ℕ
codes String.[] = []
codes (String.◌∷◌ c s) = code c ∷ codes s

-- `unicode.ToLower` of a character of ASCII; any other character is left as it is.
lower_char : Char → Char
lower_char c =
    if leb b'A' (code c) && leb (code c) b'Z'
    then char_at "abcdefghijklmnopqrstuvwxyz" (code c - b'A')
    else c

-- `strings.ToLower`, for texts whose letters are those of ASCII.
unfoldable pub to_lower : String → String
unfolding lower_char
to_lower String.[] = String.[]
to_lower (String.◌∷◌ c s) = String.◌∷◌ (lower_char c) (to_lower s)

to_lower_test : to_lower "Ann.Lee-Z@CyVerse.org" ≡ "ann.lee-z@cyverse.org"
unfolding to_lower
to_lower_test = refl

digit : ℕ → String
digit zero = "0"
digit (suc zero) = "1"
digit (suc (suc zero)) = "2"
digit (suc (suc (suc zero))) = "3"
digit (suc (suc (suc (suc zero)))) = "4"
digit (suc (suc (suc (suc (suc zero))))) = "5"
digit (suc (suc (suc (suc (suc (suc zero)))))) = "6"
digit (suc (suc (suc (suc (suc (suc (suc zero))))))) = "7"
digit (suc (suc (suc (suc (suc (suc (suc (suc zero)))))))) = "8"
digit _ = "9"

-- Each round takes the last digit off, so `n` rounds are enough for `n`.
decimal : ℕ → ℕ → String
decimal zero n = digit (n % 10)
decimal (suc fuel) n =
    let rest = decimal fuel (n / 10) in if ltb n 10 then digit n else rest <> digit (n % 10)

-- `strconv.Itoa` of a number that is not negative.
unfoldable pub itoa_ℕ : ℕ → String
unfolding decimal digit
itoa_ℕ n = decimal n n

-- `strconv.Itoa` and `strconv.FormatInt(n, 10)`.
unfoldable pub itoa : ℤ → String
unfolding itoa_ℕ
itoa (pos n) = itoa_ℕ n
itoa (negsuc n) = "-" <> itoa_ℕ (suc n)

is_digit : ℕ → Bool
is_digit c = leb b'0' c && leb c b'9'

-- The value of a text of digits, or `none` where another character stands.
digits_value : String → ℕ → Option ℕ
digits_value String.[] n = some n
digits_value (String.◌∷◌ c s) n =
    let rest = digits_value s (n * 10 + (code c - b'0')) in if is_digit (code c) then rest else none

unsigned : String → Option ℕ
unsigned String.[] = none
unsigned (String.◌∷◌ c s) = digits_value (String.◌∷◌ c s) 0

abbrev in_range : Bool → ℕ → Option ℤ
in_range false n = if ltb n (2 ^ 63) then some (pos n) else none
in_range true zero = some (pos 0)
in_range true (suc n) = if ltb n (2 ^ 63) then some (negsuc n) else none

signed : Bool → Option ℕ → Option ℤ
signed minus none = none
signed minus (some n) = in_range minus n

-- `strconv.Atoi`: an optional sign and decimal digits, in the range of a 64-bit `int`. It is
-- `none` where Go returns an error.
unfoldable pub atoi : String → Option ℤ
unfolding digits_value is_digit unsigned signed
atoi String.[] = none
atoi (String.◌∷◌ c s) =
    if nat_eq (code c) b'-'
    then signed true (unsigned s)
    else if nat_eq (code c) b'+'
    then signed false (unsigned s)
    else signed false (unsigned (String.◌∷◌ c s))

-- `strings.TrimPrefix`.
unfoldable pub trim_prefix : String → String → String
trim_prefix s prefix = if starts_with s prefix then slice s (len prefix) (len s) else s

itoa_tests :
    (itoa (pos 0) ≡ "0")
    × (itoa (pos 10013) ≡ "10013")
    × (itoa (negsuc 41) ≡ "-42")
    × (itoa_ℕ 18446744073709551615 ≡ "18446744073709551615")
unfolding itoa
itoa_tests = (refl, refl, refl, refl)

atoi_tests :
    (atoi "730" ≡ some (pos 730))
    × (atoi "-42" ≡ some (negsuc 41))
    × (atoi "+7" ≡ some (pos 7))
    × (atoi "9223372036854775807" ≡ some (pos 9223372036854775807))
    × (atoi "9223372036854775808" ≡ none)
    × (atoi "12a" ≡ none)
    × (atoi "-" ≡ none)
unfolding atoi
atoi_tests = (refl, refl, refl, refl, refl, refl, refl)

trim_prefix_test : trim_prefix "--config=a.json" "--config=" ≡ "a.json"
unfolding trim_prefix
trim_prefix_test = refl
