-- ===== src/Base/Regexp/Words.antt =====
-- Patterns of the program, and `QuoteMeta`.
use Prim.Native.Nat.{ℕ, zero, suc}
use Prim.Native.Char.{code}
use Prim.Native.String.{String}
use mathlib.Core.Path.{◌≡◌, refl}
use mathlib.Core.Bool.{true, false, ◌||◌}
use mathlib.Core.List.{[], ◌∷◌, ◌++◌}
use portal_conductor.Base.Tests.{nat_eq}
use portal_conductor.Base.Regexp.{
  Class, one, many, boundary, Pattern, between, is_digit, is_letter, match_at, match_anywhere,
  match_whole, find_all,
}

-- `QuoteMeta`: the characters of a text, each for itself.
unfoldable pub literal : String → Pattern
literal String.[] = []
literal (String.◌∷◌ c s) = one (nat_eq (code c)) ∷ literal s

-- `[...]{n}`
abbrev pub times : ℕ → Class → Pattern
times zero test = []
times (suc n) test = one test ∷ times n test

abbrev pub is_hex : Class
is_hex c = between b'0' b'9' c || between b'a' b'f' c || between b'A' b'F' c

abbrev local_class : Class
local_class c =
    is_letter c
    || is_digit c
    || nat_eq c b'.'
    || nat_eq c b'_'
    || nat_eq c b'%'
    || nat_eq c b'+'
    || nat_eq c b'-'

abbrev domain_class : Class
domain_class c = is_letter c || is_digit c || nat_eq c b'.' || nat_eq c b'-'

-- `\b[A-Za-z0-9._%+-]+@[A-Za-z0-9.-]+\.[A-Za-z]{2,}\b`
abbrev pub email_pattern : Pattern
email_pattern =
    boundary
    ∷ one local_class
    ∷ many local_class
    ∷ one (nat_eq b'@')
    ∷ one domain_class
    ∷ many domain_class
    ∷ one (nat_eq b'.')
    ∷ one is_letter
    ∷ one is_letter
    ∷ many is_letter
    ∷ boundary
    ∷ []

find_all_tests :
    (find_all email_pattern "<td>Ann.Lee@CyVerse.org</td> bob@x.y, (c@d.com.) e@f..co1"
      ≡ "Ann.Lee@CyVerse.org" ∷ "c@d.com" ∷ [])
    × (find_all email_pattern "a@b.org@c.net" ≡ "a@b.org" ∷ [])
    × (find_all email_pattern "-x@y.zz" ≡ "x@y.zz" ∷ [])
unfolding find_all match_at
find_all_tests = (refl, refl, refl)

match_tests :
    (match_anywhere false (boundary ∷ literal "a.b" ++ boundary ∷ []) "x-a.b-y" ≡ true)
    × (match_anywhere false (boundary ∷ literal "a.b" ++ boundary ∷ []) "xa.b" ≡ false)
    × (match_whole (times 2 is_hex) "aF" ≡ true)
    × (match_whole (times 2 is_hex) "aFa" ≡ false)
unfolding match_anywhere match_whole match_at literal
match_tests = (refl, refl, refl, refl)
