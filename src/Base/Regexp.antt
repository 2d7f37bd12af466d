-- ===== src/Base/Regexp.antt =====
-- Go's `regexp` for the patterns that the program uses: classes of characters, repeated or not, and
-- word boundaries, matched from left to right, with the longest repetition tried first.
pub mod Words
pub mod Literal
use Prim.Native.Nat.{ℕ, zero, suc, ◌-◌}
use Prim.Native.Char.{Char, code}
use Prim.Native.String.{String, count}
use mathlib.Core.Bool.{Bool, true, false, not, ◌&&◌, ◌||◌}
use mathlib.Core.Option.{Option, none, some}
use mathlib.Core.List.{List, [], ◌∷◌}
use portal_conductor.Base.Tests.{leb, nat_eq, if◌then◌else◌}

-- A class of characters, by their codes.
abbrev pub Class : Type 0
Class = ℕ → Bool

pub data Atom : Type 0 where
  one : Class → Atom
  many : Class → Atom  -- `[...]*`
  boundary : Atom  -- `\b`

abbrev pub Pattern : Type 0
Pattern = List Atom

abbrev pub between : ℕ → ℕ → Class
between lo hi c = leb lo c && leb c hi

abbrev pub is_digit : Class
is_digit = between b'0' b'9'

abbrev pub is_letter : Class
is_letter c = between b'a' b'z' c || between b'A' b'Z' c

-- `\w`, which `\b` goes by.
abbrev pub is_word : Class
is_word c = is_letter c || is_digit c || nat_eq c b'_'

-- Whether a text begins with a word character.
abbrev pub begins_word : String → Bool
begins_word String.[] = false
begins_word (String.◌∷◌ c s) = is_word (code c)

abbrev pub differ : Bool → Bool → Bool
differ true b = not b
differ false b = b

abbrev or_else : Option String → Option String → Option String
or_else (some s) later = some s
or_else none later = later

-- A match at the beginning of a text, which is what is left of it. The flag says whether a word
-- character stands before the text.
unfoldable pub match_at : Bool → Pattern → String → Option String
match_at w [] s = some s
match_at w (boundary ∷ p) s =
    let rest = match_at w p s in if differ w (begins_word s) then rest else none
match_at w (one test ∷ p) String.[] = none
match_at w (one test ∷ p) (String.◌∷◌ c s) =
    let rest = match_at (is_word (code c)) p s in if test (code c) then rest else none
match_at w (many test ∷ p) String.[] = match_at w p String.[]
match_at w (many test ∷ p) (String.◌∷◌ c s) =
    let longer = match_at (is_word (code c)) (many test ∷ p) s in
    let here = match_at w p (String.◌∷◌ c s) in if test (code c) then or_else longer here else here

abbrev pub is_match : Option String → Bool
is_match (some rest) = true
is_match none = false

-- `MatchString`: a match at any place.
unfoldable pub match_anywhere : Bool → Pattern → String → Bool
match_anywhere w p String.[] = is_match (match_at w p String.[])
match_anywhere w p (String.◌∷◌ c s) =
    is_match (match_at w p (String.◌∷◌ c s)) || match_anywhere (is_word (code c)) p s

-- `^...$`: the match ends where the text does.
abbrev pub ends : Option String → Bool
ends (some String.[]) = true
ends _ = false

unfoldable pub match_whole : Pattern → String → Bool
match_whole p s = ends (match_at false p s)

abbrev pub prefix_of : ℕ → String → String
prefix_of zero s = String.[]
prefix_of (suc n) String.[] = String.[]
prefix_of (suc n) (String.◌∷◌ c s) = String.◌∷◌ c (prefix_of n s)

-- How many characters a match has taken.
abbrev taken : String → Option String → ℕ
taken s (some rest) = count s - count rest
taken s none = 0

-- The next match begins after the last one, of which `skip` characters are left. A match of a
-- pattern of the program is not empty.
find_from : ℕ → Bool → Pattern → String → List String
find_from skip w p String.[] = []
find_from (suc skip) w p (String.◌∷◌ c s) = find_from skip (is_word (code c)) p s
find_from zero w p (String.◌∷◌ c s) =
    let n = taken (String.◌∷◌ c s) (match_at w p (String.◌∷◌ c s)) in
    let rest = find_from (n - 1) (is_word (code c)) p s in
    if nat_eq n 0 then rest else prefix_of n (String.◌∷◌ c s) ∷ rest

-- `FindAllString(s, -1)`.
unfoldable pub find_all : Pattern → String → List String
unfolding find_from
find_all p s = find_from 0 false p s
