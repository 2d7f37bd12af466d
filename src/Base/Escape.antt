-- ===== src/Base/Escape.antt =====
-- `url.QueryEscape`, `url.PathUnescape` and `strings.ReplaceAll`.
use Prim.Native.Nat.{ℕ, zero, suc, ◌+◌, ◌-◌, ◌*◌, ◌/◌, ◌%◌, ◌<◌, compare, Ordering}
use Prim.Native.Char.{Char, char, code, nul, IsScalar}
use Prim.Native.String.{String, ◌++◌ as ◌<>◌, char_at, count}
use mathlib.Core.Path.{◌≡◌, refl}
use mathlib.Core.Option.{Option, none, some}
use mathlib.Core.Logic.{dite}
use native.Mathlib.Decide.{dec_lt}
use native.Mathlib.Omega.{arith}
use mathlib.Core.Bool.{Bool, ◌&&◌, ◌||◌}
use text.Mathlib.Text.{starts_with}
use portal_conductor.Base.Tests.{ltb, leb, nat_eq, if◌then◌else◌}

between : ℕ → ℕ → ℕ → Bool
between lo hi c = leb lo c && leb c hi

is_unreserved : ℕ → Bool
unfolding between
is_unreserved c =
    between b'a' b'z' c
    || between b'A' b'Z' c
    || between b'0' b'9' c
    || nat_eq c b'-'
    || nat_eq c b'_'
    || nat_eq c b'.'
    || nat_eq c b'~'

hex : ℕ → String
hex d = String.◌∷◌ (char_at "0123456789ABCDEF" d) String.[]

percent : ℕ → String
unfolding hex
percent b = "%" <> hex (b / 16) <> hex (b % 16)

-- The bytes of UTF-8, each escaped.
escaped_bytes : ℕ → String
unfolding percent
escaped_bytes c =
    if ltb c 0x80
    then percent c
    else if ltb c 0x800
    then percent (0xC0 + c / 64) <> percent (0x80 + c % 64)
    else if ltb c 0x10000
    then percent (0xE0 + c / 4096) <> percent (0x80 + c / 64 % 64) <> percent (0x80 + c % 64)
    else percent (0xF0 + c / 262144)
      <> percent (0x80 + c / 4096 % 64)
      <> percent (0x80 + c / 64 % 64)
      <> percent (0x80 + c % 64)

escaped_char : Char → String
unfolding is_unreserved escaped_bytes
escaped_char c =
    if is_unreserved (code c)
    then String.◌∷◌ c String.[]
    else if nat_eq (code c) b' '
    then "+"
    else escaped_bytes (code c)

unfoldable pub query_escape : String → String
unfolding escaped_char
query_escape String.[] = ""
query_escape (String.◌∷◌ c s) = escaped_char c <> query_escape s

-- The text with `skip` characters left out of a match that has been replaced.
replace_from : String → String → ℕ → String → String
replace_from old new skip String.[] = String.[]
replace_from old new (suc skip) (String.◌∷◌ c s) = replace_from old new skip s
replace_from old new zero (String.◌∷◌ c s) =
    let replaced = new <> replace_from old new (count old - 1) s in
    let kept = String.◌∷◌ c (replace_from old new zero s) in
    if starts_with (String.◌∷◌ c s) old then replaced else kept

-- `strings.ReplaceAll` of a text that is not empty.
unfoldable pub replace_all : String → String → String → String
unfolding replace_from
replace_all s old new = replace_from old new zero s

query_escape_test : query_escape "p@ss w/é~" ≡ "p%40ss+w%2F%C3%A9~"
unfolding query_escape
query_escape_test = refl

replace_all_test : replace_all "a=pw&b=pwpw" "pw" "[X]" ≡ "a=[X]&b=[X][X]"
unfolding replace_all
replace_all_test = refl

-- The value of a hexadecimal digit.
hex_value : ℕ → Option ℕ
unfolding between
hex_value c =
    if between b'0' b'9' c
    then some (c - b'0')
    else if between b'a' b'f' c
    then some (c - b'a' + 10)
    else if between b'A' b'F' c
    then some (c - b'A' + 10)
    else none

pub scalar : (n : ℕ) → n < 55296 → IsScalar n
scalar n h = rw (below n h) tt
  where
    below : (m : ℕ) → m < 55296 → compare m 55296 ≡ Ordering.lt
    below m k = ground arith

-- The character of a byte.
char_of : ℕ → Char
unfolding dec_lt
char_of n = dite (dec_lt n 55296) (λ h. char n (scalar n h)) (λ _. nul)

abbrev escaped_by : Option ℕ → Option ℕ → Option String → Option String
escaped_by (some hi) (some lo) (some rest) = some (String.◌∷◌ (char_of (hi * 16 + lo)) rest)
escaped_by _ _ _ = none

abbrev kept_char : Char → Option String → Option String
kept_char c (some rest) = some (String.◌∷◌ c rest)
kept_char c none = none

-- `url.PathUnescape`: a `+` is kept, and a `%` without two digits is an error. The texts are read
-- byte by byte: an escape of 0x80 and up stands for the character of that code.
unfoldable pub path_unescape : String → Option String
unfolding hex_value char_of
path_unescape String.[] = some String.[]
path_unescape (String.◌∷◌ c String.[]) =
    if nat_eq (code c) b'%' then none else some (String.◌∷◌ c String.[])
path_unescape (String.◌∷◌ c (String.◌∷◌ d String.[])) =
    if nat_eq (code c) b'%' then none else kept_char c (path_unescape (String.◌∷◌ d String.[]))
path_unescape (String.◌∷◌ c (String.◌∷◌ d (String.◌∷◌ e s))) =
    let escaped = escaped_by (hex_value (code d)) (hex_value (code e)) (path_unescape s) in
    let kept = kept_char c (path_unescape (String.◌∷◌ d (String.◌∷◌ e s))) in
    if nat_eq (code c) b'%' then escaped else kept

path_unescape_tests :
    (path_unescape "a%2Bb+c%40x" ≡ some "a+b+c@x")
    × (path_unescape "50%" ≡ none)
    × (path_unescape "%zz" ≡ none)
unfolding path_unescape
path_unescape_tests = (refl, refl, refl)
