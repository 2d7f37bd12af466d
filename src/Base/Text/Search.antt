-- ===== src/Base/Text/Search.antt =====
-- Go's `strings.Contains`, `strings.HasSuffix` and `strings.LastIndex` of a character.
use Prim.Native.Nat.{ℕ}
use Prim.Native.Char.{code}
use Prim.Native.String.{String}
use mathlib.Core.Path.{◌≡◌, refl}
use mathlib.Core.Bool.{Bool, true, false, ◌||◌}
use mathlib.Core.Option.{Option, none, some}
use text.Mathlib.Text.{◌==◌, starts_with}
use portal_conductor.Base.Tests.{nat_eq, if◌then◌else◌}

-- `strings.Contains`.
unfoldable pub has_part : String → String → Bool
has_part String.[] part = starts_with "" part
has_part (String.◌∷◌ c s) part = starts_with (String.◌∷◌ c s) part || has_part s part

-- `strings.HasSuffix`.
unfoldable pub has_suffix : String → String → Bool
has_suffix String.[] end = "" == end
has_suffix (String.◌∷◌ c s) end = (String.◌∷◌ c s) == end || has_suffix s end

-- What follows the last character of that code, or none where there is no such character.
unfoldable pub after_last : ℕ → String → Option String
after_last b String.[] = none
after_last b (String.◌∷◌ c s) = elim (after_last b s) [
  | some rest ↦ some rest
  | none ↦ if nat_eq (code c) b then some s else none
]

search_tests :
    (has_part "your username here" "username" ≡ true)
    × (has_part "user" "username" ≡ false)
    × (has_suffix "list@mailman.org" "@mailman.org" ≡ true)
    × (has_suffix "mailman.org" "@mailman.org" ≡ false)
    × (after_last b'@' "a@b@c>" ≡ some "c>")
unfolding has_part has_suffix after_last
search_tests = (refl, refl, refl, refl, refl)
