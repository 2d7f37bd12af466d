-- ===== src/Base/Text/Lower.antt =====
-- Lower case leaves a text without capitals as it is.
use Prim.Native.Char.{Char, code}
use Prim.Native.String.{String}
use mathlib.Core.Path.{◌≡◌, refl}
use mathlib.Core.Bool.{Bool, true, ◌&&◌, not}
use portal_conductor.Base.Tests.{leb, and_first, and_second, not-true}
use portal_conductor.Base.Text.{lower_char, to_lower}

abbrev pub no_capital : String → Bool
no_capital String.[] = true
no_capital (String.◌∷◌ c s) = not (leb b'A' (code c) && leb (code c) b'Z') && no_capital s

lower_char_id : (c : Char) → not (leb b'A' (code c) && leb (code c) b'Z') ≡ true → lower_char c ≡ c
unfolding lower_char
lower_char_id c h = rw (lower_char, not-true _ h) refl

pub to_lower-no_capital : (s : String) → no_capital s ≡ true → to_lower s ≡ s
unfolding to_lower
to_lower-no_capital String.[] h = refl
to_lower-no_capital (String.◌∷◌ c s) h =
    rw
      (
        lower_char_id c (and_first (not (leb b'A' (code c) && leb (code c) b'Z')) (no_capital s) h),
        to_lower-no_capital s
            (and_second (not (leb b'A' (code c) && leb (code c) b'Z')) (no_capital s) h),
      )
      refl
