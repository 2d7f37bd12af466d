-- ===== src/Api/Portal/Names.antt =====
-- Names in the format of the portal.
use Prim.{absurd}
use Prim.Native.Char.{code}
use text.Mathlib.TextLemmas.{cons≢nil}
use portal_conductor.Base.{
  String, ◌≡◌, ◌==◌, refl, Bool, true, false, not, ◌&&◌, leb, eq_iff, arith, and_first, and_second,
}
use portal_conductor.Base.Text.{to_lower}
use portal_conductor.Base.Text.Lower.{no_capital, to_lower-no_capital}
use portal_conductor.Api.Portal.{is_name_code, all_name_codes, username_valid}

not_capital : (k : _) → is_name_code k ≡ true → not (leb b'A' k && leb k b'Z') ≡ true
not_capital k h = ground arith

no_capital-names : (s : String) → all_name_codes s ≡ true → no_capital s ≡ true
unfolding all_name_codes
no_capital-names String.[] h = refl
no_capital-names (String.◌∷◌ c s) h =
    rw (not_capital (code c) (and_first (is_name_code (code c)) (all_name_codes s) h))
      (no_capital-names s (and_second (is_name_code (code c)) (all_name_codes s) h))

-- A name in the format that the registration accepts is its own lower case and is not empty.
pub to_lower-username_valid :
    (u : String) → username_valid u ≡ true → (to_lower u ≡ u) × ((u == "") ≡ false)
unfolding username_valid
to_lower-username_valid String.[] h = cc
to_lower-username_valid (String.◌∷◌ c s) h =
    (to_lower-no_capital (String.◌∷◌ c s) (no_capital-names (String.◌∷◌ c s) h), not_empty _ refl)
  where
    not_empty : (b : Bool) → (String.◌∷◌ c s == "") ≡ b → b ≡ false
    not_empty true e = absurd (cons≢nil ((eq_iff (String.◌∷◌ c s) "").0 e))
    not_empty false e = refl
