-- ===== src/Examples/Sorting.antt =====
-- A sort that does what `slices.SortFunc` is documented to do: insertion.
use Prim.Native.Nat.{Ordering}
use mathlib.Core.List.{Perm}
use mathlib.Core.List.Perm as Permutation
use portal_conductor.Base.{Bool, true, false, none, List, [], ◌∷◌, if◌then◌else◌}
use portal_conductor.Kinds.{LdapGroupInfo}
use portal_conductor.Api.Directory.{SortFunc}
use portal_conductor.Api.{Request, not_json}
use portal_conductor.Examples.Ldap

abbrev is_less : Ordering → Bool
is_less Ordering.lt = true
is_less _ = false

module _ (cmp : LdapGroupInfo → LdapGroupInfo → Ordering) where
  insert_sorted : LdapGroupInfo → List LdapGroupInfo → List LdapGroupInfo
  insert_sorted g [] = g ∷ []
  insert_sorted g (h ∷ hs) =
      let later = h ∷ insert_sorted g hs in if is_less (cmp h g) then later else g ∷ h ∷ hs

pub sort_func : SortFunc
sort_func cmp [] = []
sort_func cmp (g ∷ gs) = insert_sorted cmp g (sort_func cmp gs)

abbrev plain_request : Request
plain_request = record {
  credentials = none;
  path_value = λ s. "";
  query_value = λ s. "";
  body = not_json;
}
