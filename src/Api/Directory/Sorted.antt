-- ===== src/Api/Directory/Sorted.antt =====
-- The order of the listing of the groups.
use Prim.Native.Nat.{Ordering}
use Prim.Native.String.{compare}
use mathlib.Core.List.{Perm}
use portal_conductor.Base.{String, ◌≡◌, List, [], ◌∷◌}
use portal_conductor.Base.SortedSet.{flip}
use portal_conductor.Base.Text.{to_lower}
use portal_conductor.Json.{Json}
use portal_conductor.Config.{Config}
use portal_conductor.External.Effect.{Result, ok, err}
use portal_conductor.Kinds.{LdapGroupInfo}
use portal_conductor.LdapClient
use portal_conductor.LdapClient.{Client, Group}
use portal_conductor.Api.{Response, groups}
use portal_conductor.Api.Errors.{write_json}
use portal_conductor.Api.Directory.{named_infos, SortFunc}

-- A strict weak order, as `slices.SortFunc` demands.
pub record IsWeakOrder {A : Type 0} (cmp : A → A → Ordering) : Type 0 where
  pub flips : (x y : A) → cmp y x ≡ flip (cmp x y)
  pub trans : (x y z : A) → cmp x y ≡ Ordering.lt → cmp y z ≡ Ordering.lt → cmp x z ≡ Ordering.lt
  pub alike : (x y z : A) → cmp x y ≡ Ordering.eq → cmp x z ≡ cmp y z

-- No element stands before the one in front of it.
abbrev pub InOrder : {A : Type 0} → (A → A → Ordering) → List A → Type 0
InOrder cmp [] = Unit
InOrder cmp (x ∷ []) = Unit
InOrder cmp (x ∷ y ∷ ys) = ¬ (cmp y x ≡ Ordering.lt) × InOrder cmp (y ∷ ys)

-- What `slices.SortFunc` is documented to do: it puts the elements in ascending order.
pub record IsSort (sort_func : SortFunc) : Type 0 where
  pub in_order :
      (cmp : LdapGroupInfo → LdapGroupInfo → Ordering) (gs : List LdapGroupInfo)
      → IsWeakOrder cmp
      → InOrder cmp (sort_func cmp gs)
  pub permutes :
      (cmp : LdapGroupInfo → LdapGroupInfo → Ordering) (gs : List LdapGroupInfo)
      → IsWeakOrder cmp
      → Perm (sort_func cmp gs) gs

-- The names in lower case ascend.
abbrev pub NamesAscend : List LdapGroupInfo → Type 0
NamesAscend [] = Unit
NamesAscend (g ∷ []) = Unit
NamesAscend (g ∷ h ∷ hs) =
    ¬ (compare (to_lower h.name) (to_lower g.name) ≡ Ordering.lt) × NamesAscend (h ∷ hs)

module _ {W Conn : Type 0} (L : LdapClient.Server W Conn) (c : Client) (cfg : Config)
    (describe : Json → String) (sort_func : SortFunc) (I : IsSort sort_func) where
  -- The listing of the groups that the directory has given.
  abbrev pub Listing : Result (List Group) → Result Response → Type 0
  Listing (ok found) answer =
      (infos : List LdapGroupInfo) × (answer ≡ ok (write_json 200 (groups infos)))
      × NamesAscend infos
      × Perm infos (named_infos found)
  Listing (err e) answer = answer ≡ err e
