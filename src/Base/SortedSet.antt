-- ===== src/Base/SortedSet.antt =====
-- Sets as the ascending lists of their elements: a Go map with no values, and the sorted list of its
-- keys.
pub mod Laws
use Prim.Native.Nat.{Ordering}
use mathlib.Core.Path.{◌≡◌}
use mathlib.Core.List.{List, [], ◌∷◌, foldr}

abbrev pub flip : Ordering → Ordering
flip Ordering.lt = Ordering.gt
flip Ordering.eq = Ordering.eq
flip Ordering.gt = Ordering.lt

module _ {K : Type 0} (compare : K → K → Ordering) where
  -- A total order, by its comparison.
  pub record IsOrder : Type 0 where
    pub flips : (x y : K) → compare y x ≡ flip (compare x y)
    pub equal : (x y : K) → compare x y ≡ Ordering.eq → x ≡ y
    pub trans :
        (x y z : K)
        → compare x y ≡ Ordering.lt
        → compare y z ≡ Ordering.lt
        → compare x z ≡ Ordering.lt

  abbrev pub placed : Ordering → K → K → List K → List K → List K
  placed Ordering.lt x y ys later = x ∷ y ∷ ys
  placed Ordering.eq x y ys later = y ∷ ys
  placed Ordering.gt x y ys later = y ∷ later

  -- `set[x] = struct{}{}`
  unfoldable pub insert : K → List K → List K
  insert x [] = x ∷ []
  insert x (y ∷ ys) = placed (compare x y) x y ys (insert x ys)

  unfoldable pub insert_all : List K → List K → List K
  insert_all xs set = foldr insert set xs
