-- ===== src/Base/SortedSet/Laws.antt =====
-- Insertions into a set: their order does not count, and the list stays ascending.
use Prim.{⊥, absurd}
use Prim.Native.Nat.{Ordering}
use mathlib.Core.Path.{◌≡◌, refl, sym, ap, ◌∙◌}
use mathlib.Core.Logic.{◌⊎◌, ◌↔◌, inl, inr}
use mathlib.Core.List.{List, [], ◌∷◌}
use portal_conductor.Base.SortedSet.{flip, IsOrder, placed, insert, insert_all}

Ordering-cases : (o : Ordering) → (o ≡ Ordering.lt) ⊎ ((o ≡ Ordering.eq) ⊎ (o ≡ Ordering.gt))
Ordering-cases Ordering.lt = inl refl
Ordering-cases Ordering.eq = inr (inl refl)
Ordering-cases Ordering.gt = inr (inr refl)

-- An element of a list, at a place of its own.
abbrev pub Among : {K : Type 0} → K → List K → Type 0
Among e [] = ⊥
Among e (x ∷ xs) = (e ≡ x) ⊎ Among e xs

module _ {K : Type 0} (compare : K → K → Ordering) (O : IsOrder compare) where
  greater : {x y : K} → compare x y ≡ Ordering.lt → compare y x ≡ Ordering.gt
  greater {x} {y} h = O.flips x y ∙ ap flip h

  less : {x y : K} → compare x y ≡ Ordering.gt → compare y x ≡ Ordering.lt
  less {x} {y} h = O.flips x y ∙ ap flip h

  SwapAt : K → K → List K → Type 0
  SwapAt x y zs = insert compare x (insert compare y zs) ≡ insert compare y (insert compare x zs)

  swapped_in_order :
      (x y z : K) (zs : List K) → compare x y ≡ Ordering.lt → SwapAt x y zs → SwapAt x y (z ∷ zs)
  unfolding insert SwapAt
  swapped_in_order x y z zs h ih = elim (Ordering-cases (compare y z)) [
    | inl k ↦ rw (k, O.trans x y z h k, h, greater h, k) refl
    | inr (inl k) ↦ rw (k, rw (O.equal y z k) at h, greater h, k) refl
    | inr (inr k) ↦ elim (Ordering-cases (compare x z)) [
      | inl l ↦ rw (k, l, greater h, k) refl
      | inr (inl l) ↦ rw (k, l, k) refl
      | inr (inr l) ↦ rw (k, l, k) (ap (λ ws. z ∷ ws) ih)
    ]
  ]

  SwapAt-sym : (x y : K) (zs : List K) → SwapAt x y zs → SwapAt y x zs
  unfolding SwapAt
  SwapAt-sym x y zs h = sym h

  swapped_same : (x y : K) (zs : List K) → x ≡ y → SwapAt x y zs
  unfolding SwapAt
  swapped_same x y zs e =
      ap (λ t. insert compare t (insert compare y zs)) e
      ∙ ap (λ t. insert compare y (insert compare t zs)) (sym e)

  swapped : (x y : K) (zs : List K) → SwapAt x y zs
  unfolding insert SwapAt
  swapped x y [] = elim (Ordering-cases (compare x y)) [
    | inl h ↦ rw (h, greater h) refl
    | inr (inl h) ↦ swapped_same x y [] (O.equal x y h)
    | inr (inr h) ↦ rw (h, less h) refl
  ]
  swapped x y (z ∷ zs) = elim (Ordering-cases (compare x y)) [
    | inl h ↦ swapped_in_order x y z zs h (swapped x y zs)
    | inr (inl h) ↦ swapped_same x y (z ∷ zs) (O.equal x y h)
    | inr (inr h) ↦
        SwapAt-sym y x (z ∷ zs)
          (swapped_in_order y x z zs (less h) (SwapAt-sym x y zs (swapped x y zs)))
  ]

  pub insert_comm :
      (x y : K) (zs : List K)
      → insert compare x (insert compare y zs) ≡ insert compare y (insert compare x zs)
  unfolding SwapAt
  insert_comm x y zs = swapped x y zs

  insert-insert_all :
      (x : K) (ys zs : List K)
      → insert_all compare ys (insert compare x zs) ≡ insert compare x (insert_all compare ys zs)
  unfolding insert_all
  insert-insert_all x [] zs = refl
  insert-insert_all x (y ∷ ys) zs =
      ap (insert compare y) (insert-insert_all x ys zs) ∙ insert_comm y x (insert_all compare ys zs)

  pub insert_all_comm :
      (xs ys zs : List K)
      → insert_all compare xs (insert_all compare ys zs)
        ≡ insert_all compare ys (insert_all compare xs zs)
  unfolding insert_all
  insert_all_comm [] ys zs = refl
  insert_all_comm (x ∷ xs) ys zs =
      ap (insert compare x) (insert_all_comm xs ys zs)
      ∙ sym (insert-insert_all x ys (insert_all compare xs zs))

  -- Each element stands before the next one.
  abbrev pub IsAscending : List K → Type 0
  IsAscending [] = Unit
  IsAscending (x ∷ []) = Unit
  IsAscending (x ∷ y ∷ ys) = (compare x y ≡ Ordering.lt) × IsAscending (y ∷ ys)

  below_inserted :
      (z x : K) (ys : List K)
      → compare x z ≡ Ordering.gt
      → IsAscending (z ∷ ys)
      → IsAscending (insert compare x ys)
      → IsAscending (z ∷ insert compare x ys)
  unfolding insert
  below_inserted z x [] h a k = (less h, tt)
  below_inserted z x (y ∷ ys) h a k = elim (Ordering-cases (compare x y)) [
    | inl l ↦ rw (insert, l) (less h, rw (insert, l) at k)
    | inr (inl l) ↦ rw (insert, l) a
    | inr (inr l) ↦ rw (insert, l) (a.0, rw (insert, l) at k)
  ]

  pub insert-IsAscending :
      (x : K) (ys : List K) → IsAscending ys → IsAscending (insert compare x ys)
  unfolding insert
  insert-IsAscending x [] a = tt
  insert-IsAscending x (y ∷ []) a = elim (Ordering-cases (compare x y)) [
    | inl l ↦ rw (insert, l) (l, tt)
    | inr (inl l) ↦ rw (insert, l) tt
    | inr (inr l) ↦ rw (insert, l) (less l, tt)
  ]
  insert-IsAscending x (y ∷ z ∷ zs) a = elim (Ordering-cases (compare x y)) [
    | inl l ↦ rw (insert, l) (l, a)
    | inr (inl l) ↦ rw (insert, l) a
    | inr (inr l) ↦
        rw (insert, l) (below_inserted y x (z ∷ zs) l a (insert-IsAscending x (z ∷ zs) a.1))
  ]

  pub insert_all-IsAscending :
      (xs ys : List K) → IsAscending ys → IsAscending (insert_all compare xs ys)
  unfolding insert_all
  insert_all-IsAscending [] ys a = a
  insert_all-IsAscending (x ∷ xs) ys a =
      insert-IsAscending x (insert_all compare xs ys) (insert_all-IsAscending xs ys a)

  Among-placed :
      (o : Ordering) (e x y : K) (ys later : List K)
      → (compare x y ≡ o)
      → (Among e later → (e ≡ x) ⊎ Among e ys)
      → Among e (placed compare o x y ys later)
      → (e ≡ x) ⊎ Among e (y ∷ ys)
  Among-placed Ordering.lt e x y ys later h k (inl m) = inl m
  Among-placed Ordering.lt e x y ys later h k (inr m) = inr m
  Among-placed Ordering.eq e x y ys later h k m = inr m
  Among-placed Ordering.gt e x y ys later h k (inl m) = inr (inl m)
  Among-placed Ordering.gt e x y ys later h k (inr m) = elim (k m) [
    | inl l ↦ inl l
    | inr l ↦ inr (inr l)
  ]

  placed-Among :
      (o : Ordering) (e x y : K) (ys later : List K)
      → (compare x y ≡ o)
      → ((e ≡ x) ⊎ Among e ys → Among e later)
      → (e ≡ x) ⊎ Among e (y ∷ ys)
      → Among e (placed compare o x y ys later)
  placed-Among Ordering.lt e x y ys later h k (inl m) = inl m
  placed-Among Ordering.lt e x y ys later h k (inr m) = inr m
  placed-Among Ordering.eq e x y ys later h k (inl m) = inl (m ∙ O.equal x y h)
  placed-Among Ordering.eq e x y ys later h k (inr m) = m
  placed-Among Ordering.gt e x y ys later h k (inl m) = inr (k (inl m))
  placed-Among Ordering.gt e x y ys later h k (inr (inl m)) = inl m
  placed-Among Ordering.gt e x y ys later h k (inr (inr m)) = inr (k (inr m))

  Among-insert : (e x : K) (ys : List K) → Among e (insert compare x ys) ↔ ((e ≡ x) ⊎ Among e ys)
  unfolding insert
  Among-insert e x [] = (λ m. m, λ m. m)
  Among-insert e x (y ∷ ys) = (
    Among-placed (compare x y) e x y ys _ refl (Among-insert e x ys).0,
    placed-Among (compare x y) e x y ys _ refl (Among-insert e x ys).1,
  )

  -- An element of the larger set is one of those inserted, or was there.
  pub Among-insert_all :
      (e : K) (xs ys : List K) → Among e (insert_all compare xs ys) ↔ (Among e xs ⊎ Among e ys)
  unfolding insert_all
  Among-insert_all e [] ys = (inr, λ m. elim m [ inr h ↦ h | inl h ↦ absurd h ])
  Among-insert_all e (x ∷ xs) ys = (
    λ m. elim ((Among-insert e x (insert_all compare xs ys)).0 m) [
      | inl h ↦ inl (inl h)
      | inr h ↦ elim ((Among-insert_all e xs ys).0 h) [ inl k ↦ inl (inr k) | inr k ↦ inr k ]
    ],
    λ m. (Among-insert e x (insert_all compare xs ys)).1 (elim m [
      | inl (inl h) ↦ inl h
      | inl (inr h) ↦ inr ((Among-insert_all e xs ys).1 (inl h))
      | inr h ↦ inr ((Among-insert_all e xs ys).1 (inr h))
    ]),
  )
