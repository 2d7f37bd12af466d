-- ===== src/Base/Text/Order.antt =====
-- The order of texts, by the codes of their characters.
use Prim.{⊥, absurd}
use Prim.Native.Nat.{ℕ, Ordering, compare as compare_ℕ}
use Prim.Native.Char.{code}
use Prim.Native.String.{String, compare, then as first_of}
use Prim.Native.String.compare as Compare
use mathlib.Core.Path.{◌≡◌, refl}
use native.Mathlib.Omega.{arith}
use text.Mathlib.TextEquality.{path_by_compare}
use portal_conductor.Base.SortedSet.{flip, IsOrder}

impossible : Ordering.gt ≡ Ordering.lt → ⊥
impossible h = cc

numbers_flip : (a b : ℕ) → compare_ℕ b a ≡ flip (compare_ℕ a b)
numbers_flip a b = ground arith

first_flip :
    (o o' p p' : Ordering) → o' ≡ flip o → p' ≡ flip p → first_of o' p' ≡ flip (first_of o p)
first_flip Ordering.lt o' p p' h k = rw h refl
first_flip Ordering.eq o' p p' h k = rw h k
first_flip Ordering.gt o' p p' h k = rw h refl

texts_flip : (s t : String) → compare t s ≡ flip (compare s t)
texts_flip String.[] String.[] = refl
texts_flip String.[] (String.◌∷◌ d t) = rw (Compare.cons-nil d t, Compare.nil-cons d t) refl
texts_flip (String.◌∷◌ c s) String.[] = rw (Compare.cons-nil c s, Compare.nil-cons c s) refl
texts_flip (String.◌∷◌ c s) (String.◌∷◌ d t) =
    rw (Compare.cons-cons c d s t, Compare.cons-cons d c t s)
      (first_flip _ _ _ _ (numbers_flip (code c) (code d)) (texts_flip s t))

first_lt :
    (o o' o'' p p' p'' : Ordering)
    → (o ≡ Ordering.lt → o' ≡ Ordering.lt → o'' ≡ Ordering.lt)
    → (o ≡ Ordering.eq → o'' ≡ o')
    → (o' ≡ Ordering.eq → o'' ≡ o)
    → (p ≡ Ordering.lt → p' ≡ Ordering.lt → p'' ≡ Ordering.lt)
    → first_of o p ≡ Ordering.lt
    → first_of o' p' ≡ Ordering.lt
    → first_of o'' p'' ≡ Ordering.lt
first_lt Ordering.lt Ordering.lt o'' p p' p'' f g k l h h' = rw (f refl refl) refl
first_lt Ordering.lt Ordering.eq o'' p p' p'' f g k l h h' = rw (k refl) refl
first_lt Ordering.lt Ordering.gt o'' p p' p'' f g k l h h' = cc
first_lt Ordering.eq o' o'' p p' p'' f g k l h h' = rw (g refl) (by_second o' h' k)
  where
    by_second :
        (q : Ordering)
        → first_of q p' ≡ Ordering.lt
        → (q ≡ Ordering.eq → o'' ≡ Ordering.eq)
        → first_of q p'' ≡ Ordering.lt
    by_second Ordering.lt e m = refl
    by_second Ordering.eq e m = l h e
    by_second Ordering.gt e m = cc
first_lt Ordering.gt o' o'' p p' p'' f g k l h h' = cc

numbers_trans :
    (a b c : ℕ)
    → compare_ℕ a b ≡ Ordering.lt
    → compare_ℕ b c ≡ Ordering.lt
    → compare_ℕ a c ≡ Ordering.lt
numbers_trans a b c h k = ground arith

numbers_left : (a b c : ℕ) → compare_ℕ a b ≡ Ordering.eq → compare_ℕ a c ≡ compare_ℕ b c
numbers_left a b c h = ground arith

numbers_right : (a b c : ℕ) → compare_ℕ b c ≡ Ordering.eq → compare_ℕ a c ≡ compare_ℕ a b
numbers_right a b c h = ground arith

texts_trans :
    (s t u : String)
    → compare s t ≡ Ordering.lt
    → compare t u ≡ Ordering.lt
    → compare s u ≡ Ordering.lt
texts_trans String.[] String.[] u h k = cc
texts_trans String.[] (String.◌∷◌ d t) String.[] h k =
    absurd (impossible (rw (Compare.cons-nil d t) at k))
texts_trans String.[] (String.◌∷◌ d t) (String.◌∷◌ e u) h k = Compare.nil-cons e u
texts_trans (String.◌∷◌ c s) String.[] u h k = absurd (impossible (rw (Compare.cons-nil c s) at h))
texts_trans (String.◌∷◌ c s) (String.◌∷◌ d t) String.[] h k =
    absurd (impossible (rw (Compare.cons-nil d t) at k))
texts_trans (String.◌∷◌ c s) (String.◌∷◌ d t) (String.◌∷◌ e u) h k =
    rw (Compare.cons-cons c e s u) (
      first_lt _ _ _ _ _ _ (numbers_trans (code c) (code d) (code e))
        (numbers_left (code c) (code d) (code e)) (numbers_right (code c) (code d) (code e))
        (texts_trans s t u) (rw (Compare.cons-cons c d s t) at h)
        (rw (Compare.cons-cons d e t u) at k))

pub IsOrder-texts : IsOrder compare
IsOrder-texts = record { flips = texts_flip; equal = path_by_compare; trans = texts_trans }
