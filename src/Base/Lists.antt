-- ===== src/Base/Lists.antt =====
-- Lists: length over the native numbers, predicates by recursion, Go's lookups and joins.
use Prim.Native.Nat.{ℕ, suc}
use Prim.Native.String.{String, ◌++◌ as ◌<>◌}
use mathlib.Core.Path.{◌≡◌}
use mathlib.Core.Logic.{inl, inr}
use mathlib.Core.Bool.{Bool, true, false, ◌||◌, ◌&&◌}
use mathlib.Core.Option.{Option, none, some}
use mathlib.Core.List.{List, [], ◌∷◌}
use text.Mathlib.Text.{◌==◌}
use portal_conductor.Base.Tests.{Bool-cases, if◌then◌else◌, and_first, and_second}

module _ {ℓ} {A : Type ℓ} where
  abbrev pub length : List A → ℕ
  length [] = 0
  length (x ∷ xs) = suc (length xs)

  abbrev pub is_empty : List A → Bool
  is_empty [] = true
  is_empty (x ∷ xs) = false

  -- A predicate on every element, by recursion: tactics read it as a tuple.
  abbrev pub All {κ} : (A → Type κ) → List A → Type κ
  All P [] = Unit
  All P (x ∷ xs) = P x × All P xs

  -- `filter` by a Boolean test.
  abbrev pub keep : (A → Bool) → List A → List A
  keep test [] = []
  keep test (x ∷ xs) = let rest = keep test xs in if test x then x ∷ rest else rest

  abbrev pub exists : (A → Bool) → List A → Bool
  exists test [] = false
  exists test (x ∷ xs) = test x || exists test xs

  abbrev pub for_all : (A → Bool) → List A → Bool
  for_all test [] = true
  for_all test (x ∷ xs) = test x && for_all test xs

  -- A Go map filled by assignments in this order: the last one to a key counts.
  abbrev pub map_value : String → List (String × A) → Option A
  map_value k [] = none
  map_value k ((j, v) ∷ m) = elim (map_value k m) [
    | some later ↦ some later
    | none ↦ if j == k then some v else none
  ]

abbrev pub contains : List String → String → Bool
contains [] s = false
contains (x ∷ xs) s = x == s || contains xs s

-- `strings.Join`.
abbrev pub join : String → List String → String
join sep [] = ""
join sep (x ∷ []) = x
join sep (x ∷ y ∷ xs) = x <> sep <> join sep (y ∷ xs)

pub All-for_all {ℓ κ} :
    {A : Type ℓ} (P : A → Type κ) (test : A → Bool)
    → ((x : A) → test x ≡ true → P x)
    → (xs : List A) → for_all test xs ≡ true
    → All P xs
All-for_all P test k [] h = tt
All-for_all P test k (x ∷ xs) h = (
  k x (and_first (test x) (for_all test xs) h),
  All-for_all P test k xs (and_second (test x) (for_all test xs) h),
)

pub All-keep {ℓ κ} :
    {A : Type ℓ} (P : A → Type κ) (p : A → Bool)
    → ((x : A) → p x ≡ true → P x)
    → (xs : List A) → All P (keep p xs)
All-keep P p h [] = tt
All-keep P p h (x ∷ xs) = elim (Bool-cases (p x)) [
  | inl e ↦ rw e (h x e, All-keep P p h xs)
  | inr e ↦ rw e (All-keep P p h xs)
]
