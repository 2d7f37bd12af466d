-- ===== src/DataStore/Contents/Depth.antt =====
-- The fuel of `deleteContents`.
use Prim.{absurd}
use mathlib.Core.Path.{fun_ext}
use portal_conductor.Base.{
  ℕ, zero, suc, ◌<◌, String, ◌≡◌, refl, ap, true, List, [], ◌∷◌, All, arith, Bool-cases, inl, inr,
}
use portal_conductor.External.Effect.{Result, ok, err, Call, Done, proceed, ◌>>=◌, ◌>>◌, for_each}
use portal_conductor.DataStore.{Server, DirEntry}
use portal_conductor.DataStore.Contents.{delete_entry, delete_contents}

-- Two ways to go on agree on the values that a result may have.
proceed_agree :
    {W A B : Type 0} (r : Result A) (f g : A → Call W B) (w : W)
    → ((a : A) → r ≡ ok a → f a w ≡ g a w)
    → proceed r f w ≡ proceed r g w
proceed_agree (ok a) f g w h = h a refl
proceed_agree (err e) f g w h = refl

for_each_agree :
    {W : Type 0} {A : Type 0} (f g : A → Call W Done) (xs : List A)
    → All (λ x. f x ≡ g x) xs
    → for_each f xs ≡ for_each g xs
unfolding for_each
for_each_agree f g [] h = refl
for_each_agree f g (x ∷ xs) h = rw (h.0, for_each_agree f g xs h.1) refl

-- A height of collections under which every listed subcollection is lower than its parent.
abbrev pub IsHeight : {W Fs : Type 0} → Server W Fs → Fs → (String → ℕ) → Type 0
IsHeight {W} S fs height =
    (collection : String) (w : W) (es : List DirEntry)
    → (S.list_dir fs collection w).0 ≡ ok es
    → All (λ e. e.is_dir ≡ true → height e.path < height collection) es

module _ {W Fs : Type 0} (S : Server W Fs) (fs : Fs) (height : String → ℕ)
    (H : IsHeight S fs height) where
  -- Each round of the loop agrees where the removals from lower collections do.
  delete_entry-agree :
      (f g : String → Call W Done) (collection : String)
      → ((path : String) → height path < height collection → f path ≡ g path)
      → (es : List DirEntry) → All (λ e. e.is_dir ≡ true → height e.path < height collection) es
      → All (λ e. delete_entry S fs f e ≡ delete_entry S fs g e) es
  unfolding delete_entry
  delete_entry-agree f g collection below [] l = tt
  delete_entry-agree f g collection below (e ∷ es) l = (
    elim (Bool-cases e.is_dir) [
      | inl d ↦
          rw (delete_entry, d)
            (ap (λ m. m >> S.remove_dir fs e.path true true) (below e.path (l.0 d)))
      | inr d ↦ rw (delete_entry, d) refl
    ],
    delete_entry-agree f g collection below es l.1,
  )

  -- Fuel above the height of the collection is enough: with any more, the removal of its contents
  -- sends the same requests and ends with the same result, so that the end of the fuel is not met.
  pub delete_contents-enough :
      (fuel more : ℕ) (collection : String)
      → height collection < fuel
      → height collection < more
      → delete_contents S fuel fs collection ≡ delete_contents S more fs collection
  unfolding delete_contents ◌>>=◌
  delete_contents-enough zero more collection h k = absurd (omega arith)
  delete_contents-enough (suc fuel) zero collection h k = absurd (omega arith)
  delete_contents-enough (suc fuel) (suc more) collection h k = fun_ext λ w.
      proceed_agree (S.list_dir fs collection w).0 _ _ (S.list_dir fs collection w).1 λ es e.
        ap (λ m. m (S.list_dir fs collection w).1)
          (for_each_agree _ _ es (
            delete_entry-agree (delete_contents S fuel fs) (delete_contents S more fs) collection
              (λ path l. delete_contents-enough fuel more path (omega arith) (omega arith)) es
              (H collection w es e)))
