-- ===== src/Mailman/Roster/Order.antt =====
-- The order of the requests for the roster pages, and the listing.
use mathlib.Core.List.{Perm, foldr}
use mathlib.Core.List.Perm as Permutation
use Prim.Native.String.{compare}
use text.Mathlib.TextEquality.{IsScalar-prop}
use portal_conductor.Base.{String, ◌≡◌, refl, sym, ap, ◌∙◌, List, [], ◌∷◌, ◌⊎◌, ◌↔◌, inl, inr}
use portal_conductor.Base.SortedSet.{insert_all}
use portal_conductor.Base.SortedSet.Laws.{
  Among, Among-insert_all, IsAscending, insert_all_comm, insert_all-IsAscending,
}
use portal_conductor.Base.Text.Order.{IsOrder-texts}
use portal_conductor.External.Effect.{Result, ok, pure, try, ◌>>=◌}
use portal_conductor.Http.{Http}
use portal_conductor.Mailman.{Client}
use portal_conductor.Mailman.Roster.Shown.{ShownOn, Among-emails_of}
use portal_conductor.Mailman.Roster.{roster_page, letters, emails_of, collect, list_members}

-- The roster pages do not change while the listing runs: `P` is what the requests keep, and where it
-- holds, the request for a letter is answered as `page` says.
pub record IsStable {W : Type 0} (H : Http W) (c : Client) (list_name : String) (P : W → Type 0)
    (page : String → Result String) : Type 0 where
  pub answers :
      (letter : String) (w : W) → P w → (roster_page H c list_name letter w).0 ≡ page letter
  pub keeps : (letter : String) (w : W) → P w → P (roster_page H c list_name letter w).1

-- The addresses of the pages of some letters.
abbrev pub set_of : (String → Result String) → List String → List String
set_of page order = foldr (λ letter set. insert_all compare (emails_of (page letter)) set) [] order

set_of-perm :
    (page : String → Result String) (order order' : List String)
    → Perm order order'
    → set_of page order ≡ set_of page order'
set_of-perm page order order' p =
    Permutation.foldr-eq (hlevel (IsScalar-prop))
      (λ letter set. insert_all compare (emails_of (page letter)) set)
      (λ a b set.
        insert_all_comm compare IsOrder-texts (emails_of (page a)) (emails_of (page b)) set)
      p []

set_of-IsAscending :
    (page : String → Result String) (order : List String)
    → IsAscending compare IsOrder-texts (set_of page order)
set_of-IsAscending page [] = tt
set_of-IsAscending page (letter ∷ order) =
    insert_all-IsAscending compare IsOrder-texts (emails_of (page letter)) (set_of page order)
      (set_of-IsAscending page order)

-- An address that is collected from the page of one of the letters.
abbrev Collected : (String → Result String) → List String → String → Type 0
Collected page order email =
    (letter : String) × Among letter order × Among email (emails_of (page letter))

on_first :
    (page : String → Result String) (letter : String) (order : List String) (email : String)
    → Among email (emails_of (page letter)) ⊎ Collected page order email
    → Collected page (letter ∷ order) email
on_first page letter order email (inl h) = (letter, inl refl, h)
on_first page letter order email (inr (l, m, h)) = (l, inr m, h)

first_or_later :
    (page : String → Result String) (letter : String) (order : List String) (email : String)
    → Collected page (letter ∷ order) email
    → Among email (emails_of (page letter)) ⊎ Collected page order email
first_or_later page letter order email (l, inl e, h) = inl (rw e at h)
first_or_later page letter order email (l, inr m, h) = inr (l, m, h)

Among-set_of :
    (page : String → Result String) (email : String) (order : List String)
    → Among email (set_of page order) ↔ Collected page order email
Among-set_of page email [] = (λ m. absurd m, λ m. absurd m.1)
Among-set_of page email (letter ∷ order) =
    let grown =
      Among-insert_all compare IsOrder-texts email (emails_of (page letter)) (set_of page order) in
    let before = Among-set_of page email order in
    (
      λ m.
          on_first page letter order email
            (elim (grown.0 m) [ inl h ↦ inl h | inr h ↦ inr (before.0 h) ]),
      λ m. grown.1 (elim (first_or_later page letter order email m) [
        | inl h ↦ inl h
        | inr h ↦ inr (before.1 h)
      ]),
    )

-- An address that the page of one of the letters shows.
abbrev pub OnPage : (String → Result String) → List String → String → Type 0
OnPage page order email = (letter : String) × Among letter order × ShownOn (page letter) email

Collected-OnPage :
    (page : String → Result String) (order : List String) (email : String)
    → Collected page order email ↔ OnPage page order email
Collected-OnPage page order email = (
  λ c. (c.0, c.1, (Among-emails_of (page c.0) email).0 c.2),
  λ o. (o.0, o.1, (Among-emails_of (page o.0) email).1 o.2),
)

module _ {W : Type 0} (H : Http W) (c : Client) (list_name : String) (P : W → Type 0)
    (page : String → Result String) (S : IsStable H c list_name P page) where
  collected :
      (order : List String) (w : W)
      → P w
      → (collect H c list_name order w).0 ≡ ok (set_of page order)
  unfolding collect ◌>>=◌ try pure
  collected [] w h = refl
  collected (letter ∷ order) w h =
      rw
        (
          collected order (roster_page H c list_name letter w).1 (S.keeps letter w h),
          S.answers letter w h,
        )
        refl

  -- Where the roster pages do not change, the listing is the same in whatever order the requests for
  -- the 36 pages take effect.
  pub list_members-perm :
      (order : List String) (w w' : W)
      → Perm order letters
      → P w
      → P w'
      → (list_members H c order list_name w).0 ≡ (list_members H c letters list_name w').0
  unfolding list_members
  list_members-perm order w w' p h h' =
      collected order w h ∙ ap ok (set_of-perm page order letters p) ∙ sym (collected letters w' h')

  -- The listing of a list whose pages do not change never fails. It is in strictly ascending order, and
  -- an address is on it exactly where it is the lower case of an address that stands on one of the 36
  -- pages, of those that were fetched, and does not end in `@mailman.org` or `@example.com`.
  pub list_members-OnPage :
      (w : W)
      → P w
      → (members : List String) × ((list_members H c letters list_name w).0 ≡ ok members)
        × IsAscending compare IsOrder-texts members
        × ((email : String) → Among email members ↔ OnPage page letters email)
  unfolding list_members
  list_members-OnPage w h = (
    set_of page letters,
    collected letters w h,
    set_of-IsAscending page letters,
    λ email.
        let set = Among-set_of page email letters in
        let shown = Collected-OnPage page letters email in
        (λ m. shown.0 (set.0 m), λ o. set.1 (shown.1 o)),
  )
