-- ===== src/Mailman/Roster.antt =====
-- mailman/mailman.go: `MemberExists` and `ListMembers`, which read the roster pages.
pub mod Order
pub mod Occurrence
pub mod Shown
use Prim.Native.Char.{Char}
use Prim.Native.String.{compare}
use mathlib.Core.List.{foldr}
use portal_conductor.Base.{
  String, Bool, false, not, ◌||◌, Option, none, some, List, [], ◌∷◌, ◌++◌, map, keep,
}
use portal_conductor.Base.Text.{to_lower}
use portal_conductor.Base.Text.Search.{has_suffix}
use portal_conductor.Base.Escape.{path_unescape}
use portal_conductor.Base.Regexp.{Pattern, boundary, match_anywhere, find_all}
use portal_conductor.Base.Regexp.Words.{literal, email_pattern}
use portal_conductor.Base.SortedSet.{insert_all}
use portal_conductor.External.Effect.{Result, ok, err, Call, pure, try, ◌>>=◌}
use portal_conductor.Http.{Http, QueryValue, plain, get}
use portal_conductor.Mailman.{Client, admin_url, call}

-- The address as it is looked for.
abbrev pub decoded : String → String
decoded email = elim (path_unescape email) [ some s ↦ s | none ↦ email ]

-- The pattern of an address: its characters in lower case, between word boundaries.
abbrev pub address_pattern : String → Pattern
address_pattern email = boundary ∷ (literal (to_lower email) ++ boundary ∷ [])

-- Whether a roster page shows an address.
unfoldable pub page_shows : String → String → Bool
page_shows email page = match_anywhere false (address_pattern email) (to_lower page)

abbrev pub is_boilerplate : String → Bool
is_boilerplate email = has_suffix email "@mailman.org" || has_suffix email "@example.com"

-- The addresses of a roster page that are added to the set.
unfoldable pub page_emails : String → List String
page_emails page =
    keep (λ email. not (is_boilerplate email)) (map to_lower (find_all email_pattern page))

abbrev pub emails_of : Result String → List String
emails_of (ok page) = page_emails page
emails_of (err e) = []

-- The pages of the listing.
abbrev pub letters : List String
letters =
    "a" ∷ "b" ∷ "c" ∷ "d" ∷ "e" ∷ "f" ∷ "g" ∷ "h" ∷ "i" ∷ "j" ∷ "k" ∷ "l" ∷ "m" ∷ "n" ∷ "o" ∷ "p"
    ∷ "q" ∷ "r" ∷ "s" ∷ "t" ∷ "u" ∷ "v" ∷ "w" ∷ "x" ∷ "y" ∷ "z" ∷ "0" ∷ "1" ∷ "2" ∷ "3" ∷ "4" ∷ "5"
    ∷ "6" ∷ "7" ∷ "8" ∷ "9" ∷ []

module _ {W : Type 0} (H : Http W) (c : Client) where
  -- The roster page of a letter.
  unfoldable pub roster_page : String → String → Call W String
  roster_page list_name letter =
      call H c get (admin_url H c list_name ("members" ∷ []))
        (("adminpw", plain c.password) ∷ ("letter", plain letter) ∷ [])

  abbrev exists_among : String → String → Call W Bool
  exists_among list_name String.[] = pure false
  exists_among list_name (String.◌∷◌ ch s) = do
    page ← roster_page list_name (to_lower (String.◌∷◌ ch String.[]))
    pure (page_shows (String.◌∷◌ ch s) page)

  unfoldable pub member_exists : String → String → Call W Bool
  member_exists list_name email = exists_among list_name (decoded email)

  -- The goroutines of `ListMembers`, in the order in which their requests take effect; the set, under
  -- its lock, by its ascending keys. A page that cannot be fetched is passed over.
  unfoldable pub collect : String → List String → Call W (List String)
  collect list_name [] = pure []
  collect list_name (letter ∷ order) = do
    page ← try (roster_page list_name letter)
    rest ← collect list_name order
    pure (insert_all compare (emails_of page) rest)

  -- `ListMembers`: every order of the letters is a possible run.
  unfoldable pub list_members : List String → String → Call W (List String)
  list_members order list_name = collect list_name order
