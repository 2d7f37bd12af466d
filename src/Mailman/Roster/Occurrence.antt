-- ===== src/Mailman/Roster/Occurrence.antt =====
-- The pages that show an address.
use Prim.Native.Char.{Char}
use portal_conductor.Base.{String, ◌≡◌, refl, Bool, true, false, ◌↔◌}
use portal_conductor.Base.Text.{to_lower}
use portal_conductor.Base.Regexp.Literal.{Occurs, Occurs-match_anywhere, match_anywhere-at}
use portal_conductor.External.Effect.{ok, pure, ◌>>=◌}
use portal_conductor.Http.{Http}
use portal_conductor.Mailman.{Client}
use portal_conductor.Mailman.Roster.{decoded, page_shows, roster_page, member_exists}

page_shows-Occurs :
    (email page : String)
    → (page_shows email page ≡ true) ↔ Occurs false (to_lower email) (to_lower page)
unfolding page_shows
page_shows-Occurs email page = (
  Occurs-match_anywhere (to_lower email) false (to_lower page),
  λ o.
      match_anywhere-at (to_lower email) false (to_lower page) o.before o.after o.splits o.left_edge
        o.right_edge,
)

module _ {W : Type 0} (H : Http W) (c : Client) where
  -- Where the roster page for the first letter of an address is fetched, `MemberExists` answers, and
  -- the answer is true exactly where the address stands somewhere on the page between the edges of
  -- words, the case of letters aside.
  pub member_exists-Occurs :
      (list_name email page : String) (ch : Char) (s : String) (w : W)
      → decoded email ≡ String.◌∷◌ ch s
      → (roster_page H c list_name (to_lower (String.◌∷◌ ch String.[])) w).0 ≡ ok page
      → (answer : Bool) × ((member_exists H c list_name email w).0 ≡ ok answer)
        × ((answer ≡ true) ↔ Occurs false (to_lower (String.◌∷◌ ch s)) (to_lower page))
  unfolding member_exists ◌>>=◌ pure
  member_exists-Occurs list_name email page ch s w d h =
      (page_shows (String.◌∷◌ ch s) page, rw (d, h) refl, page_shows-Occurs (String.◌∷◌ ch s) page)
