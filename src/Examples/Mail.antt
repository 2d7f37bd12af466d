-- ===== src/Examples/Mail.antt =====
-- Mailing lists and emails on concrete inputs.
use mathlib.Core.List.Perm as Permutation
use Prim.Native.String.{compare}
use portal_conductor.Base.{String, ◌≡◌, refl, Bool, true, false, none, some, List, [], ◌∷◌, ◌↔◌}
use portal_conductor.Base.Int.{pos}
use portal_conductor.Base.Escape.{path_unescape}
use portal_conductor.Base.Regexp.Literal.{Occurs}
use portal_conductor.Base.SortedSet.Laws.{Among, IsAscending}
use portal_conductor.Base.Text.{to_lower}
use portal_conductor.Base.Text.Breaks.{has_break}
use portal_conductor.Base.Text.Order.{IsOrder-texts}
use portal_conductor.External.Effect
use portal_conductor.External.Effect.{Result, ok}
use portal_conductor.External.{check_response}
use portal_conductor.Mailman.{call}
use portal_conductor.Mailman.Roster.{letters, roster_page, member_exists, list_members}
use portal_conductor.Mailman.Roster.Order.{IsStable, OnPage, list_members-perm, list_members-OnPage}
use portal_conductor.Mailman.Roster.Occurrence.{member_exists-Occurs}
use portal_conductor.EmailService.{
  Service, send, send_from, connect, connect_plain, hello_client, transmit,
}
use portal_conductor.EmailService.Message.{build_message}
use portal_conductor.EmailService.Message.Headers.{HasHeader, IsPlain}
use portal_conductor.EmailService.Delivery.Transaction.{send-accepted}
use portal_conductor.Examples.World.{World, start}
use portal_conductor.Examples.Network.{
  roster_http, roster_text, mailman, mail_server, mailbox, is_mail_server,
}

abbrev AnyWorld : World → Type 0
AnyWorld w = Unit {0}

abbrev page : String → Result String
page letter = ok (roster_text letter)

is_stable : IsStable roster_http mailman "staff" AnyWorld page
unfolding roster_page call check_response Effect.◌>>=◌ Effect.try Effect.pure Effect.lift
is_stable = record { answers = λ letter w h. refl; keeps = λ letter w h. tt }

-- The pages in another order.
abbrev other_order : List String
other_order =
    "b" ∷ "a" ∷ "c" ∷ "d" ∷ "e" ∷ "f" ∷ "g" ∷ "h" ∷ "i" ∷ "j" ∷ "k" ∷ "l" ∷ "m" ∷ "n" ∷ "o" ∷ "p"
    ∷ "q" ∷ "r" ∷ "s" ∷ "t" ∷ "u" ∷ "v" ∷ "w" ∷ "x" ∷ "y" ∷ "z" ∷ "0" ∷ "1" ∷ "2" ∷ "3" ∷ "4" ∷ "5"
    ∷ "6" ∷ "7" ∷ "8" ∷ "9" ∷ []

list_members-perm_example :
    (list_members roster_http mailman other_order "staff" start).0
    ≡ (list_members roster_http mailman letters "staff" start).0
list_members-perm_example =
    list_members-perm roster_http mailman "staff" AnyWorld page is_stable other_order start start
      (Permutation.swap "a" "b" _) tt tt

list_members-OnPage_example :
    (members : List String) × ((list_members roster_http mailman letters "staff" start).0
      ≡ ok members)
    × IsAscending compare IsOrder-texts members
    × ((email : String) → Among email members ↔ OnPage page letters email)
list_members-OnPage_example =
    list_members-OnPage roster_http mailman "staff" AnyWorld page is_stable start tt

-- The page shows ann@x.org.uk, and `MemberExists` finds ann@x.org on it.
member_exists-Occurs_example :
    (answer : Bool) × ((member_exists roster_http mailman "staff" "ann@x.org" start).0 ≡ ok answer)
    × ((answer ≡ true) ↔ Occurs false (to_lower "ann@x.org") (to_lower (roster_text "a")))
unfolding path_unescape roster_page call check_response to_lower Effect.◌>>=◌ Effect.try Effect.pure
    Effect.lift
member_exists-Occurs_example =
    member_exists-Occurs roster_http mailman "staff" "ann@x.org" (roster_text "a") "a" "nn@x.org"
      start refl refl

abbrev service : Service
service = record {
  host = "smtp";
  port = pos 25;
  user = "";
  password = "";
  use_tls = true;
  use_ssl = false;
  default_from = "noreply@cyverse.org";
}

IsPlain-stamps : IsPlain (mail_server.stamps start)
unfolding has_break
IsPlain-stamps = record { date = refl; random_hex = refl; hostname = refl; boundary = refl }

send-accepted_example :
    ((mailbox
        (send mail_server service
          ("ann@x.org" ∷ [])
          "Hi\r\nBcc: eve@x.org"
          (some "Hello")
          none
          none
          ("bob@x.org" ∷ [])
          start).1).accepted
      ≡ record {
        sender = "noreply@cyverse.org";
        recipients = "ann@x.org" ∷ "bob@x.org" ∷ [];
        text =
            build_message
              (λ s. s)
              (mail_server.stamps start)
              "noreply@cyverse.org"
              ("ann@x.org" ∷ [])
              "Hi\r\nBcc: eve@x.org"
              (some "Hello")
              none;
      }
        ∷ [])
    × HasHeader (
        build_message
          (λ s. s)
          (mail_server.stamps start)
          "noreply@cyverse.org"
          ("ann@x.org" ∷ [])
          "Hi\r\nBcc: eve@x.org"
          (some "Hello")
          none)
unfolding send send_from connect connect_plain hello_client transmit has_break Effect.◌>>=◌
    Effect.observe Effect.pure Effect.context Effect.on_error Effect.deferring Effect.when
    Effect.for_each
send-accepted_example =
    send-accepted mail_server mailbox service is_mail_server ("ann@x.org" ∷ [])
      "Hi\r\nBcc: eve@x.org" (some "Hello") none ("bob@x.org" ∷ []) none start IsPlain-stamps refl
