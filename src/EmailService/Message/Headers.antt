-- ===== src/EmailService/Message/Headers.antt =====
-- The header of a message.
use Prim.Native.Char.{code}
use portal_conductor.Base.{
  String, ◌<>◌, ◌==◌, ◌≡◌, refl, Bool, true, false, ◌&&◌, Option, none, some, List, length, All,
  nat_eq, or_second, or_first, inl, inr, Bool-cases, if◌then◌else◌,
}
use portal_conductor.Base.Text.Breaks.{
  is_break, has_break, IsUnbroken, IsUnbroken-append, itoa-IsUnbroken, AreUnbroken,
  after_last-AreUnbroken,
}
use portal_conductor.Base.Text.Search.{after_last}
use portal_conductor.EmailService.Message.{
  crlf, sanitize_header, trim_right, local_hostname, Stamps, domain_of, generate_message_id, lines,
  header_lines, build_message,
}

pub sanitize_header-IsUnbroken : (s : String) → IsUnbroken (sanitize_header s)
unfolding sanitize_header has_break
sanitize_header-IsUnbroken String.[] = refl
sanitize_header-IsUnbroken (String.◌∷◌ c s) = elim (Bool-cases (is_break (code c))) [
  | inl e ↦ rw e (sanitize_header-IsUnbroken s)
  | inr e ↦ rw (e, e) (sanitize_header-IsUnbroken s)
]

trim_right-IsUnbroken : (s : String) → IsUnbroken s → IsUnbroken (trim_right s)
unfolding trim_right has_break
trim_right-IsUnbroken String.[] h = refl
trim_right-IsUnbroken (String.◌∷◌ c s) h =
    by_test ((trim_right s == "") && nat_eq (code c) b'>')
      (trim_right-IsUnbroken s (or_second (is_break (code c)) _ h))
  where
    by_test :
        (b : Bool)
        → IsUnbroken (trim_right s)
        → IsUnbroken (if b then trim_right s else String.◌∷◌ c (trim_right s))
    by_test true k = k
    by_test false k = rw (or_first (is_break (code c)) _ h) k

less_sign : IsUnbroken "<"
unfolding has_break
less_sign = refl

full_stop : IsUnbroken "."
unfolding has_break
full_stop = refl

at_sign : IsUnbroken "@"
unfolding has_break
at_sign = refl

greater_sign : IsUnbroken ">"
unfolding has_break
greater_sign = refl

quotes : IsUnbroken "\""
unfolding has_break
quotes = refl

subject_name : IsUnbroken "Subject: "
unfolding has_break
subject_name = refl

from_name : IsUnbroken "From: "
unfolding has_break
from_name = refl

to_name : IsUnbroken "To: "
unfolding has_break
to_name = refl

date_name : IsUnbroken "Date: "
unfolding has_break
date_name = refl

id_name : IsUnbroken "Message-ID: "
unfolding has_break
id_name = refl

version_line : IsUnbroken "MIME-Version: 1.0"
unfolding has_break
version_line = refl

type_line : IsUnbroken "Content-Type: multipart/alternative; boundary=\""
unfolding has_break
type_line = refl

ruleset texts = (
  less_sign, full_stop, at_sign, greater_sign, quotes, subject_name, from_name, to_name, date_name,
  id_name, version_line, type_line,
)

-- The stamps bring no line break into a header.
pub record IsPlain (st : Stamps) : Type 0 where
  pub date : IsUnbroken st.date
  pub random_hex : IsUnbroken st.random_hex
  pub hostname : IsUnbroken (local_hostname st.hostname)
  pub boundary : IsUnbroken st.boundary

module _ (st : Stamps) (p : IsPlain st) (from : String) (f : IsUnbroken from) where
  domain_of-IsUnbroken : IsUnbroken (domain_of st.hostname from)
  unfolding domain_of
  domain_of-IsUnbroken = by_rest (after_last b'@' from) (after_last-AreUnbroken b'@' from f)
    where
      by_rest :
          (o : Option String)
          → AreUnbroken o
          → IsUnbroken (elim o [
            | some rest ↦ if rest == "" then local_hostname st.hostname else trim_right rest
            | none ↦ local_hostname st.hostname
          ])
      by_rest none h = p.hostname
      by_rest (some rest) h = elim (Bool-cases (rest == "")) [
        | inl e ↦ rw e p.hostname
        | inr e ↦ rw e (trim_right-IsUnbroken rest h)
      ]

  generate_message_id-IsUnbroken : IsUnbroken (generate_message_id st from)
  unfolding generate_message_id
  generate_message_id-IsUnbroken =
      search (IsUnbroken-append, itoa-IsUnbroken, domain_of-IsUnbroken, p.random_hex, texts) depth
        12

  header_lines-IsUnbroken :
      (to : List String) (subject : String) → All IsUnbroken (header_lines st from to subject)
  header_lines-IsUnbroken to subject = (
    search (IsUnbroken-append, sanitize_header-IsUnbroken, texts),
    (
      search (IsUnbroken-append, sanitize_header-IsUnbroken, texts),
      (
        search (IsUnbroken-append, sanitize_header-IsUnbroken, texts),
        (
          search (IsUnbroken-append, p.date, texts),
          (
            search (IsUnbroken-append, generate_message_id-IsUnbroken, texts),
            (version_line, (search (IsUnbroken-append, p.boundary, texts), tt)),
          ),
        ),
      ),
    ),
  )

-- A message that begins with seven lines and an empty one; none of the seven has a break inside.
pub record HasHeader (text : String) : Type 0 where
  pub header : List String
  pub body : String
  pub splits : text ≡ lines header <> (crlf <> body)
  pub size : length header ≡ 7
  pub unbroken : All IsUnbroken header

-- Without a line break in the address of the sender and in the stamps, the header of a message is its
-- seven lines, whatever the subject, the recipients and the bodies hold: they bring in no other line.
pub build_message-HasHeader :
    (encoded : String → String) (st : Stamps) (from : String) (to : List String) (subject : String)
    (text_body html_body : Option String)
    → IsPlain st
    → IsUnbroken from
    → HasHeader (build_message encoded st from to subject text_body html_body)
unfolding build_message
build_message-HasHeader encoded st from to subject text_body html_body p f = record {
  header = header_lines st from to subject;
  body = _;
  splits = refl;
  size = refl;
  unbroken = header_lines-IsUnbroken st p from f to subject;
}
