-- ===== src/EmailService/Message.antt =====
-- emailsvc/emailsvc.go: `buildMessage`, and what it calls.
pub mod Headers
use Prim.Native.Char.{Char, code}
use portal_conductor.Base.{
  String, ◌<>◌, ◌==◌, ◌≡◌, refl, Bool, true, false, ◌&&◌, ◌||◌, Option, none, some, List, [], ◌∷◌,
  join, leb, nat_eq, if◌then◌else◌,
}
use portal_conductor.Base.Int.{ℤ}
use portal_conductor.Base.Text.{itoa}
use portal_conductor.Base.Text.Search.{after_last}

-- The end of a line.
abbrev pub crlf : String
crlf = "\r\n"

-- `sanitizeHeader`.
unfoldable pub sanitize_header : String → String
sanitize_header String.[] = String.[]
sanitize_header (String.◌∷◌ c s) =
    let rest = sanitize_header s in
    if nat_eq (code c) b'\r' || nat_eq (code c) b'\n' then rest else String.◌∷◌ c rest

-- `isASCII`.
unfoldable pub is_ascii : String → Bool
is_ascii String.[] = true
is_ascii (String.◌∷◌ c s) = leb (code c) 0x7F && is_ascii s

-- `strings.TrimRight(s, ">")`
unfoldable pub trim_right : String → String
trim_right String.[] = String.[]
trim_right (String.◌∷◌ c s) =
    let rest = trim_right s in
    if rest == "" && nat_eq (code c) b'>' then rest else String.◌∷◌ c rest

-- `localHostname`, by what `os.Hostname` returns.
abbrev pub local_hostname : Option String → String
local_hostname (some hostname) = if hostname == "" then "localhost" else hostname
local_hostname none = "localhost"

-- What a message takes from its surroundings: the date, the nanoseconds since 1970, eight random bytes
-- in hexadecimal, the name of the host, and the boundary of the parts.
pub record Stamps : Type 0 where
  pub date : String
  pub nanoseconds : ℤ
  pub random_hex : String
  pub hostname : Option String
  pub boundary : String

-- The domain of an address, or the host's where there is none.
unfoldable pub domain_of : Option String → String → String
unfolding trim_right
domain_of hostname from = elim (after_last b'@' from) [
  | some rest ↦ if rest == "" then local_hostname hostname else trim_right rest
  | none ↦ local_hostname hostname
]

-- `generateMessageID`.
unfoldable pub generate_message_id : Stamps → String → String
unfolding domain_of
generate_message_id st from =
    "<" <> itoa st.nanoseconds <> "." <> st.random_hex <> "@" <> domain_of st.hostname from <> ">"

-- The seven header lines. The boundary is a text of hexadecimal digits, which `%q` puts in quotes.
abbrev pub header_lines : Stamps → String → List String → String → List String
header_lines st from to subject =
    ("Subject: " <> sanitize_header subject)
    ∷ ("From: " <> sanitize_header from)
    ∷ ("To: " <> sanitize_header (join ", " to))
    ∷ ("Date: " <> st.date)
    ∷ ("Message-ID: " <> generate_message_id st from)
    ∷ "MIME-Version: 1.0"
    ∷ ("Content-Type: multipart/alternative; boundary=\"" <> st.boundary <> "\"")
    ∷ []

abbrev pub lines : List String → String
lines [] = ""
lines (l ∷ ls) = l <> (crlf <> lines ls)

-- One part of the message; `encoded` is the quoted-printable form of a text.
abbrev pub part : (String → String) → String → String → String
part encoded content_type body =
    if is_ascii body
    then lines (
        "Content-Transfer-Encoding: 7bit"
        ∷ ("Content-Type: " <> content_type <> "; charset=\"us-ascii\"")
        ∷ [])
      <> (crlf <> body)
    else lines (
        "Content-Transfer-Encoding: quoted-printable"
        ∷ ("Content-Type: " <> content_type <> "; charset=\"utf-8\"")
        ∷ [])
      <> (crlf <> encoded body)

-- A body that is there and not empty.
abbrev pub given : Option String → Bool
given (some s) = if s == "" then false else true
given none = false

abbrev part_if : (String → String) → String → Option String → List String
part_if encoded content_type (some s) = if s == "" then [] else part encoded content_type s ∷ []
part_if encoded content_type none = []

-- The delimiters of mime/multipart: before the first part, before each other one, and at the end.
abbrev next_parts : String → List String → String
next_parts boundary [] = crlf <> ("--" <> boundary <> "--" <> crlf)
next_parts boundary (p ∷ ps) = crlf <> ("--" <> boundary <> crlf <> p <> next_parts boundary ps)

abbrev multipart : String → List String → String
multipart boundary [] = next_parts boundary []
multipart boundary (p ∷ ps) = "--" <> boundary <> crlf <> p <> next_parts boundary ps

abbrev appended : List String → List String → List String
appended [] qs = qs
appended (p ∷ ps) qs = p ∷ appended ps qs

-- `buildMessage`. Writing to the memory does not fail.
unfoldable pub build_message :
    (String → String)
    → Stamps
    → String
    → List String
    → String
    → Option String
    → Option String
    → String
unfolding sanitize_header is_ascii generate_message_id
build_message encoded st from to subject text_body html_body =
    lines (header_lines st from to subject)
    <> (crlf
        <> multipart st.boundary (
            appended (part_if encoded "text/plain" text_body)
              (part_if encoded "text/html" html_body)))

message_tests :
    (sanitize_header "Hi\r\nBcc: x@y.org" ≡ "HiBcc: x@y.org")
    × (domain_of none "Ann <ann@x.org>" ≡ "x.org")
    × (domain_of (some "h") "ann@" ≡ "h")
unfolding sanitize_header domain_of after_last
message_tests = (refl, refl, refl)
