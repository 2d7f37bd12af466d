-- ===== src/EmailService.antt =====
-- emailsvc/emailsvc.go: the service, and net/smtp as an interface.
pub mod Message
pub mod Delivery
use portal_conductor.Base.{
  String, ◌<>◌, ◌==◌, Bool, true, false, not, ◌&&◌, ◌||◌, Option, none, some, List, [], ◌∷◌, ◌++◌,
  if◌then◌else◌,
}
use portal_conductor.Base.Int.{ℤ, pos}
use portal_conductor.Base.Text.{itoa}
use portal_conductor.Config
use portal_conductor.Config.{flex_int}
use portal_conductor.External.{message}
use portal_conductor.External.Effect.{
  Call, Done, pure, fail, context, observe, deferring, on_error, for_each, when, ◌>>=◌, ◌>>◌,
}
use portal_conductor.EmailService.Message.{Stamps, given, local_hostname, build_message}

-- `Service`.
pub record Service : Type 0 where
  pub host : String
  pub port : ℤ
  pub user : String
  pub password : String
  pub use_tls : Bool
  pub use_ssl : Bool
  pub default_from : String

-- `New`.
abbrev pub new_service : Config.Smtp → Service
new_service cfg = record {
  host = cfg.host;
  port = flex_int cfg.port (pos 25);
  user = cfg.user;
  password = cfg.password;
  use_tls = cfg.use_tls;
  use_ssl = cfg.use_ssl;
  default_from = cfg.from;
}

-- The functions of net, net/smtp, crypto/tls and os that the code calls, over connections `Conn` and
-- sessions `Session`; `stamps` stands for the clock, the random numbers and the name of the host, and
-- `encoded` for mime/quotedprintable.
pub record Server (W Conn Session : Type 0) : Type 0 where
  pub dial : String → Call W Conn
  pub dial_tls : String → String → Call W Conn
  pub new_client : Conn → String → Call W Session
  pub close_conn : Conn → W → W
  pub hello : Session → String → Call W Done
  pub start_tls : Session → String → Call W Done
  -- user, password, host, by `smtp.PlainAuth`
  pub auth : Session → String → String → String → Call W Done
  pub mail : Session → String → Call W Done
  pub rcpt : Session → String → Call W Done
  pub data_begin : Session → Call W Done
  pub data_write : Session → String → Call W Done
  pub data_close : Session → Call W Done
  pub quit : Session → Call W Done
  pub close : Session → W → W
  pub stamps : W → Stamps
  pub encoded : String → String
  -- `net.JoinHostPort`
  pub address : String → String → String

module _ {W Conn Session : Type 0} (S : Server W Conn Session) (s : Service) where
  abbrev pub reads_stamps : W → Stamps × W
  reads_stamps w = (S.stamps w, w)

  -- `helloClient`.
  unfoldable pub hello_client : Session → Call W Session
  hello_client client = do
    st ← observe reads_stamps
    on_error (S.close client) (S.hello client (local_hostname st.hostname))
    pure client

  abbrev address_text : String
  address_text = S.address s.host (itoa s.port)

  -- The two branches of `connect`.
  unfoldable pub connect_ssl : Call W Session
  connect_ssl = do
    conn ←
        context ("connecting to SMTP server " <> address_text <> " over TLS")
          (S.dial_tls address_text s.host)
    client ← S.new_client conn s.host
    hello_client client

  unfoldable pub connect_plain : Call W Session
  connect_plain = do
    conn ← context ("connecting to SMTP server " <> address_text) (S.dial address_text)
    client ← on_error (S.close_conn conn) (S.new_client conn s.host)
    client' ← hello_client client
    when s.use_tls (
        context ("STARTTLS with " <> address_text <> " failed")
          (on_error (S.close client') (S.start_tls client' s.host)))
    pure client'

  unfoldable pub connect : Call W Session
  connect = if s.use_ssl then connect_ssl else connect_plain

  -- The address of the sender.
  abbrev pub sender : Option String → String
  sender (some from) = if from == "" then s.default_from else from
  sender none = s.default_from

  abbrev log_in : Session → Call W Done
  log_in client = when (not (s.user == "") && not (s.password == "")) (
      context
        "SMTP authentication failed (bad credentials or server requires a different mechanism?)"
        (S.auth client s.user s.password s.host))

  abbrev pub recipient : Session → String → Call W Done
  recipient client rcpt = context ("recipient " <> rcpt <> " rejected") (S.rcpt client rcpt)

  -- What `send` does with the client.
  unfoldable pub transmit : String → List String → String → Session → Call W Done
  transmit from recipients text client = do
    log_in client
    S.mail client from
    for_each (recipient client) recipients
    S.data_begin client
    S.data_write client text
    S.data_close client
    S.quit client

  unfoldable pub send_from :
      String → List String → String → Option String → Option String → List String → Call W Done
  send_from from to subject text_body html_body bcc = do
    st ← observe reads_stamps
    client ← connect
    deferring (S.close client) (
        transmit from (to ++ bcc) (build_message S.encoded st from to subject text_body html_body)
          client)

  -- `Send` and `send`.
  unfoldable pub send :
      List String
      → String
      → Option String
      → Option String
      → Option String
      → List String
      → Call W Done
  send to subject text_body html_body from_email bcc =
      if given text_body || given html_body
      then send_from (sender from_email) to subject text_body html_body bcc
      else fail (message "either text_body or html_body must be provided")
