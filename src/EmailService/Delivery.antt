-- ===== src/EmailService/Delivery.antt =====
-- What a mail server accepts, as its client sees it.
pub mod Transaction
use portal_conductor.Base.{
  String, ◌==◌, ◌≡◌, refl, sym, ap, ◌∙◌, Bool, true, false, ◌||◌, Option, List, [], ◌∷◌, ◌++◌, inl,
  inr, Bool-cases, if◌then◌else◌,
}
use mathlib.Core.List.{append-nil, append_assoc}
use portal_conductor.Base.Text.Breaks.{IsUnbroken}
use portal_conductor.External.{Error}
use portal_conductor.External.Effect.{Call, Done, ok, for_each, when, observe}
use portal_conductor.External.Effect.Keeps.{Keeps, keeps_rules}
use portal_conductor.External.Effect.Triple.{
  Triple, Triple-bind, Triple-if, Triple-fail, Triple-pure, Triple-context, Triple-deferring,
  Triple-of_keeps, Triple-weaken, Triple-ok,
}
use portal_conductor.EmailService.{
  Server, Service, hello_client, connect_ssl, connect_plain, connect, sender, recipient, transmit,
  send_from, send,
}
use portal_conductor.EmailService.Message.{Stamps, given, build_message}
use portal_conductor.EmailService.Message.Headers.{HasHeader, IsPlain, build_message-HasHeader}

pub record Envelope : Type 0 where
  pub sender : String
  pub recipients : List String
  pub text : String

-- A mail server as its client sees it: what it has accepted, the last first, and the transaction that
-- is under way.
pub record Mailbox : Type 0 where
  pub accepted : List Envelope
  pub draft : Envelope

abbrev pub begun : String → Mailbox → Mailbox
begun from m = record m { draft = record { sender = from; recipients = []; text = "" } }

abbrev pub also_to : String → Mailbox → Mailbox
also_to rcpt m = record m {
  draft = record (m.draft) { recipients = m.draft.recipients ++ rcpt ∷ [] };
}

abbrev pub written : String → Mailbox → Mailbox
written text m = record m { draft = record (m.draft) { text = text } }

abbrev pub queued : Mailbox → Mailbox
queued m = record m { accepted = m.draft ∷ m.accepted }

module _ {W Conn Session : Type 0} (S : Server W Conn Session) (view : W → Mailbox) where
  abbrev pub Holds : Mailbox → W → Type 0
  Holds m w = view w ≡ m

  abbrev pub Anything : Error → W → Type 0
  Anything e w = Unit {0}

  -- The commands of a mail server. The sender of a command `MAIL` has no line break: net/smtp refuses
  -- such a line. The end of the data queues the message.
  pub record IsMailServer : Type 0 where
    pub dial_keeps : (m : Mailbox) (addr : String) → Keeps (Holds m) (S.dial addr)
    pub dial_tls_keeps : (m : Mailbox) (addr host : String) → Keeps (Holds m) (S.dial_tls addr host)
    pub new_client_keeps :
        (m : Mailbox) (conn : Conn) (host : String) → Keeps (Holds m) (S.new_client conn host)
    pub close_conn_keeps :
        (m : Mailbox) (conn : Conn) (w : W) → Holds m w → Holds m (S.close_conn conn w)
    pub hello_keeps :
        (m : Mailbox) (client : Session) (host : String) → Keeps (Holds m) (S.hello client host)
    pub start_tls_keeps :
        (m : Mailbox) (client : Session) (host : String) → Keeps (Holds m) (S.start_tls client host)
    pub auth_keeps :
        (m : Mailbox) (client : Session) (user password host : String)
        → Keeps (Holds m) (S.auth client user password host)
    pub mail_begins :
        (m : Mailbox) (client : Session) (from : String)
        → Triple
            (Holds m)
            (S.mail client from)
            (λ _ w. Holds (begun from m) w × IsUnbroken from)
            Anything
    pub rcpt_adds :
        (m : Mailbox) (client : Session) (rcpt : String)
        → Triple (Holds m) (S.rcpt client rcpt) (λ _. Holds (also_to rcpt m)) Anything
    pub data_begin_keeps : (m : Mailbox) (client : Session) → Keeps (Holds m) (S.data_begin client)
    pub data_write_writes :
        (m : Mailbox) (client : Session) (text : String)
        → Triple (Holds m) (S.data_write client text) (λ _. Holds (written text m)) Anything
    pub data_close_queues :
        (m : Mailbox) (client : Session)
        → Triple (Holds m) (S.data_close client) (λ _. Holds (queued m)) Anything
    pub quit_keeps : (m : Mailbox) (client : Session) → Keeps (Holds m) (S.quit client)
    pub close_keeps :
        (m : Mailbox) (client : Session) (w : W) → Holds m w → Holds m (S.close client w)
