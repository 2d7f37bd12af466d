-- ===== src/EmailService/Delivery/Transaction.antt =====
-- The transaction of `send` with a mail server.
use portal_conductor.Base.{String, ◌≡◌, refl, sym, ap, ◌∙◌, Bool, ◌||◌, Option, List, [], ◌∷◌, ◌++◌}
use mathlib.Core.List.{append-nil, append_assoc}
use portal_conductor.Base.Text.Breaks.{IsUnbroken}
use portal_conductor.External.{Error}
use portal_conductor.External.Effect.{Call, ok, for_each, when, observe, context}
use portal_conductor.External.Effect.Keeps.{Keeps, keeps_rules}
use portal_conductor.External.Effect.Triple.{
  Triple, Triple-bind, Triple-if, Triple-fail, Triple-pure, Triple-context, Triple-deferring,
  Triple-of_keeps, Triple-weaken, Triple-ok,
}
use portal_conductor.EmailService.{
  Server, Service, hello_client, connect_ssl, connect_plain, connect, sender, recipient, transmit,
  send_from, send,
}
use portal_conductor.EmailService.Message.{Stamps, given, build_message}
use portal_conductor.EmailService.Message.Headers.{HasHeader, IsPlain, build_message-HasHeader}
use portal_conductor.EmailService.Delivery.{
  Mailbox, begun, also_to, written, queued, Holds, Anything, IsMailServer,
}

module _ {W Conn Session : Type 0} (S : Server W Conn Session) (view : W → Mailbox) (s : Service)
    (I : IsMailServer S view) where
  Keeps-hello_client :
      (m : Mailbox) (client : Session) → Keeps (Holds S view m) (hello_client S s client)
  unfolding hello_client
  Keeps-hello_client m client =
      let hello = I.hello_keeps m client in
      let close = I.close_keeps m client in
      search (keeps_rules, hello, close, λ (w : W) (h : Holds S view m w). h) depth 9

  Keeps-connect : (m : Mailbox) → Keeps (Holds S view m) (connect S s)
  unfolding connect connect_ssl connect_plain
  Keeps-connect m =
      let dial = I.dial_keeps m in
      let dial_tls = I.dial_tls_keeps m in
      let new_client = I.new_client_keeps m in
      let start_tls = I.start_tls_keeps m in
      let close = I.close_keeps m in
      let close_conn = I.close_conn_keeps m in
      let hello = Keeps-hello_client m in
      search (keeps_rules, dial, dial_tls, new_client, start_tls, close, close_conn, hello) depth 12

  -- The recipients after some more of them.
  to_all : List String → Mailbox → Mailbox
  to_all [] m = m
  to_all (r ∷ rs) m = to_all rs (also_to r m)

  Triple-recipients :
      (client : Session) (rs : List String) (m : Mailbox)
      → Triple
          (Holds S view m)
          (for_each (recipient S s client) rs)
          (λ _. Holds S view (to_all rs m))
          (Anything S view)
  unfolding for_each to_all
  Triple-recipients client [] m = Triple-pure tt (λ w h. h)
  Triple-recipients client (r ∷ rs) m =
      Triple-bind (λ _. Holds S view (also_to r m)) _ _
        (Triple-context _ _ (I.rcpt_adds m client r))
        (λ _. Triple-recipients client rs (also_to r m))

  to_all-draft :
      (rs : List String) (m : Mailbox)
      → to_all rs m
        ≡ record m { draft = record (m.draft) { recipients = m.draft.recipients ++ rs } }
  unfolding to_all
  to_all-draft [] m =
      ap (λ xs. record m { draft = record (m.draft) { recipients = xs } })
        (sym (append-nil m.draft.recipients))
  to_all-draft (r ∷ rs) m =
      to_all-draft rs (also_to r m)
      ∙ ap (λ xs. record m { draft = record (m.draft) { recipients = xs } })
          (append_assoc m.draft.recipients (r ∷ []) rs)

  -- A precondition that does not depend on the world is a hypothesis.
  Triple-given :
      {A : Type 0} {P : W → Type 0} {F : Type 0} {m : Call W A} {Q : A → W → Type 0}
      {E : Error → W → Type 0}
      → (F → Triple P m Q E)
      → Triple (λ w. P w × F) m Q E
  Triple-given t = record { run = λ w h. (t h.1).run w h.0 }

  -- The transaction that a mailbox has after it.
  abbrev after_transaction : String → List String → String → Mailbox → Mailbox
  after_transaction from rs text m = queued (written text (to_all rs (begun from m)))

  Triple-kept :
      {A : Type 0} {m : Mailbox} {c : Call W A}
      → Keeps (Holds S view m) c
      → Triple (Holds S view m) c (λ _. Holds S view m) (Anything S view)
  Triple-kept k = Triple-weaken (λ w h. h) (λ a w h. h) (λ e w h. tt) (Triple-of_keeps k)

  Keeps-log_in :
      (m : Mailbox) (client : Session) (b : Bool) (text : String)
      → Keeps (Holds S view m) (when b (context text (S.auth client s.user s.password s.host)))
  Keeps-log_in m client b text = let auth = I.auth_keeps m in search (keeps_rules, auth) depth 9

  Triple-transmit :
      (from : String) (rs : List String) (text : String) (client : Session) (m : Mailbox)
      → Triple
          (Holds S view m)
          (transmit S s from rs text client)
          (λ _ w. Holds S view (after_transaction from rs text m) w × IsUnbroken from)
          (Anything S view)
  unfolding transmit
  Triple-transmit from rs text client m =
      Triple-bind _ _ _ (Triple-kept (Keeps-log_in m client _ _)) λ _.
        Triple-bind _ _ _ (I.mail_begins m client from) λ _. Triple-given λ f.
          Triple-bind _ _ _ (Triple-recipients client rs (begun from m)) λ _.
            Triple-bind _ _ _ (Triple-kept (I.data_begin_keeps (to_all rs (begun from m)) client))
              λ _.
                Triple-bind _ _ _ (I.data_write_writes (to_all rs (begun from m)) client text) λ _.
                  Triple-bind _ _ _
                    (I.data_close_queues (written text (to_all rs (begun from m))) client)
                    λ _.
                      Triple-weaken (λ w h. h) (λ a w h. (h, f)) (λ e w h. tt)
                        (Triple-kept (I.quit_keeps (after_transaction from rs text m) client))

  module _ (to : List String) (subject : String) (text_body html_body : Option String)
      (bcc : List String) where
    -- The message that the stamps of a world give.
    abbrev message_in : W → String → String
    message_in w from = build_message S.encoded (S.stamps w) from to subject text_body html_body

    Triple-with_stamps :
        (from : String) (st : Stamps) (start : W)
        → st ≡ S.stamps start
        → (m : Mailbox) (client : Session)
        → Triple
            (Holds S view m)
            (transmit S s from
              (to ++ bcc)
              (build_message S.encoded st from to subject text_body html_body)
              client)
            (λ _ w.
              Holds S view (after_transaction from (to ++ bcc) (message_in start from) m) w
              × IsUnbroken from)
            (Anything S view)
    Triple-with_stamps from st start e m client =
        rw e (Triple-transmit from (to ++ bcc) (message_in start from) client m)

    Triple-send_from :
        (from : String) (start : W)
        → Triple
            (λ w. w ≡ start)
            (send_from S s from to subject text_body html_body bcc)
            (λ _ w.
              Holds S view
                (after_transaction from (to ++ bcc) (message_in start from) (view start))
                w
              × IsUnbroken from)
            (Anything S view)
    unfolding send_from observe
    Triple-send_from from start =
        Triple-bind (λ st w. Holds S view (view start) w × (st ≡ S.stamps start)) _ _
          (record { run = λ w h. (ap view h, ap S.stamps h) })
          λ st. Triple-given λ e.
            Triple-bind _ _ _ (Triple-kept (Keeps-connect (view start))) λ client.
              Triple-deferring (S.close client) _ (
                Triple-weaken (λ w h. h) (λ a w h. (I.close_keeps _ client w h.0, h.1))
                  (λ e w h. tt) (Triple-with_stamps from st start e (view start) client))

    Triple-send :
        (from_email : Option String) (start : W)
        → Triple
            (λ w. w ≡ start)
            (send S s to subject text_body html_body from_email bcc)
            (λ _ w.
              Holds S view
                (after_transaction
                  (sender S s from_email)
                  (to ++ bcc)
                  (message_in start (sender S s from_email))
                  (view start))
                w
              × IsUnbroken (sender S s from_email))
            (Anything S view)
    unfolding send
    Triple-send from_email start =
        Triple-if (given text_body || given html_body) _ _
          (λ e. Triple-send_from (sender S s from_email) start) (λ e. Triple-fail _ (λ w h. tt))

    last_accepted :
        (from text : String) (m : Mailbox)
        → (after_transaction from (to ++ bcc) text m).accepted
          ≡ record { sender = from; recipients = to ++ bcc; text = text } ∷ m.accepted
    last_accepted from text m = rw (to_all-draft (to ++ bcc) (begun from m)) refl

    -- An email that has been sent is accepted once by the mail server, from the address that is asked
    -- for or the configured one, for exactly the recipients and those of the blind copy in this order;
    -- its text depends on the blind copy in no way, and its header has seven lines, whatever the
    -- request holds, where the date, the random digits, the name of the host and the boundary have no
    -- line break.
    pub send-accepted :
        (from_email : Option String) (w : W)
        → IsPlain (S.stamps w)
        → (send S s to subject text_body html_body from_email bcc w).0 ≡ ok tt
        → ((view (send S s to subject text_body html_body from_email bcc w).1).accepted
            ≡ record {
              sender = sender S s from_email;
              recipients = to ++ bcc;
              text = message_in w (sender S s from_email);
            }
              ∷ (view w).accepted)
          × HasHeader (message_in w (sender S s from_email))
    send-accepted from_email w p e =
        let (h, f) = Triple-ok (Triple-send from_email w) w refl e in
        (
          ap (λ m. m.accepted) h
              ∙ last_accepted (sender S s from_email) (message_in w (sender S s from_email))
                  (view w),
          build_message-HasHeader S.encoded (S.stamps w) (sender S s from_email) to subject
              text_body html_body p f,
        )
