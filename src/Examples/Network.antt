-- ===== src/Examples/Network.antt =====
-- Web services and a mail server in memory: they remember mails and an identifier.
use portal_conductor.Base.{
  String, ◌==◌, ◌≡◌, refl, ap, Bool, true, false, some, List, [], ◌∷◌, inl, inr, Bool-cases,
  if◌then◌else◌,
}
use portal_conductor.Base.Int.{pos}
use portal_conductor.Base.Text.Breaks.{has_break, IsUnbroken}
use portal_conductor.Json.{null}
use portal_conductor.External.{message}
use portal_conductor.External.Effect.{Result, ok, err, Done}
use portal_conductor.External.Effect.Triple.{Ends}
use portal_conductor.Http.{Http, QueryValue, plain, encoded}
use portal_conductor.Mailman
use portal_conductor.EmailService
use portal_conductor.EmailService.Delivery.{Mailbox, begun, also_to, written, queued, IsMailServer}
use portal_conductor.Api.Async.{AppMemory}
use portal_conductor.Api.Async.Parameter.{Floats}
use portal_conductor.Examples.World.{World}
use portal_conductor.Examples.Services.{http}

-- The roster page of each letter: two addresses under `a`.
abbrev pub roster_text : String → String
roster_text letter = if letter == "a" then "<b>Ann@x.org.uk</b> list@mailman.org" else "none"

abbrev letter_in : List (String × QueryValue) → String
letter_in [] = ""
letter_in ((k, plain v) ∷ qs) = let rest = letter_in qs in if k == "letter" then v else rest
letter_in ((k, encoded j) ∷ qs) = letter_in qs

abbrev pub roster_http : Http World
roster_http = record http {
  send = λ r w. (
    ok (record {
      url = "u";
      status = 200;
      body = roster_text (letter_in r.url.query);
      json = some null;
    }),
    w,
  );
}

abbrev pub app_memory : AppMemory World
app_memory = record {
  app_id = λ w. w.app_id;
  set_app_id = λ s w. record w { app_id = s };
  app_id-set_app_id = λ s w. refl;
}

-- No number of the examples is zero or has a fraction.
abbrev pub floats : Floats
floats = record { is_zero = λ s. false; to_int = λ s. pos 0 }

abbrev pub mailman : Mailman.Client
mailman = record { base_url = "https://lists"; password = "pw" }

abbrev post : Mailbox → World → World
post m w = record w { mailbox = m }

-- `MAIL` refuses a line break.
abbrev mail_answer : String → Bool → World → Result Done × World
mail_answer from true w = (err (message "line break"), w)
mail_answer from false w = (ok tt, post (begun from w.mailbox) w)

abbrev pub mail_server : EmailService.Server World Done Done
mail_server = record {
  dial = λ addr w. (ok tt, w);
  dial_tls = λ addr host w. (ok tt, w);
  new_client = λ conn host w. (ok tt, w);
  close_conn = λ conn w. w;
  hello = λ client host w. (ok tt, w);
  start_tls = λ client host w. (ok tt, w);
  auth = λ client user password host w. (ok tt, w);
  mail = λ client from w. mail_answer from (has_break from) w;
  rcpt = λ client rcpt w. (ok tt, post (also_to rcpt w.mailbox) w);
  data_begin = λ client w. (ok tt, w);
  data_write = λ client text w. (ok tt, post (written text w.mailbox) w);
  data_close = λ client w. (ok tt, post (queued w.mailbox) w);
  quit = λ client w. (ok tt, w);
  close = λ client w. w;
  stamps = λ w. record {
    date = "Thu, 01 Jan 1970 00:00:00 +0000";
    nanoseconds = pos 0;
    random_hex = "0011223344556677";
    hostname = some "host";
    boundary = "b0";
  };
  encoded = λ s. s;
  address = λ host port. host;
}

abbrev pub mailbox : World → Mailbox
mailbox w = w.mailbox

pub is_mail_server : IsMailServer mail_server mailbox
is_mail_server = record {
  dial_keeps = λ m addr. record { after = λ w h. h };
  dial_tls_keeps = λ m addr host. record { after = λ w h. h };
  new_client_keeps = λ m conn host. record { after = λ w h. h };
  close_conn_keeps = λ m conn w h. h;
  hello_keeps = λ m client host. record { after = λ w h. h };
  start_tls_keeps = λ m client host. record { after = λ w h. h };
  auth_keeps = λ m client user password host. record { after = λ w h. h };
  mail_begins = λ m client from. record { run = λ w h. begins m from w h };
  rcpt_adds = λ m client rcpt. record { run = λ w h. ap (also_to rcpt) h };
  data_begin_keeps = λ m client. record { after = λ w h. h };
  data_write_writes = λ m client text. record { run = λ w h. ap (written text) h };
  data_close_queues = λ m client. record { run = λ w h. ap queued h };
  quit_keeps = λ m client. record { after = λ w h. h };
  close_keeps = λ m client w h. h;
}
  where
    begins :
        (m : Mailbox) (from : String) (w : World)
        → w.mailbox ≡ m
        → Ends
            (λ _ v. (v.mailbox ≡ begun from m) × IsUnbroken from)
            (λ e v. Unit {0})
            (mail_answer from (has_break from) w).0
            (mail_answer from (has_break from) w).1
    begins m from w h = elim (Bool-cases (has_break from)) [
      | inl e ↦ rw e tt
      | inr e ↦ rw e (ap (begun from) h, refl)
    ]
