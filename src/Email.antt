-- ===== src/Email.antt =====
-- internal/platform/email: the two senders of mail.
use ticketing_backend.Prelude.{String, str_append, Bool, true, List, [], ◌∷◌, ◌++◌}
use ticketing_backend.Domain.{EmailMessage}

-- The fields of smtp.PlainAuth.
pub record PlainAuth : Type 0 where
  pub identity : String
  pub username : String
  pub password : String
  pub host : String

-- A call of smtp.SendMail.
pub record SendMail : Type 0 where
  pub addr : String
  pub auth : PlainAuth
  pub from : String
  pub to : List String
  pub msg : String

pub record SmtpSender : Type 0 where
  pub host : String
  pub port : String
  pub username : String
  pub password : String
  pub from_address : String

-- Texts one after another, each ended by CR LF.
unfoldable pub lines : List String → String → String
lines [] rest = rest
lines (line ∷ more) rest = str_append line (str_append "\r\n" (lines more rest))

-- The headers, an empty line, and the body.
unfoldable pub message_text : SmtpSender → EmailMessage → String
unfolding lines
message_text s msg =
    lines
      (str_append "From: " s.from_address
        ∷ str_append "To: " msg.to
        ∷ str_append "Subject: " msg.subject
        ∷ "MIME-Version: 1.0"
        ∷ "Content-Type: text/plain; charset=\"UTF-8\""
        ∷ ""
        ∷ [])
      msg.body

unfoldable pub mail_of : SmtpSender → EmailMessage → SendMail
unfolding message_text
mail_of s msg = record {
  addr = str_append s.host (str_append ":" s.port);
  auth = record { identity = ""; username = s.username; password = s.password; host = s.host };
  from = s.from_address;
  to = msg.to ∷ [];
  msg = message_text s msg;
}

-- SMTPSender.Send, from whether SendMail accepts a call; false is an error.
unfoldable pub send_smtp : SmtpSender → (SendMail → Bool) → EmailMessage → Bool
unfolding mail_of
send_smtp s send_mail msg = send_mail (mail_of s msg)

-- ConsoleSender.Send: the messages that it was given, the new one last. It does not fail.
unfoldable pub send_console : EmailMessage → List EmailMessage → Bool × List EmailMessage
send_console msg sent = (true, sent ++ msg ∷ [])
