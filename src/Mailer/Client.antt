-- ===== src/Mailer/Client.antt =====
-- `New` of internal/mailer/mailer.go: the options of the SMTP client. go-mail's NewClient, which tests
-- them, is a parameter.
use suzie_filtering_system.Base.{ℕ, ◌*◌, Text, codes, Option, none, some, ◌++◌}
use suzie_filtering_system.Model.{ℤ, second}
use suzie_filtering_system.World.{Result, ok, err}

-- mailer.Config
pub record SmtpConfig : Type 0 where
  pub host : Text
  pub port : ℤ
  pub user : Text
  pub pass : Text
  pub from_addr : Text

pub data TlsPolicy : Type 0 where
  tls_mandatory tls_opportunistic no_tls : TlsPolicy

pub data SmtpAuth : Type 0 where
  auto_discover no_auth : SmtpAuth

-- The client of go-mail, by its options; a timeout counts nanoseconds.
pub record SmtpClient : Type 0 where
  pub host : Text
  pub port : ℤ
  pub auth : SmtpAuth
  pub username : Text
  pub password : Text
  pub tls : TlsPolicy
  pub timeout : ℕ

pub record Mailer : Type 0 where
  pub from_addr : Text
  pub sender : SmtpClient

abbrev pub smtp_client : SmtpConfig → SmtpClient
smtp_client cfg = record {
  host = cfg.host;
  port = cfg.port;
  auth = auto_discover;
  username = cfg.user;
  password = cfg.pass;
  tls = tls_mandatory;
  timeout = 30 * second;
}

abbrev made : SmtpConfig → Option Text → Result Mailer
made cfg none = ok (record { from_addr = cfg.from_addr; sender = smtp_client cfg })
made cfg (some e) = err (codes "create SMTP client: " ++ e)

-- `new_client` is mail.NewClient: `none` is success.
unfoldable pub new_mailer : (SmtpClient → Option Text) → SmtpConfig → Result Mailer
new_mailer new_client cfg = made cfg (new_client (smtp_client cfg))
