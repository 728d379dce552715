-- ===== src/Program/Settings.antt =====
-- cmd/web-form/main.go: `Config`, the settings of the program. Durations are in nanoseconds.
use web_form.Prelude.{Text, Bool}
use web_form.Prelude.Int.{ℤ}
use web_form.Program.Turnstile.{Widget}

-- The group `DB`.
pub record DbSettings : Type 0 where
  pub dialect : Text
  pub url : Text
  pub migrations : Text
  pub migrate : Bool

-- The group `AMQP`.
pub record AmqpSettings : Type 0 where
  pub url : Text
  pub buffer : ℤ
  pub workers : ℤ

-- The group `HTTP`.
pub record HttpSettings : Type 0 where
  pub assets : Text
  pub bind : Text
  pub disable_xsrf : Bool
  pub tls : Bool
  pub key : Text
  pub cert : Text
  pub read_timeout : ℤ
  pub write_timeout : ℤ

-- The group `OIDC`.
pub record OidcSettings : Type 0 where
  pub enable : Bool
  pub client_id : Text
  pub client_secret : Text
  pub issuer : Text
  pub redis_url : Text
  pub redis_idle : ℤ
  pub redis_max_connections : ℤ

-- `Config`; the groups with one field are that field.
pub record Settings : Type 0 where
  pub configs : Text
  pub storage : Text
  pub disable_listing : Bool
  pub db : DbSettings
  pub files_path : Text
  pub webhooks_buffer : ℤ
  pub amqp : AmqpSettings
  pub http : HttpSettings
  pub oidc : OidcSettings
  pub turnstile : Widget
  pub server_url : Text
