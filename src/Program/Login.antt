-- ===== src/Program/Login.antt =====
-- cmd/web-form/main.go: `createAuth`, the settings of the login provider and its two callbacks.
pub mod Laws
use web_form.Prelude.{
  Text, Text-comparable, [], ◌∷◌, if◌then◌else◌, List, Result, codes, is_empty, Option,
}
use web_form.Prelude.Dict.{Dict, insert, delete}
use web_form.Web.Requests.{HttpRequest}
use web_form.Web.Sessions.{text_at}
use web_form.Program.Users.{Token}
use web_form.Program.Settings.{Settings}

abbrev pub redirect_to : Text
redirect_to = codes "redirect-to"

-- `BeforeAuth`, on the session of the browser: the URL asked for is kept.
unfoldable pub before_auth : Text → Dict Text → Dict Text
before_auth url session = insert redirect_to url session

-- `PostAuth`, on the session and the headers of the answer.
unfoldable pub post_auth : Dict Text → Dict Text → Dict Text × Dict Text
post_auth session headers =
    let to = text_at redirect_to session in
    (
      delete redirect_to session,
      if is_empty to then headers else insert (codes "Location") to headers,
    )

-- Where the session manager keeps the sessions.
pub data SessionStore : Type 0 where
  in_memory : SessionStore
  in_redis : Text → SessionStore

-- `oidclogin.Config`
pub record AuthConfig : Type 0 where
  pub issuer_url : Text
  pub client_id : Text
  pub client_secret : Text
  pub server_url : Text
  pub scopes : List Text
  pub session_store : SessionStore
  pub before_auth : Text → Dict Text → Dict Text
  pub post_auth : Dict Text → Dict Text → Dict Text × Dict Text

-- What `auth.Secure` makes of a request: it passes, with the token that `oidclogin.Token` then reads
-- of it, or it is answered by the provider.
pub data Admission : Type 0 where
  passed : Option Token → Admission
  turned_away : Admission

abbrev pub Gate : Type 0
Gate = HttpRequest → Admission

-- `createAuth`, over `oidclogin.New`.
unfoldable pub create_auth : (AuthConfig → Result Gate) → Settings → SessionStore → Result Gate
unfolding before_auth post_auth
create_auth new_oidc cfg sessions = new_oidc (record {
  issuer_url = cfg.oidc.issuer;
  client_id = cfg.oidc.client_id;
  client_secret = cfg.oidc.client_secret;
  server_url = cfg.server_url;
  scopes = codes "openid" ∷ codes "profile" ∷ [];
  session_store = sessions;
  before_auth = before_auth;
  post_auth = post_auth;
})
