-- ===== src/Program/Router/Accepting.antt =====
-- What the program stores for a request that passes its checks.
use web_form.Prelude.{
  Text-comparable, [], ◌∷◌, ◌&&◌, not, true, false, List, Option, none, some, codes, ◌≡◌, ◌⊎◌, refl,
  arith, inl, inr, ◌==◌, ap, ◌∙◌,
}
use web_form.Prelude.Dict.{Dict}
use web_form.Utils.Sets.{has}
use web_form.Schema.Types.{Form, Stored, Webhook, Amqp}
use web_form.Schema.Access.{is_allowed, has_code_access}
use web_form.Schema.Forms.{parse_form}
use web_form.Web.Requests.{
  HttpRequest, post, is_post, is_get, with_credentials, with_captcha, new_request, set_state,
}
use web_form.Web.Sessions.{session_of, text_at}
use web_form.Web.Guards.{check_xsrf, captcha_loop, verify_xsrf, verify_captcha}
use web_form.Engine.Config.{
  FormHandler, Platform, FormConfig, Store, Destination, apply_options, with_xsrf, fresh_field,
  tz_field,
}
use web_form.Engine.Access.{validate_code}
use web_form.Engine.Access.Laws.{offered_code, find_code-offered}
use web_form.Engine.Submit.{location}
use web_form.Engine.Server.{Mux, Mounted, mounted_of, form_config}
use web_form.Engine.Server.Laws.{mounted_of-config}
use web_form.Engine.Serve.{serve, handle_form}
use web_form.Engine.Serve.Admission.{IsAdmitted}
use web_form.Engine.Serve.Accepted.{context_of, submitted_session, serve-stores}
use web_form.Program.Users.{Token, credentials_from_request}
use web_form.Program.Turnstile.{Service}
use web_form.Program.Settings.{Settings}
use web_form.Program.Startup.{engine_config}
use web_form.Program.Router.{
  is_loaded, Routing, Login, handle, handle_group, handle_secure, handle_user, handle_engine,
  new_router, form_page, form_pages, by_form, stored_by,
}
use web_form.Program.Router.Passage.{IsLetIn, started}

-- A POST that a handler is to store with these values.
pub record Acceptable (p : Platform) (fr : FormConfig) (ds : List Destination) (http : HttpRequest)
    (values : Dict Stored) : Type 0 where
  pub posted : http.method ≡ post
  pub allowed : is_allowed fr.definition http.creds ≡ true
  pub token : (fr.xsrf && not (check_xsrf http)) ≡ false
  pub human : captcha_loop http fr.captcha ≡ true
  pub coded :
      (has_code_access fr.definition ≡ false)
      ⊎ (has fr.definition.codes (offered_code p.order (new_request http) ∷ []) ≡ true)
  pub not_fresh :
      (text_at fresh_field
          (session_of p.order (validate_code p.order fr.definition (started p fr http).request).1)
        == codes "true")
      ≡ false
  pub parsed :
      parse_form p.externals
        (location p fr ds
          (text_at tz_field (submitted_session p fr ds (started p fr http).request)))
        (context_of http http.creds (submitted_session p fr ds (started p fr http).request))
        fr.definition
      ≡ (values, [])

module _ (p : Platform) (fr : FormConfig) {ds : List Destination} (http : HttpRequest)
    {values : Dict Stored} where
  Acceptable-IsAdmitted :
      Acceptable p fr ds http values → IsAdmitted p fr ds (started p fr http).request
  unfolding set_state with_captcha new_request verify_xsrf verify_captcha
  Acceptable-IsAdmitted a = record {
    token = ground (arith, a.token, ap is_post a.posted);
    allowed = a.allowed;
    coded = elim a.coded [
      | inl none' ↦ inl none'
      | inr known ↦ inr (
        ap is_post a.posted,
        ap (λ c. has fr.definition.codes (c ∷ []))
              (find_code-offered p.order (started p fr http).request)
            ∙ known,
      )
    ];
    no_get = ap is_get a.posted;
    human = ground (arith, a.human, ap is_post a.posted);
  }

  serve-Acceptable :
      Acceptable p fr ds http values
      → (serve p fr ds (started p fr http)).stores ≡ (fr.definition.table, values) ∷ []
  unfolding set_state with_captcha new_request
  serve-Acceptable a =
      serve-stores p fr ds (started p fr http) (Acceptable-IsAdmitted a) a.not_fresh a.parsed

handle_form-stores :
    (p : Platform) (h : FormHandler) (http : HttpRequest) {values : Dict Stored}
    → Acceptable p h.config h.made http values
    → stored_by (by_form (handle_form p h http)) ≡ (h.config.definition.table, values) ∷ []
unfolding handle_form
handle_form-stores p h http a = serve-Acceptable p h.config http a

module _ (p : Platform) (routing : Routing) (svc : Service) (cfg : Settings) (forms : List Form)
    (store : Store) (webhooks : Webhook → Option Webhook) (broker : Amqp → Option Amqp) where
  -- What `New` mounts for a form.
  abbrev pub mount_of : Form → Option Mounted
  mount_of form =
      mounted_of (engine_config svc cfg forms store webhooks broker)
        (with_xsrf (not cfg.http.disable_xsrf) ∷ []) form

  handle_secure-IsLetIn :
      (login : Option Login) (mux : Mux) (http : HttpRequest) (token : Option Token)
      → IsLetIn login http token
      → handle_secure p routing login mux http
        ≡ handle_engine p routing mux (with_credentials (credentials_from_request token) http)
  unfolding handle_secure handle_user
  handle_secure-IsLetIn none mux http token e = rw e refl
  handle_secure-IsLetIn (some l) mux http token e = rw e refl

  -- A POST whose session can be loaded (if OIDC is on), that chi routes to what New mounts for a
  -- form, that the login lets in, and that passes with the credentials of its token the policy of
  -- the form, the XSRF check unless that is disabled, the captchas that are configured and the
  -- access code, is stored if its session is not fresh and its body is parsed without an error: one
  -- row for the table of the form, with the parsed values.
  pub program_serves :
      (login : Option Login) (mux : Mux) (http : HttpRequest) (token : Option Token) (form : Form)
      (m : Mounted) {values : Dict Stored}
      → mount_of form ≡ some m
      → is_loaded login http ≡ true
      → routing.find_mount (new_router cfg login mux).mounts http ≡ some form_pages
      → IsLetIn login http token
      → routing.find_handler mux (with_credentials (credentials_from_request token) http)
        ≡ some (form_page m)
      → Acceptable p m.1.config m.1.made
          (with_credentials (credentials_from_request token) http)
          values
      → stored_by (handle p routing (new_router cfg login mux) http).1 ≡ (form.table, values) ∷ []
  unfolding handle handle_group new_router handle_engine engine_config form_config apply_options
      with_xsrf
  program_serves login mux http token form m {values} built loaded mount let_in found a =
      rw (loaded, mount, handle_secure-IsLetIn login mux http token let_in, found)
        (handle_form-stores p m.1 (with_credentials (credentials_from_request token) http) a
          ∙ ap (λ c. (c.definition.table, values) ∷ [])
              (mounted_of-config (engine_config svc cfg forms store webhooks broker)
                (with_xsrf (not cfg.http.disable_xsrf) ∷ []) form built))
