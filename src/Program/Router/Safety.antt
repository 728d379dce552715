-- ===== src/Program/Router/Safety.antt =====
-- What a request has passed when the program stores something of it.
use mathlib.Core.List.{Memᴰ}
use mathlib.Core.Path.{subst}
use web_form.Prelude.{
  Text, Text-comparable, [], ◌∷◌, ◌&&◌, not, true, false, List, Option, some, ok, ◌≡◌, ◌≢◌, ◌⊎◌,
  refl, map, Bool, sym, ap, ◌∙◌,
}
use web_form.Prelude.Dict.{Dict}
use web_form.Utils.Sets.{has}
use web_form.Schema.Types.{Form, RequestContext, Stored, Webhook, Amqp}
use web_form.Schema.Access.{is_allowed, has_code_access}
use web_form.Web.Requests.{HttpRequest, is_post, is_get, with_credentials, new_request}
use web_form.Web.Guards.{check_xsrf, captcha_loop}
use web_form.Engine.Config.{Platform, FormOption, Store, apply_options, with_xsrf}
use web_form.Engine.Access.Laws.{offered_code}
use web_form.Engine.Server.{mounted_of, Config, Mux, Mounted, new_mux, form_config}
use web_form.Engine.Server.Laws.{mounted_of-config, new_mux_iff}
use web_form.Engine.Serve.Stored.{Conforms}
use web_form.Program.Users.{Token, credentials_from_request}
use web_form.Program.Turnstile.{Service}
use web_form.Program.Settings.{Settings}
use web_form.Program.Startup.{captchas, engine_config}
use web_form.Program.Router.{Routing, Login, handle, new_router, form_page, stored_by}
use web_form.Program.Router.Passage.{Admitted, IsLetIn, handle-IsStored}

Memᴰ-made :
    {A B : Type 0} (f : A → Option B) (xs : List A) (ys : List B) {y : B}
    → map f xs ≡ map some ys
    → Memᴰ y ys
    → (x : A) × Memᴰ x xs × (f x ≡ some y)
Memᴰ-made f xs [] e m = elim m [ ]
Memᴰ-made f [] (y ∷ ys) e m = cc
Memᴰ-made f (x ∷ xs) (z ∷ ys) e (Memᴰ.head q) =
    let here : f x ≡ some z = cc in (x, Memᴰ.head refl, here ∙ ap some (sym q))
Memᴰ-made f (x ∷ xs) (z ∷ ys) e (Memᴰ.tail m) =
    let rest : map f xs ≡ map some ys = cc in
    let (w, n, q) = Memᴰ-made f xs ys rest m in (w, Memᴰ.tail n, q)

-- What the program has checked of a request when it stores something of it for a form, and what it
-- stores.
pub record Passed (p : Platform) (svc : Service) (cfg : Settings) (form : Form) (http : HttpRequest)
    (stored : List (Text × Dict Stored)) : Type 0 where
  pub allowed : is_allowed form http.creds ≡ true
  pub token : (not cfg.http.disable_xsrf && is_post http.method && not (check_xsrf http)) ≡ false
  pub human : (is_post http.method && not (captcha_loop http (captchas svc cfg))) ≡ false
  pub coded :
      (has_code_access form ≡ false)
      ⊎ ((is_post http.method ≡ true)
          × (has form.codes (offered_code p.order (new_request http) ∷ []) ≡ true))
  pub no_get : is_get http.method ≡ false
  pub values : Dict Stored
  pub once : stored ≡ (form.table, values) ∷ []
  pub loc : Text
  pub ctx : RequestContext
  pub from_body : ctx.form ≡ http.post_form
  pub by_user : ctx.credentials ≡ http.creds
  pub fitting : Conforms p.externals form loc ctx values

module _ (p : Platform) (routing : Routing) (svc : Service) (cfg : Settings) (forms : List Form)
    (store : Store) (webhooks : Webhook → Option Webhook) (broker : Amqp → Option Amqp) where
  abbrev engine_of : Config
  engine_of = engine_config svc cfg forms store webhooks broker

  abbrev options_of : List FormOption
  options_of = with_xsrf (not cfg.http.disable_xsrf) ∷ []

  Admitted-Passed :
      (form : Form) (http : HttpRequest) (stored : List (Text × Dict Stored))
      → Admitted p (apply_options options_of (form_config engine_of form)) http stored
      → Passed p svc cfg form http stored
  unfolding engine_config form_config apply_options with_xsrf
  Admitted-Passed form http stored a = record {
    allowed = a.allowed;
    token = a.token;
    human = a.human;
    coded = a.coded;
    no_get = a.no_get;
    values = a.values;
    once = a.once;
    loc = a.loc;
    ctx = a.ctx;
    from_body = a.from_body;
    by_user = a.by_user;
    fitting = a.fitting;
  }

  mounted-Passed :
      (form : Form) (m : Mounted) (http : HttpRequest) (stored : List (Text × Dict Stored))
      → mounted_of engine_of options_of form ≡ some m
      → Admitted p m.1.config http stored
      → Passed p svc cfg form http stored
  mounted-Passed form m http stored e a =
      Admitted-Passed form http stored
        (subst (λ c. Admitted p c http stored) (mounted_of-config engine_of options_of form e) a)

  -- Whatever the running program stores for a request, the request was let in by the login (with
  -- the token that the provider gives it, if OIDC is on), and it passed for one of the forms the
  -- policy on the user, the email and the groups of that token, the XSRF check unless that is
  -- disabled, the captchas that are configured and the access code, and was no GET; what is stored
  -- is one row for the table of the form, with values that conform to its definition for the body
  -- and the user of the request. The router finds only handlers of forms that are mounted.
  pub program_stores :
      (takes : List Text → Text → Bool) (login : Option Login) {mux : Mux} (http : HttpRequest)
      → new_mux takes engine_of options_of ≡ some (ok mux)
      → ((m : Mounted) (q : HttpRequest)
          → routing.find_handler mux q ≡ some (form_page m)
          → Memᴰ m mux.mounted)
      → stored_by (handle p routing (new_router cfg login mux) http).1 ≢ []
      → (token : Option Token) × IsLetIn login http token
        × ((form : Form) × Memᴰ form forms
            × Passed p svc cfg form
                (with_credentials (credentials_from_request token) http)
                (stored_by (handle p routing (new_router cfg login mux) http).1))
  unfolding engine_config new_router
  program_stores takes login {mux} http built found h =
      let (token, let_in, (m, at, a)) =
        handle-IsStored p routing (new_router cfg login mux) http h in
      let (_, _, mounted, _) = (new_mux_iff takes engine_of options_of mux).0 built in
      let (form, member, e) =
        Memᴰ-made (mounted_of engine_of options_of) forms mux.mounted mounted (found m _ at) in
      (token, let_in, (form, member, mounted-Passed form m _ _ e a))
