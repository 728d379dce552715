-- ===== src/Program/Router/Passage.antt =====
-- What a request has passed on its way to a handler that stores something of it.
use mathlib.Core.Path.{subst}
use web_form.Prelude.{
  Bool, false, Text, Text-comparable, [], ◌∷◌, ◌&&◌, not, true, false, List, Option, none, some,
  codes, ◌≡◌, ◌≢◌, ◌⊎◌, refl, sym, ap, ◌∙◌, arith, inl, inr, Bool-cases,
}
use web_form.Prelude.Dict.{Dict}
use web_form.Utils.Sets.{has}
use web_form.Schema.Types.{RequestContext, Stored}
use web_form.Schema.Access.{is_allowed, has_code_access}
use web_form.Web.Requests.{
  HttpRequest, is_post, is_get, with_credentials, with_captcha, new_request, set_state, a_form,
}
use web_form.Web.Guards.{check_xsrf, captcha_loop, verify_xsrf, verify_captcha}
use web_form.Engine.Config.{Platform, FormConfig, Serving, Destination, FormHandler}
use web_form.Engine.Access.Laws.{offered_code, find_code-offered}
use web_form.Engine.Server.{Mux, Mounted}
use web_form.Engine.Serve.{serve, handle_form}
use web_form.Engine.Serve.Admission.{serve_stores}
use web_form.Engine.Serve.Stored.{Conforms, serve_stores-Conforms}
use web_form.Program.Users.{Token, credentials_from_request}
use web_form.Program.Login.{Admission, passed, turned_away}
use web_form.Program.Router.{
  Answer, Router, Routing, Login, Mount, Handler, handle, handle_mount, handle_group, handle_secure,
  handle_admission, handle_user, handle_engine, handle_found, form_page, list_page, by_form,
  stored_by, by_list, not_found, by_files, by_login, login_service, static_files, asset_files,
  form_pages, no_session, is_loaded,
}

-- A submission that a handler with this configuration stores for a request.
pub record Admitted (p : Platform) (fr : FormConfig) (http : HttpRequest)
    (stored : List (Text × Dict Stored)) : Type 0 where
  pub allowed : is_allowed fr.definition http.creds ≡ true
  pub token : (fr.xsrf && is_post http.method && not (check_xsrf http)) ≡ false
  pub human : (is_post http.method && not (captcha_loop http fr.captcha)) ≡ false
  pub coded :
      (has_code_access fr.definition ≡ false)
      ⊎ ((is_post http.method ≡ true)
          × (has fr.definition.codes (offered_code p.order (new_request http) ∷ []) ≡ true))
  pub no_get : is_get http.method ≡ false
  pub values : Dict Stored
  pub once : stored ≡ (fr.definition.table, values) ∷ []
  pub loc : Text
  pub ctx : RequestContext
  pub from_body : ctx.form ≡ http.post_form
  pub by_user : ctx.credentials ≡ http.creds
  pub fitting : Conforms p.externals fr.definition loc ctx values

module _ (p : Platform) (fr : FormConfig) (http : HttpRequest) where
  abbrev pub started : Serving
  started = record {
    request =
        set_state (codes "Form") (a_form fr.definition)
          (with_captcha fr.captcha (new_request http));
    stores = [];
    dispatched = [];
  }

  serve-Admitted :
      (ds : List Destination)
      → (serve p fr ds started).stores ≢ []
      → Admitted p fr http (serve p fr ds started).stores
  unfolding set_state with_captcha new_request verify_xsrf verify_captcha
  serve-Admitted ds h =
      let (a, _) = serve_stores p fr ds started h in
      let (values, stored, (loc, (ctx, from_body, by_user, fitting))) =
        serve_stores-Conforms p fr ds started h in
      record {
        allowed = a.allowed;
        token = ground (arith, a.token);
        human = ground (arith, a.human);
        coded = elim a.coded [
          | inl none' ↦ inl none'
          | inr (posted, known) ↦ inr (
            posted,
            ap (λ c. has fr.definition.codes (c ∷ []))
                  (sym (find_code-offered p.order started.request))
                ∙ known,
          )
        ];
        no_get = a.no_get;
        values = values;
        once = stored;
        loc = loc;
        ctx = ctx;
        from_body = from_body;
        by_user = by_user;
        fitting = fitting;
      }

handle_form-Admitted :
    (p : Platform) (h : FormHandler) (http : HttpRequest)
    → stored_by (by_form (handle_form p h http)) ≢ []
    → Admitted p h.config http (stored_by (by_form (handle_form p h http)))
unfolding handle_form
handle_form-Admitted p h http = serve-Admitted p h.config http h.made

-- The token with which a request comes to the forms.
abbrev pub IsLetIn : Option Login → HttpRequest → Option Token → Type 0
IsLetIn none http token = token ≡ none
IsLetIn (some l) http token = l.secure http ≡ passed token

-- An answer that no handler of the engine gives, but for a path that it does not know.
abbrev pub is_outer : Answer → Bool
is_outer (by_list r) = false
is_outer (by_form s) = false
is_outer a = true

module _ (p : Platform) (routing : Routing) where
  -- An answer of the engine, for the user of the token.
  abbrev pub IsOfEngine : Option Login → Mux → HttpRequest → Answer → Type 0
  IsOfEngine login mux http a =
      (token : Option Token) × IsLetIn login http token
      × (a ≡ handle_engine p routing mux (with_credentials (credentials_from_request token) http))

  handle_admission-IsOfEngine :
      (l : Login) (mux : Mux) (http : HttpRequest) (o : Admission)
      → l.secure http ≡ o
      → (is_outer (handle_admission p routing mux http o) ≡ true)
        ⊎ IsOfEngine (some l) mux http (handle_admission p routing mux http o)
  unfolding handle_user
  handle_admission-IsOfEngine l mux http (passed token) e = inr (token, e, refl)
  handle_admission-IsOfEngine l mux http turned_away e = inl refl

  handle_secure-IsOfEngine :
      (login : Option Login) (mux : Mux) (http : HttpRequest)
      → (is_outer (handle_secure p routing login mux http) ≡ true)
        ⊎ IsOfEngine login mux http (handle_secure p routing login mux http)
  unfolding handle_secure handle_user
  handle_secure-IsOfEngine none mux http = inr (none, refl, refl)
  handle_secure-IsOfEngine (some l) mux http = handle_admission-IsOfEngine l mux http _ refl

  handle_mount-IsOfEngine :
      (r : Router) (http : HttpRequest) (o : Option Mount)
      → (is_outer (handle_mount p routing r http o).1 ≡ true)
        ⊎ IsOfEngine r.login r.forms http (handle_mount p routing r http o).1
  unfolding handle_group
  handle_mount-IsOfEngine r http none = inl refl
  handle_mount-IsOfEngine r http (some login_service) = inl refl
  handle_mount-IsOfEngine r http (some static_files) = inl refl
  handle_mount-IsOfEngine r http (some (asset_files dir)) = inl refl
  handle_mount-IsOfEngine r http (some form_pages) = handle_secure-IsOfEngine r.login r.forms http

  -- A request comes to the engine only behind the login, with the credentials of its token.
  pub handle-IsOfEngine :
      (r : Router) (http : HttpRequest)
      → (is_outer (handle p routing r http).1 ≡ true)
        ⊎ IsOfEngine r.login r.forms http (handle p routing r http).1
  unfolding handle
  handle-IsOfEngine r http = elim (Bool-cases (is_loaded r.login http)) [
    | inl on ↦ rw on (handle_mount-IsOfEngine r http _)
    | inr off ↦ rw off (inl refl)
  ]

  -- A request that a handler of the engine stores.
  abbrev pub IsStored : Mux → HttpRequest → List (Text × Dict Stored) → Type 0
  IsStored mux http stored =
      (m : Mounted) × (routing.find_handler mux http ≡ some (form_page m))
      × Admitted p m.1.config http stored

  handle_found-IsStored :
      (mux : Mux) (http : HttpRequest) (o : Option Handler)
      → routing.find_handler mux http ≡ o
      → stored_by (handle_found p routing http o) ≢ []
      → IsStored mux http (stored_by (handle_found p routing http o))
  handle_found-IsStored mux http none e h = absurd (h refl)
  handle_found-IsStored mux http (some (list_page forms)) e h = absurd (h refl)
  handle_found-IsStored mux http (some (form_page m)) e h =
      (m, e, handle_form-Admitted p m.1 http h)

  outer-stored_by : (a : Answer) → is_outer a ≡ true → stored_by a ≡ []
  outer-stored_by not_found h = refl
  outer-stored_by by_files h = refl
  outer-stored_by by_login h = refl
  outer-stored_by no_session h = refl
  outer-stored_by (by_list r) h = refl
  outer-stored_by (by_form s) h = cc

  engine-IsStored :
      (mux : Mux) (http : HttpRequest) (a : Answer)
      → a ≡ handle_engine p routing mux http
      → stored_by a ≢ []
      → IsStored mux http (stored_by a)
  unfolding handle_engine
  engine-IsStored mux http a e h =
      subst (λ x. stored_by x ≢ [] → IsStored mux http (stored_by x)) (sym e)
        (handle_found-IsStored mux http _ refl) h

  pub handle-IsStored :
      (r : Router) (http : HttpRequest)
      → stored_by (handle p routing r http).1 ≢ []
      → (token : Option Token) × IsLetIn r.login http token
        × IsStored r.forms
            (with_credentials (credentials_from_request token) http)
            (stored_by (handle p routing r http).1)
  handle-IsStored r http h = elim (handle-IsOfEngine r http) [
    | inl outer ↦ absurd (h (outer-stored_by _ outer))
    | inr (token, let_in, e) ↦ (token, let_in, engine-IsStored r.forms _ _ e h)
  ]
