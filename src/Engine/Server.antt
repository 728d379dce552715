-- ===== src/Engine/Server.antt =====
-- internal/engine/server.go: `New`, which mounts a handler for every form, and the list of forms.
pub mod Laws
pub mod Made
pub mod Views
use web_form.Prelude.{
  Text, Text-comparable, [], ◌∷◌, ◌++◌, if◌then◌else◌, Bool, true, false, List, Option, none, some,
  Error, Result, ok, err, codes, new, wrap, map,
}
use web_form.Utils.Sets.{has, add, new_set}
use web_form.Schema.Types.{Form, Credentials, Webhook, Amqp}
use web_form.Schema.Access.{is_allowed}
use web_form.Web.Requests.{
  HttpRequest, Request, Captcha, new_request, set_state, the_forms, a_context,
  credentials_from_context,
}
use web_form.Web.Sessions.{Order}
use web_form.Web.Pages.{View, Execute, render}
use web_form.Engine.Config.{Store, FormConfig, FormOption, FormHandler, new_form}
use web_form.Engine.Access.{new_request_context}

abbrev pub err_duplicated_name : Error
err_duplicated_name = new (codes "duplicated form name")

-- `Config`
pub record Config : Type 0 where
  pub forms : List Form
  pub storage : Store
  pub webhooks_factory : Option (Webhook → Option Webhook)
  pub amqp_factory : Option (Amqp → Option Amqp)
  pub listing : Bool
  pub captcha : List Captcha

abbrev base_view : Text → View
base_view overlay = codes "form_base.gohtml" ∷ overlay ∷ []

unfoldable pub form_config : Config → Form → FormConfig
form_config cfg form = record {
  definition = form;
  view_form = base_view (codes "form.gohtml");
  view_success = base_view (codes "success.gohtml");
  view_fail = base_view (codes "failed.gohtml");
  view_code = base_view (codes "access.gohtml");
  view_forbidden = base_view (codes "forbidden.gohtml");
  storage = cfg.storage;
  webhooks_factory = cfg.webhooks_factory;
  amqp_factory = cfg.amqp_factory;
  xsrf = false;
  captcha = cfg.captcha;
}

-- What is mounted: the path, and the handler of a form.
abbrev pub Mounted : Type 0
Mounted = Text × FormHandler

abbrev pub form_path : Text → Text
form_path name = codes "/forms/" ++ name

abbrev pub at_path : Text → Option FormHandler → Option Mounted
at_path path none = none
at_path path (some h) = some (path, h)

-- What a form is mounted as; `none` is a panic of a factory.
abbrev pub mounted_of : Config → List FormOption → Form → Option Mounted
mounted_of cfg options form =
    at_path (form_path form.name) (new_form (form_config cfg form) options)

abbrev pub patterns : List Mounted → List Text
patterns mux = map (λ m. m.0) mux

-- The loop of `New`, with the names and the handlers so far; whether chi takes a pattern beside
-- those that it has is a parameter. `none` is a panic, of a factory or of `Mount`.
unfoldable pub mount_loop :
    (List Text → Text → Bool)
    → Config
    → List FormOption
    → List Text
    → List Mounted
    → List Form
    → Option (Result (List Mounted))
unfolding new_form form_config
mount_loop takes cfg options used mux [] = some (ok mux)
mount_loop takes cfg options used mux (form ∷ forms) =
    if has used (form.name ∷ [])
    then some (err (wrap (codes "form %q: %w") (form.name ∷ []) err_duplicated_name))
    else elim (mounted_of cfg options form) [
      | none ↦ none
      | some m ↦
          if takes (patterns mux) (form_path form.name)
          then mount_loop takes cfg options (add used (form.name ∷ [])) (mux ++ m ∷ []) forms
          else none
    ]

-- The mux: the handlers of the forms, and the forms of the list if there is one.
pub record Mux : Type 0 where
  pub mounted : List Mounted
  pub listed : Option (List Form)

abbrev pub mux_of : Config → Option (Result (List Mounted)) → Option (Result Mux)
mux_of cfg none = none
mux_of cfg (some (err e)) = some (err e)
mux_of cfg (some (ok mounted)) =
    some (ok (record { mounted = mounted; listed = if cfg.listing then some cfg.forms else none }))

-- `New`, behind its views; `none` is a panic.
unfoldable pub new_mux : (List Text → Text → Bool) → Config → List FormOption → Option (Result Mux)
unfolding mount_loop
new_mux takes cfg options = mux_of cfg (mount_loop takes cfg options (new_set []) [] cfg.forms)

-- The loop of `listViewHandler`.
unfoldable pub allowed_loop : Option Credentials → List Form → List Form → List Form
allowed_loop creds shown [] = shown
allowed_loop creds shown (f ∷ fs) =
    allowed_loop creds (if is_allowed f creds then shown ++ f ∷ [] else shown) fs

unfoldable pub allowed_forms : List Form → Option Credentials → List Form
unfolding allowed_loop
allowed_forms forms creds = allowed_loop creds [] forms

unfoldable pub list_view : Execute → Order → List Form → HttpRequest → Request
list_view execute order forms http =
    let listed =
      set_state (codes "Definitions")
        (the_forms (allowed_forms forms (credentials_from_context http))) (new_request http) in
    let (ctx, r) = new_request_context order listed in
    render execute 200 (codes "list.gohtml" ∷ []) (set_state (codes "Context") (a_context ctx) r)
