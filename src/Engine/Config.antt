-- ===== src/Engine/Config.antt =====
-- internal/engine/form.go, options.go: the configuration of a handler and the state that it serves.
use web_form.Prelude.{Text, [], ◌∷◌, ◌++◌, Bool, List, Option, none, some, Error, codes}
use web_form.Prelude.Dict.{Dict}
use web_form.Schema.Types.{Form, Webhook, Amqp, Stored, NotifyContext}
use web_form.Schema.Templates.{Externals}
use web_form.Web.Requests.{Request, Captcha}
use web_form.Web.Sessions.{Order}
use web_form.Web.Pages.{View, Execute}

abbrev pub access_code_field : Text
access_code_field = codes "accessCode"

abbrev pub fresh_field : Text
fresh_field = codes "fresh"

abbrev pub tz_field : Text
tz_field = codes "tz"

-- What a notification is sent to, as its factory made it.
pub data Destination : Type 0 where
  to_webhook : Webhook → Destination
  to_broker : Amqp → Destination

-- `Storage`: the result beside the error, as `Store` returns both.
abbrev pub Store : Type 0
Store = Text → Dict Stored → Dict Stored × Option Error

-- A factory that is nil makes no destinations; `none` of `make` is a panic of the factory.
pub record FormConfig : Type 0 where
  pub definition : Form
  pub view_form : View
  pub view_success : View
  pub view_fail : View
  pub view_code : View
  pub view_forbidden : View
  pub storage : Store
  pub webhooks_factory : Option (Webhook → Option Webhook)
  pub amqp_factory : Option (Amqp → Option Amqp)
  pub xsrf : Bool
  pub captcha : List Captcha

-- `FormOption` and `WithXSRF`
abbrev pub FormOption : Type 0
FormOption = FormConfig → FormConfig

unfoldable pub with_xsrf : Bool → FormOption
with_xsrf enable config = record config { xsrf = enable }

unfoldable pub apply_options : List FormOption → FormConfig → FormConfig
apply_options [] config = config
apply_options (o ∷ os) config = apply_options os (o config)

-- The loops of `NewForm` over the definitions of notifications.
unfoldable pub create_all {ℓ} :
    {A : Type ℓ} → (A → Option A) → (A → Destination) → List A → Option (List Destination)
create_all make wrap [] = some []
create_all make wrap (d ∷ ds) = elim (make d) [
  | none ↦ none
  | some made ↦ elim (create_all make wrap ds) [ none ↦ none | some rest ↦ some (wrap made ∷ rest) ]
]

abbrev pub create_with {ℓ} :
    {A : Type ℓ} → Option (A → Option A) → (A → Destination) → List A → Option (List Destination)
create_with none wrap ds = some []
create_with (some make) wrap ds = create_all make wrap ds

unfoldable pub destinations : FormConfig → Option (List Destination)
unfolding create_all
destinations config =
    elim (create_with config.webhooks_factory to_webhook config.definition.webhooks) [
      | none ↦ none
      | some hooks ↦ elim (create_with config.amqp_factory to_broker config.definition.amqp) [
        | none ↦ none
        | some brokers ↦ some (hooks ++ brokers)
      ]
    ]

-- The handler that `NewForm` returns: its configuration, and the destinations that it has made.
pub record FormHandler : Type 0 where
  pub config : FormConfig
  pub made : List Destination

abbrev pub handler_of : FormConfig → Option (List Destination) → Option FormHandler
handler_of fr none = none
handler_of fr (some ds) = some (record { config = fr; made = ds })

-- `NewForm`; `none` is a panic of a factory.
unfoldable pub new_form : FormConfig → List FormOption → Option FormHandler
unfolding destinations apply_options
new_form config options =
    handler_of (apply_options options config) (destinations (apply_options options config))

-- What the handler uses that is not in the repository, and the orders that Go leaves open.
pub record Platform : Type 0 where
  pub externals : Externals
  pub execute : Execute
  pub order : Order
  pub query_unescape : Text → Option Text

-- A request that is served, the calls of `Storage.Store` and the notifications dispatched so far.
pub record Serving : Type 0 where
  pub request : Request
  pub stores : List (Text × Dict Stored)
  pub dispatched : List (Destination × NotifyContext)
