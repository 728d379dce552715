-- ===== src/Examples/Pages.antt =====
-- The list of the forms and the notifications of a form, at concrete values.
use web_form.Prelude.{
  Text-comparable, [], ◌∷◌, ◌≡◌, refl, false, true, List, Option, none, some, codes, keep,
}
use web_form.Schema.Types.{Form, Webhook}
use web_form.Schema.Access.{is_allowed}
use web_form.Schema.Templates.{must_template, new_template}
use web_form.Web.Requests.{HttpRequest, Request, get, the_forms, with_credentials}
use web_form.Engine.Config.{
  FormHandler, new_form, FormConfig, destinations, create_all, apply_options, to_webhook,
}
use web_form.Engine.Server.{list_view}
use web_form.Engine.Serve.{handle_form}
use web_form.Notifications.Webhooks as Webhooks
use web_form.Notifications.Broker as Broker
use web_form.Program.Users.{Token, credentials_from_request}
use web_form.Program.Router.{
  Routing, Handler, handle, handle_group, handle_secure, handle_user, handle_engine, new_router,
  form_pages, list_page, by_list,
}
use web_form.Program.Router.Passage.{IsLetIn}
use web_form.Program.Router.Listing.{shown, program_lists}
use web_form.Program.Notifying.{AreNotices, handle_form-AreNotices}
use web_form.Examples.{plain, survey, secret_survey, platform, config, hook, post_survey}
use web_form.Examples.Startup.{
  takes_once, service, settings, keep_hook, keep_broker, program_mux, program_mounts,
}
use web_form.Examples.Running.{token, login}

abbrev list_of : Option (List Form) → Option Handler
list_of none = none
list_of (some forms) = some (list_page forms)

-- Every request is for the list.
abbrev routing : Routing
routing = record {
  find_mount = λ mounts http. some form_pages;
  find_handler = λ mux http. list_of mux.listed;
}

abbrev asked : HttpRequest
asked = record post_survey { method = get; creds = none }

abbrev list_page_of : Request
list_page_of =
    list_view platform.execute platform.order (survey ∷ secret_survey ∷ [])
      (with_credentials (credentials_from_request (some token)) asked)

listed :
    (handle platform routing (new_router settings (some login) program_mux) asked).1
    ≡ by_list list_page_of
unfolding handle handle_group handle_secure handle_user handle_engine new_router
listed = refl

list_of-found :
    (o : Option (List Form)) (fs : List Form) → list_of o ≡ some (list_page fs) → o ≡ some fs
list_of-found none fs e = cc
list_of-found (some gs) fs e = cc

program_lists_example :
    (settings.disable_listing ≡ false)
    × ((t : Option Token) × IsLetIn (some login) asked t
        × (shown list_page_of
            ≡ some (
                the_forms (
                  keep
                    (λ f. is_allowed f (credentials_from_request t))
                    (survey ∷ secret_survey ∷ [])))))
program_lists_example =
    program_lists platform routing service settings (survey ∷ secret_survey ∷ []) config.storage
      keep_hook keep_broker takes_once (some login) asked program_mounts
      (λ fs q. list_of-found program_mux.listed fs) listed

-- The survey with a webhook, and the factories of the program.
abbrev notifying : FormConfig
notifying = record config {
  definition = record survey { webhooks = hook ∷ [] };
  webhooks_factory = some (Webhooks.create plain);
  amqp_factory = some (Broker.create plain);
}

abbrev made_hook : Webhook
made_hook = record hook {
  headers = some ((codes "Content-Type", codes "application/json") ∷ []);
  message = record { valid = true; value = codes "{{.Result | toJson}}" };
}

abbrev notifying_handler : FormHandler
notifying_handler = record { config = notifying; made = to_webhook made_hook ∷ [] }

made_of : new_form notifying [] ≡ some notifying_handler
unfolding new_form destinations create_all apply_options Webhooks.create Webhooks.create_limits
    Webhooks.create_message must_template new_template
made_of = refl

handle_form-AreNotices_example :
    AreNotices platform notifying (handle_form platform notifying_handler post_survey)
unfolding apply_options
handle_form-AreNotices_example =
    handle_form-AreNotices platform notifying [] post_survey refl refl made_of
