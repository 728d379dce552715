-- ===== src/Program/Router/Listing.antt =====
-- What the list of forms shows to a user.
use web_form.Prelude.{
  Text, Text-comparable, text_eq, [], ◌∷◌, not, Bool, true, false, List, Option, none, some, ok,
  codes, ◌≡◌, refl, sym, ap, ◌∙◌, keep, inl, inr, if◌then◌else◌,
}
use web_form.Prelude.Dict.{lookup, insert}
use web_form.Schema.Types.{Form, Webhook, Amqp}
use web_form.Schema.Access.{is_allowed}
use web_form.Web.Requests.{
  HttpRequest, Request, StateValue, the_forms, with_credentials, new_request, set_state,
}
use web_form.Web.Sessions.{open_session}
use web_form.Web.Pages.{render}
use web_form.Engine.Access.{new_request_context}
use web_form.Engine.Config.{Platform, Store, with_xsrf}
use web_form.Engine.Server.{Mux, new_mux, list_view}
use web_form.Engine.Server.Laws.{new_mux_iff, allowed_forms-keep}
use web_form.Program.Users.{Token, credentials_from_request}
use web_form.Program.Turnstile.{Service}
use web_form.Program.Settings.{Settings}
use web_form.Program.Startup.{engine_config}
use web_form.Program.Router.{
  Routing, Login, Handler, handle, handle_engine, handle_found, new_router, list_page, form_page,
  by_list,
}
use web_form.Program.Router.Passage.{IsLetIn, is_outer, handle-IsOfEngine}

-- The forms that a page is given to list.
abbrev pub shown : Request → Option StateValue
shown r = lookup (codes "Definitions") r.state

list_view-shown :
    (p : Platform) (forms : List Form) (http : HttpRequest)
    → shown (list_view p.execute p.order forms http)
      ≡ some (the_forms (keep (λ f. is_allowed f http.creds) forms))
unfolding list_view render new_request_context open_session set_state new_request lookup insert
    text_eq
list_view-shown p forms http = rw (allowed_forms-keep forms http.creds) refl

listed_forms :
    (disabled : Bool) (fs forms : List Form)
    → some fs ≡ (if not disabled then some forms else none)
    → (disabled ≡ false) × (fs ≡ forms)
listed_forms true fs forms h = cc
listed_forms false fs forms h = (refl, cc)

module _ (p : Platform) (routing : Routing) where
  -- A list that the engine shows.
  handle_found-shown :
      (mux : Mux) (http : HttpRequest) (o : Option Handler) {r : Request}
      → routing.find_handler mux http ≡ o
      → by_list r ≡ handle_found p routing http o
      → (forms : List Form) × (routing.find_handler mux http ≡ some (list_page forms))
        × (shown r ≡ some (the_forms (keep (λ f. is_allowed f http.creds) forms)))
  handle_found-shown mux http none e h = cc
  handle_found-shown mux http (some (form_page m)) e h = cc
  handle_found-shown mux http (some (list_page forms)) {r} e h =
      let same : r ≡ list_view p.execute p.order forms http = cc in
      (forms, e, ap shown same ∙ list_view-shown p forms http)

  handle_engine-shown :
      (mux : Mux) (http : HttpRequest) {r : Request}
      → by_list r ≡ handle_engine p routing mux http
      → (forms : List Form) × (routing.find_handler mux http ≡ some (list_page forms))
        × (shown r ≡ some (the_forms (keep (λ f. is_allowed f http.creds) forms)))
  unfolding handle_engine
  handle_engine-shown mux http h = handle_found-shown mux http _ refl h

  module _ (svc : Service) (cfg : Settings) (forms : List Form) (store : Store)
      (webhooks : Webhook → Option Webhook) (broker : Amqp → Option Amqp) where
    -- When the running program answers with the list of forms, listing is not disabled, the request
    -- was let in by the login, and the page gets exactly the forms that the policy allows to the
    -- user, the email and the groups of the token, in the order of the definitions. The router
    -- finds the list only where the engine has one.
    pub program_lists :
        (takes : List Text → Text → Bool) (login : Option Login) {mux : Mux} (http : HttpRequest)
        {r : Request}
        → new_mux takes
            (engine_config svc cfg forms store webhooks broker)
            (with_xsrf (not cfg.http.disable_xsrf) ∷ [])
          ≡ some (ok mux)
        → ((fs : List Form) (q : HttpRequest)
            → routing.find_handler mux q ≡ some (list_page fs)
            → mux.listed ≡ some fs)
        → (handle p routing (new_router cfg login mux) http).1 ≡ by_list r
        → (cfg.disable_listing ≡ false)
          × ((token : Option Token) × IsLetIn login http token
              × (shown r
                  ≡ some (
                      the_forms (keep (λ f. is_allowed f (credentials_from_request token)) forms))))
    unfolding engine_config new_router with_credentials
    program_lists takes login {mux} http {r} built found h =
        elim (handle-IsOfEngine p routing (new_router cfg login mux) http) [
          | inl outer ↦ cc (sym (ap is_outer h) ∙ outer)
          | inr (token, let_in, e) ↦
              let (fs, at, page) = handle_engine-shown mux _ (sym h ∙ e) in
              let (_, _, _, listed) =
                (new_mux_iff takes (engine_config svc cfg forms store webhooks broker)
                    (with_xsrf (not cfg.http.disable_xsrf) ∷ []) mux).0
                  built in
              let all_forms : some fs ≡ (if not cfg.disable_listing then some forms else none) =
                sym (found fs _ at) ∙ listed in
              let (on, same) = listed_forms cfg.disable_listing fs forms all_forms in
              (
                on,
                (
                  token,
                  let_in,
                  page
                      ∙ ap
                          (λ l. some (
                            the_forms
                              (keep (λ f. is_allowed f (credentials_from_request token)) l)))
                          same,
                ),
              )
        ]
