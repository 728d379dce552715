-- ===== src/Engine/Submit.antt =====
-- internal/engine/form.go: `submitForm` and `sendNotifications`.
use web_form.Prelude.{
  Text, Text-comparable, [], ◌∷◌, ◌++◌, if◌then◌else◌, List, Option, none, some, Error, codes,
  nonempty, map,
}
use web_form.Prelude.Dict.{Dict}
use web_form.Schema.Types.{Stored, NotifyContext, ResultContext}
use web_form.Schema.Forms.{FieldError, parse_form}
use web_form.Web.Requests.{Request, flash, flash_error, failure, plain, error, set_state, a_result}
use web_form.Web.Sessions.{open_session, session_of, push, text_at}
use web_form.Web.Pages.{render}
use web_form.Engine.Config.{FormConfig, Platform, Serving, Destination, tz_field, fresh_field}
use web_form.Engine.Access.{new_request_context}

-- One flash message for each error, named after its field.
unfoldable pub flash_errors : List FieldError → Request → Request
flash_errors [] r = r
flash_errors (e ∷ es) r = flash_errors es (flash e.name (failure e.error) flash_error r)

-- Every destination gets the context; `WaitGroup` waits for all of them, and their errors are only
-- logged.
unfoldable pub send_notifications : List Destination → NotifyContext → Serving → Serving
send_notifications ds rc s = record s { dispatched = s.dispatched ++ map (λ d. (d, rc)) ds }

module _ (p : Platform) (fr : FormConfig) (ds : List Destination) where
  -- The location of the client: that of its session, or the server's.
  unfoldable pub location : Text → Text
  location tz =
      let name : Text = elim (p.query_unescape tz) [ none ↦ tz | some v ↦ v ] in
      elim (p.externals.load_location name) [ none ↦ codes "Local" | some loc ↦ loc ]

  abbrev pub result_context : Dict Stored → Option Error → ResultContext
  result_context result e = record { form = fr.definition; result = result; error = e }

  -- What follows a call of `Storage.Store`.
  unfoldable pub finish : Dict Stored × Option Error → Serving → Serving
  finish (result, some e) s = record s {
    request = render p.execute 500 fr.view_fail (
        set_state (codes "Result") (a_result (result_context result (some e)))
          (error (plain (codes "failed to store data")) s.request));
  }
  finish (result, none) s =
      send_notifications ds (record { form = fr.definition; result = result })
        (record s {
          request =
              render p.execute 200 fr.view_success
                (set_state (codes "Result") (a_result (result_context result none)) s.request);
        })

  unfoldable pub store_values : Dict Stored → Serving → Serving
  store_values values s = finish (fr.storage fr.definition.table values) (record s {
    request = push p.order fresh_field (codes "true") s.request;
    stores = s.stores ++ (fr.definition.table, values) ∷ [];
  })

  unfoldable pub submit_parsed : Dict Stored × List FieldError → Serving → Serving
  submit_parsed (values, errors) s =
      if nonempty errors
      then record s { request = render p.execute 422 fr.view_form (flash_errors errors s.request) }
      else store_values values s

  unfoldable pub submit_form : Serving → Serving
  submit_form s =
      let opened = open_session p.order s.request in
      let loc = location (text_at tz_field (session_of p.order s.request)) in
      let (ctx, r) = new_request_context p.order opened in
      submit_parsed (parse_form p.externals loc ctx fr.definition) (record s { request = r })
