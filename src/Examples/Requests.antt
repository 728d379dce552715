-- ===== src/Examples/Requests.antt =====
-- A request that is served, at concrete values.
use web_form.Prelude.{
  Text, Text-comparable, text_eq, [], ◌∷◌, true, false, none, codes, ◌≡◌, ◌≢◌, refl, map, ◌==◌,
}
use web_form.Prelude.Dict.{Dict, lookup, insert, delete}
use web_form.Golang.Strings.{cut_prefix, is_space, trim_left, trim_space}
use web_form.Utils.Sets.{put, uniq, uniq_from}
use web_form.Schema.Types.{Stored, RequestContext}
use web_form.Schema.Access.{is_allowed, has_code_access}
use web_form.Schema.Forms.{
  check_options, check_required, checkbox_values, input_values, parse_fields, parse_form,
  process_field,
}
use web_form.Web.Requests.{Request, Method, set_state}
use web_form.Web.Sessions.{
  pop, open_session, push, parse_session, session_loop, session_key, session_of, text_at,
}
use web_form.Engine.Config.{Serving, fresh_field, tz_field}
use web_form.Engine.Submit.{
  location, finish, send_notifications, store_values, submit_form, submit_parsed,
}
use web_form.Engine.Serve.{serve, serve_code, serve_fresh, serve_submission}
use web_form.Engine.Serve.Submissions.{IsParsed}
use web_form.Engine.Serve.Admission.{IsAdmitted, serve_stores, serve_dispatches}
use web_form.Engine.Serve.Stored.{Conforms, serve_stores-Conforms}
use web_form.Engine.Serve.Answers.{Answered, serve-Answered}
use web_form.Engine.Serve.Accepted.{context_of, submitted_session, serve-stores}
use web_form.Engine.Serve.Methods.{serve_unprotected}
use web_form.Web.Guards.{verify_xsrf, check_xsrf, form_values, captcha_loop, verify_captcha}
use web_form.Golang.Strconv.{parse_int, parse_uint, scan_uint}
use web_form.Engine.Access.{validate_code, new_request_context}
use web_form.Engine.Render.{pre_render, defaults_loop, field_default}
use web_form.Schema.Templates.{request_string, request_bytes}
use web_form.Schema.Fields.{check_value, parse_as, parse_field, parse_values, parse_values_from}
use web_form.Web.Pages.{render}
use web_form.Examples.{platform, config, hooks, serving, request, post_survey, stored_values}

serve-Answered_example : Answered request (serve platform config hooks serving).request
serve-Answered_example = serve-Answered platform config hooks serving

stored_once : (serve platform config hooks serving).stores ≡ (codes "answers", stored_values) ∷ []
unfolding serve verify_xsrf check_xsrf form_values text_eq lookup is_allowed has_code_access
    serve_code validate_code serve_fresh pop pre_render request_string request_bytes defaults_loop
    field_default new_request_context open_session set_state serve_submission finish
    send_notifications store_values submit_form submit_parsed parse_int parse_uint scan_uint
    cut_prefix is_space trim_left trim_space delete insert check_value parse_as parse_field
    parse_values parse_values_from check_options check_required checkbox_values input_values
    parse_fields parse_form process_field put uniq uniq_from captcha_loop verify_captcha render
    parse_session push session_key session_loop location
stored_once = refl

pub stored : (serve platform config hooks serving).stores ≢ serving.stores
stored e = cc (stored_once, e)

serve_stores_example :
    IsAdmitted platform config hooks request
    × ((values : Dict Stored) × IsParsed platform config hooks request values
        × ((serve platform config hooks serving).stores ≡ (codes "answers", values) ∷ []))
serve_stores_example = serve_stores platform config hooks serving stored

pub sent_once : (serve platform config hooks serving).dispatched ≢ serving.dispatched
unfolding serve verify_xsrf check_xsrf form_values text_eq lookup is_allowed has_code_access
    serve_code validate_code serve_fresh pop pre_render request_string request_bytes defaults_loop
    field_default new_request_context open_session set_state serve_submission finish
    send_notifications store_values submit_form submit_parsed parse_int parse_uint scan_uint
    cut_prefix is_space trim_left trim_space delete insert check_value parse_as parse_field
    parse_values parse_values_from check_options check_required checkbox_values input_values
    parse_fields parse_form process_field put uniq uniq_from captcha_loop verify_captcha render
    parse_session push session_key session_loop location
sent_once e = cc e

serve_dispatches_example :
    (values : Dict Stored) × ((serve platform config hooks serving).stores
      ≡ (codes "answers", values) ∷ [])
    × ((config.storage (codes "answers") values).1 ≡ none)
    × ((serve platform config hooks serving).dispatched
        ≡ map
            (λ d. (
              d,
              record {
                form = config.definition;
                result = (config.storage (codes "answers") values).0;
              },
            ))
            hooks)
serve_dispatches_example = serve_dispatches platform config hooks serving sent_once

-- A PUT without a cookie for a captcha that accepts nothing.
abbrev put_request : Request
put_request = record request {
  request = record post_survey { method = Method.put; xsrf_cookie = none };
  captchas = record { embed = []; validate = λ r. false } ∷ [];
}

abbrev put_serving : Serving
put_serving = record { request = put_request; stores = []; dispatched = [] }

put_allowed : is_allowed config.definition put_request.creds ≡ true
unfolding is_allowed
put_allowed = refl

put_open : has_code_access config.definition ≡ false
unfolding has_code_access
put_open = refl

put_not_fresh :
    (text_at fresh_field (session_of platform.order put_request) == codes "true") ≡ false
unfolding lookup insert parse_session session_loop session_key text_eq cut_prefix
put_not_fresh = refl

put_parses :
    parse_form platform.externals
      (location platform config hooks
        (text_at tz_field (delete fresh_field (session_of platform.order put_request))))
      (context_of put_request.request put_request.creds
        (delete fresh_field (session_of platform.order put_request)))
      config.definition
    ≡ (stored_values, [])
unfolding serve verify_xsrf check_xsrf form_values text_eq lookup is_allowed has_code_access
    serve_code validate_code serve_fresh pop pre_render request_string request_bytes defaults_loop
    field_default new_request_context open_session set_state serve_submission finish
    send_notifications store_values submit_form submit_parsed parse_int parse_uint scan_uint
    cut_prefix is_space trim_left trim_space delete insert check_value parse_as parse_field
    parse_values parse_values_from check_options check_required checkbox_values input_values
    parse_fields parse_form process_field put uniq uniq_from captcha_loop verify_captcha render
    parse_session push session_key session_loop location
put_parses = refl

serve_unprotected_example :
    (serve platform config hooks put_serving).stores ≡ (codes "answers", stored_values) ∷ []
serve_unprotected_example =
    serve_unprotected platform config hooks put_serving refl refl put_allowed put_open put_not_fresh
      put_parses

serve_stores-Conforms_example :
    (values : Dict Stored) × ((serve platform config hooks serving).stores
      ≡ (codes "answers", values) ∷ [])
    × ((loc : Text) × ((ctx : RequestContext) × (ctx.form ≡ post_survey.post_form)
          × (ctx.credentials ≡ request.creds)
          × Conforms platform.externals config.definition loc ctx values))
serve_stores-Conforms_example = serve_stores-Conforms platform config hooks serving stored

post_not_fresh :
    (text_at fresh_field (
        session_of platform.order
          (validate_code platform.order config.definition serving.request).1)
      == codes "true")
    ≡ false
unfolding lookup insert parse_session session_loop session_key text_eq cut_prefix validate_code
    has_code_access
post_not_fresh = refl

post_parses :
    parse_form platform.externals
      (location platform config hooks
        (text_at tz_field (submitted_session platform config hooks request)))
      (context_of post_survey request.creds (submitted_session platform config hooks request))
      config.definition
    ≡ (stored_values, [])
unfolding serve verify_xsrf check_xsrf form_values text_eq lookup is_allowed has_code_access
    serve_code validate_code serve_fresh pop pre_render request_string request_bytes defaults_loop
    field_default new_request_context open_session set_state serve_submission finish
    send_notifications store_values submit_form submit_parsed parse_int parse_uint scan_uint
    cut_prefix is_space trim_left trim_space delete insert check_value parse_as parse_field
    parse_values parse_values_from check_options check_required checkbox_values input_values
    parse_fields parse_form process_field put uniq uniq_from captcha_loop verify_captcha render
    parse_session push session_key session_loop location
post_parses = refl

post-IsAdmitted : IsAdmitted platform config hooks request
post-IsAdmitted = let (a, _) = serve_stores platform config hooks serving stored in a

serve-stores_example :
    (serve platform config hooks serving).stores ≡ (codes "answers", stored_values) ∷ []
serve-stores_example =
    serve-stores platform config hooks serving post-IsAdmitted post_not_fresh post_parses
