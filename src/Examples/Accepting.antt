-- ===== src/Examples/Accepting.antt =====
-- A submission that the program accepts, at concrete values.
use web_form.Prelude.{Text-comparable, text_eq, [], ◌∷◌, some, codes, ◌≡◌, refl, inl}
use web_form.Prelude.Dict.{lookup, insert, delete}
use web_form.Golang.Strings.{cut_prefix, is_space, trim_left, trim_space}
use web_form.Golang.Strconv.{parse_int, parse_uint, scan_uint}
use web_form.Utils.Sets.{put, uniq, uniq_from}
use web_form.Schema.Access.{is_allowed, has_code_access}
use web_form.Schema.Templates.{request_string, request_bytes}
use web_form.Schema.Fields.{check_value, parse_as, parse_field, parse_values, parse_values_from}
use web_form.Schema.Forms.{
  check_options, check_required, checkbox_values, input_values, parse_fields, parse_form,
  process_field,
}
use web_form.Web.Requests.{HttpRequest, with_credentials, set_state, with_captcha, new_request}
use web_form.Web.Sessions.{pop, open_session, push, parse_session, session_loop, session_key}
use web_form.Web.Guards.{check_xsrf, form_values, captcha_loop, get_client_ip}
use web_form.Engine.Access.{validate_code, new_request_context}
use web_form.Engine.Submit.{location}
use web_form.Engine.Config.{new_form, apply_options, with_xsrf, destinations, create_all}
use web_form.Engine.Server.{Mounted, form_config}
use web_form.Program.Users.{first_of, credentials_from_request}
use web_form.Program.Turnstile.{turnstile, validate, form_fields}
use web_form.Program.Startup.{captchas, engine_config}
use web_form.Program.Router.{handle, new_router, stored_by}
use web_form.Program.Router.Accepting.{Acceptable, program_serves}
use web_form.Examples.{survey, secret_survey, platform, config, stored_values}
use web_form.Examples.Startup.{
  quiet_mount, program_config, service, settings, keep_hook, keep_broker, program_mux,
}
use web_form.Examples.Running.{token, login, routing, anonymous_post}

abbrev survey_mount : Mounted
survey_mount = quiet_mount program_config survey

abbrev posted : HttpRequest
posted = with_credentials (credentials_from_request (some token)) anonymous_post

accepted : Acceptable platform survey_mount.1.config [] posted stored_values
unfolding check_xsrf form_values text_eq lookup is_allowed has_code_access validate_code pop
    request_string request_bytes new_request_context open_session set_state parse_int parse_uint
    scan_uint cut_prefix is_space trim_left trim_space delete insert check_value parse_as
    parse_field parse_values parse_values_from check_options check_required checkbox_values
    input_values parse_fields parse_form process_field put uniq uniq_from captcha_loop parse_session
    push session_key session_loop location apply_options engine_config form_config with_xsrf
    captchas turnstile validate form_fields credentials_from_request first_of with_credentials
    get_client_ip destinations create_all with_captcha new_request
accepted = record {
  posted = refl;
  allowed = refl;
  token = refl;
  human = refl;
  coded = inl refl;
  not_fresh = refl;
  parsed = refl;
}

program_serves_example :
    stored_by
      (handle platform routing (new_router settings (some login) program_mux) anonymous_post).1
    ≡ (codes "answers", stored_values) ∷ []
unfolding new_form destinations create_all new_router engine_config form_config apply_options
    with_xsrf
program_serves_example =
    program_serves platform routing service settings (survey ∷ secret_survey ∷ []) config.storage
      keep_hook keep_broker (some login) program_mux anonymous_post (some token) survey survey_mount
      refl refl refl refl refl accepted
