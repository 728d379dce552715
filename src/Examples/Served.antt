-- ===== src/Examples/Served.antt =====
-- A run of the program that serves a submission, at concrete values.
use mathlib.Core.List.{Memᴰ}
use web_form.Prelude.{
  Text, Text-comparable, text_eq, [], ◌∷◌, false, List, Option, none, some, ◌↔◌, ok, codes, ◌≡◌,
  ◌≢◌, refl, map,
}
use web_form.Prelude.Dict.{lookup, insert, delete}
use web_form.Golang.Strings.{cut_prefix, is_space, trim_left, trim_space, to_lower}
use web_form.Golang.Strconv.{parse_int, parse_uint, scan_uint}
use web_form.Golang.Paths.{ext, ext_loop}
use web_form.Utils.Sets.{has, new_set, put, uniq, uniq_from}
use web_form.Schema.Types.{Form}
use web_form.Schema.Access.{is_allowed, has_code_access}
use web_form.Schema.Templates.{request_string, request_bytes}
use web_form.Schema.Fields.{check_value, parse_as, parse_field, parse_values, parse_values_from}
use web_form.Schema.Forms.{
  check_options, check_required, checkbox_values, input_values, parse_fields, parse_form,
  process_field,
}
use web_form.Schema.Loader.{
  stream_loop, forms_from_stream, stem, fill_names, forms_from_file, visit, walk, forms_from_fs,
}
use web_form.Web.Requests.{HttpRequest, with_credentials, set_state, with_captcha, new_request}
use web_form.Web.Sessions.{pop, open_session, push, parse_session, session_loop, session_key}
use web_form.Web.Guards.{
  verify_xsrf, check_xsrf, form_values, captcha_loop, verify_captcha, get_client_ip,
}
use web_form.Web.Pages.{render}
use web_form.Engine.Access.{validate_code, new_request_context}
use web_form.Engine.Render.{pre_render, defaults_loop, field_default}
use web_form.Engine.Submit.{
  location, finish, send_notifications, store_values, submit_form, submit_parsed,
}
use web_form.Engine.Serve.{serve, serve_code, serve_fresh, serve_submission, handle_form}
use web_form.Engine.Config.{new_form, apply_options, with_xsrf, destinations, create_all}
use web_form.Engine.Server.{Mux, Mounted, form_config, mount_loop, new_mux}
use web_form.Engine.Server.Views.{parse_loop, base_parse, must_parse, parse_overlays, parse_views}
use web_form.Notifications.Webhooks as Webhooks
use web_form.Notifications.Broker as Broker
use web_form.Storage.Files.{nop_closer, file_store}
use web_form.Program.Settings.{Settings}
use web_form.Program.Users.{Token, first_of, credentials_from_request}
use web_form.Program.Login.{in_redis, create_auth}
use web_form.Program.Turnstile.{turnstile, validate, form_fields}
use web_form.Program.Startup.{new_file_store, captchas, engine_config, create_storage}
use web_form.Program.Runs.{started, listen}
use web_form.Program.Router.{
  Server, Login, handle, handle_group, handle_secure, handle_user, handle_engine, new_router,
  form_page, stored_by,
}
use web_form.Program.Router.Passage.{IsLetIn}
use web_form.Program.Router.Safety.{Passed}
use web_form.Program.Running.{
  Host, main, serve_task, server_of, run, run_logged, run_stored, run_tasks, start_workers,
  login_for, read_forms, engine_for,
}
use web_form.Program.Running.Exit.{main_iff}
use web_form.Program.Running.Served.{IsLoginOf, run_stores}
use web_form.Examples.{plain, survey, secret_survey, platform, stored_values}
use web_form.Examples.Startup.{quiet_mount, service, settings}
use web_form.Examples.Running.{login, routing, anonymous_post, host, backends, first_page-Memᴰ}

-- The forms of one file, whose submissions are stored in files.
abbrev filing : Settings
filing = record settings { storage = codes "files" }

abbrev forms : List Form
forms = survey ∷ secret_survey ∷ []

abbrev serving_host : Host Text
serving_host = record host {
  walk_configs = λ dir. record { path = codes "poll.yaml"; is_dir = false; error = none } ∷ [];
  open_file = λ dir file. ok ((λ f. ok survey) ∷ (λ f. ok secret_survey) ∷ []);
}

abbrev logged_in : Login
logged_in = record login { sessions = in_redis (codes "redis://cache") }

abbrev mux : Mux
mux = record {
  mounted =
      map
        (quiet_mount (
          engine_config service filing forms (new_file_store backends (codes "results"))
            (Webhooks.create plain) (Broker.create plain)))
        forms;
  listed = some forms;
}

abbrev server : Server
server = server_of filing (new_router filing (some logged_in) mux)

begun : Memᴰ (started (listen server)) (run serving_host filing).events
unfolding run run_logged run_stored run_tasks start_workers login_for read_forms engine_for
    forms_from_fs create_storage new_mux parse_views engine_config with_xsrf new_router create_auth
    text_eq captchas turnstile stream_loop forms_from_stream stem fill_names forms_from_file visit
    walk ext ext_loop parse_loop base_parse must_parse parse_overlays form_config mount_loop
    apply_options to_lower has new_set nop_closer Webhooks.create Broker.create new_form
    destinations create_all
begun =
    Memᴰ.tail
      (Memᴰ.tail (Memᴰ.tail (Memᴰ.tail (Memᴰ.tail (Memᴰ.tail (Memᴰ.tail (Memᴰ.head refl)))))))

found :
    (m : Mounted) (q : HttpRequest)
    → routing.find_handler server.handler.forms q ≡ some (form_page m)
    → Memᴰ m server.handler.forms.mounted
unfolding new_router
found m q = first_page-Memᴰ mux.mounted m

run_stored_once :
    stored_by (handle platform routing server.handler anonymous_post).1
    ≡ (codes "answers", stored_values) ∷ []
unfolding serve verify_xsrf check_xsrf form_values text_eq lookup is_allowed has_code_access
    serve_code validate_code serve_fresh pop pre_render request_string request_bytes defaults_loop
    field_default new_request_context open_session set_state serve_submission finish
    send_notifications store_values submit_form submit_parsed parse_int parse_uint scan_uint
    cut_prefix is_space trim_left trim_space delete insert check_value parse_as parse_field
    parse_values parse_values_from check_options check_required checkbox_values input_values
    parse_fields parse_form process_field put uniq uniq_from captcha_loop verify_captcha render
    parse_session push session_key session_loop location handle new_router handle_group
    handle_secure handle_user handle_engine handle_form apply_options engine_config form_config
    with_xsrf captchas turnstile validate form_fields credentials_from_request first_of
    with_credentials get_client_ip destinations create_all with_captcha new_request new_file_store
    file_store
run_stored_once = refl

run_stored_some : stored_by (handle platform routing server.handler anonymous_post).1 ≢ []
run_stored_some e = cc (run_stored_once, e)

run_stores_example :
    (fs : List Form) × (read_forms serving_host filing ≡ ok fs)
    × ((l : Option Login) × IsLoginOf serving_host filing l
        × ((t : Option Token) × IsLetIn l anonymous_post t
            × ((form : Form) × Memᴰ form fs
                × Passed platform service filing form
                    (with_credentials (credentials_from_request t) anonymous_post)
                    (stored_by (handle platform routing server.handler anonymous_post).1))))
run_stores_example =
    run_stores serving_host filing platform routing server anonymous_post begun found
      run_stored_some

main_iff_example : (main serving_host (ok filing) ≡ some 0) ↔ (
    (cfg : Settings) × (ok filing ≡ ok cfg)
    × ((s : Server) × Memᴰ (started (listen s)) (run serving_host cfg).events
        × (serve_task serving_host cfg s ≡ none)
        × (serving_host.close_server ≡ none)))
main_iff_example = main_iff serving_host (ok filing)
