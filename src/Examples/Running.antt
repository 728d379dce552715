-- ===== src/Examples/Running.antt =====
-- A run of the program and a request to it, at concrete values.
use mathlib.Core.List.{Memᴰ}
use web_form.Prelude.{
  Text, Text-comparable, text_eq, [], ◌∷◌, ◌&&◌, true, false, List, Option, none, some, ok, err,
  new, codes, ◌≡◌, ◌≢◌, refl, map, All,
}
use web_form.Prelude.Dict.{Dict, lookup, insert, delete, keys}
use web_form.Golang.Strings.{cut_prefix, is_space, trim_left, trim_space}
use web_form.Golang.Strconv.{parse_int, parse_uint, scan_uint}
use web_form.Utils.Sets.{put, uniq, uniq_from}
use web_form.Schema.Types.{Stored}
use web_form.Schema.Access.{is_allowed, has_code_access}
use web_form.Schema.Templates.{request_string, request_bytes}
use web_form.Schema.Fields.{check_value, parse_as, parse_field, parse_values, parse_values_from}
use web_form.Schema.Forms.{
  check_options, check_required, checkbox_values, input_values, parse_fields, parse_form,
  process_field,
}
use web_form.Web.Requests.{HttpRequest, set_state}
use web_form.Web.Sessions.{pop, open_session, push, parse_session, session_loop, session_key}
use web_form.Web.Guards.{verify_xsrf, check_xsrf, form_values, captcha_loop, verify_captcha}
use web_form.Web.Pages.{render}
use web_form.Engine.Access.{validate_code, new_request_context}
use web_form.Engine.Render.{pre_render, defaults_loop, field_default}
use web_form.Engine.Submit.{
  location, finish, send_notifications, store_values, submit_form, submit_parsed,
}
use web_form.Engine.Serve.{serve, serve_code, serve_fresh, serve_submission}
use web_form.Engine.Config.{FormConfig}
use web_form.Engine.Server.{Mounted}
use web_form.Storage.Databases.{Drivers, LiteDb}
use web_form.Storage.Queries.{pg_query}
use web_form.Storage.Queries.Laws.{statement, dollars}
use web_form.Storage.Files.{
  with_id, file_store, write_document, copy_loop, atomic_write, write_step, close_step, rename_step,
}
use web_form.Program.Users.{Token}
use web_form.Program.Login.{in_memory, passed}
use web_form.Program.Startup.{Backends, new_file_store}
use web_form.Program.Router.{Routing, Login, Handler, form_pages, form_page}
use web_form.Program.Storing.{IsColumn, serve-statement, serve_dispatches-document}
use web_form.Program.Running.{Host, run, read_forms}
use web_form.Program.Running.Events.{is_open, sessions, storage, listener}
use web_form.Program.Running.Closing.{is_abandoned, is_logged, is_done, created, run-open}
use web_form.Program.Running.Prepared.{is_readable, run-listens}
use web_form.Examples.{plain, survey, platform, config, hooks, serving, post_survey}
use web_form.Examples.Requests.{stored}
use web_form.Examples.Stores.{system, target_apart}
use web_form.Examples.Startup.{takes_once, service, settings, walked}

abbrev pub token : Token
token = record {
  subject = codes "u1";
  username = codes "alice";
  email = [];
  groups = codes "staff" ∷ [];
}

abbrev pub login : Login
login = record {
  prefix = codes "/oauth2";
  sessions = in_memory;
  loads = λ http. true;
  secure = λ http. passed (some token);
}

-- The first form gets every request.
abbrev pub first_page : List Mounted → Option Handler
first_page [] = none
first_page (m ∷ ms) = some (form_page m)

abbrev pub routing : Routing
routing = record {
  find_mount = λ mounts http. some form_pages;
  find_handler = λ mux http. first_page mux.mounted;
}

pub first_page-Memᴰ :
    (ms : List Mounted) (m : Mounted) → first_page ms ≡ some (form_page m) → Memᴰ m ms
first_page-Memᴰ [] m e = cc
first_page-Memᴰ (n ∷ ms) m e = Memᴰ.head cc

abbrev pub anonymous_post : HttpRequest
anonymous_post = record post_survey { creds = none }

abbrev lite : LiteDb
lite = record {
  query = λ q. ok [];
  exec = λ q. none;
  connection = codes "file://form.sqlite";
  close = none;
}

-- A database whose migrations fail.
abbrev drivers : Drivers
drivers = record {
  new_pool = λ url. err (new (codes "no pool"));
  open_db = λ url. ok lite;
  migrate_up = λ connection dialect dir. some (new (codes "syntax error"));
  order = λ values. keys values;
  sprint = λ v. [];
}

abbrev pub backends : Backends
backends = record {
  drivers = drivers;
  files = system;
  disk = [];
  encode = λ table fields. none;
  walk = λ dir. walked;
}

abbrev pub host : Host Text
host = record {
  externals = plain;
  walk_configs = λ dir. [];
  open_file = λ dir file. ok [];
  default_form = survey;
  views = record { root = []; read_file = λ file. ok file; parse = λ root source. ok source };
  login_prefix = codes "/oauth2";
  loads = λ place http. true;
  new_oidc = λ c. ok login.secure;
  backends = backends;
  service = service;
  takes = takes_once;
  webhooks_limit = 1000;
  broker_limit = 1000;
  listen_and_serve = λ server. none;
  listen_and_serve_tls = λ server cert key. none;
  is_server_closed = λ e. false;
  close_server = none;
}

run-open_example :
    (is_open sessions false (run host settings).events ≡ false)
    × (is_open storage false (run host settings).events ≡ (
        is_logged host settings
        && is_done (read_forms host settings)
        && is_abandoned (created host settings)))
run-open_example = run-open host settings

run-listens_example :
    is_open listener false (run host settings).events
    ≡ (is_logged host settings && is_readable host settings (read_forms host settings))
run-listens_example = run-listens host settings

serve-statement_example :
    (values : Dict Stored) × ((serve platform config hooks serving).stores
      ≡ (codes "answers", values) ∷ [])
    × All (IsColumn survey) (keys values)
    × ((pg_query (codes "answers") (keys values) values).sql
        ≡ statement (codes "answers") (keys values) (dollars 0 (keys values)))
    × ((pg_query (codes "answers") (keys values) values).params
        ≡ map (λ k. lookup k values) (keys values))
serve-statement_example =
    serve-statement platform config hooks serving (λ values. keys values) (λ m k. refl) stored

-- The form of the survey, with its submissions in files.
abbrev filed : FormConfig
filed = record config { storage = new_file_store backends (codes "r") }

filed_sent : (serve platform filed hooks serving).dispatched ≢ serving.dispatched
unfolding serve verify_xsrf check_xsrf form_values text_eq lookup is_allowed has_code_access
    serve_code validate_code serve_fresh pop pre_render request_string request_bytes defaults_loop
    field_default new_request_context open_session set_state serve_submission finish
    send_notifications store_values submit_form submit_parsed parse_int parse_uint scan_uint
    cut_prefix is_space trim_left trim_space delete insert check_value parse_as parse_field
    parse_values parse_values_from check_options check_required checkbox_values input_values
    parse_fields parse_form process_field put uniq uniq_from captcha_loop verify_captcha render
    parse_session push session_key session_loop location new_file_store file_store write_document
    copy_loop atomic_write write_step close_step rename_step
filed_sent e = cc e

serve_dispatches-document_example :
    (values : Dict Stored) × ((serve platform filed hooks serving).stores
      ≡ (codes "answers", values) ∷ [])
    × ((document : Text) × (system.marshal (with_id (keys values) values (codes "1")) ≡ ok document)
        × (lookup
              (codes "r/1.json")
              (file_store system (codes "r") (codes "answers") (keys values) values []).1.last
            ≡ some document)
        × ((serve platform filed hooks serving).dispatched
            ≡ map
                (λ d.
                  (d, record { form = survey; result = with_id (keys values) values (codes "1") }))
                hooks))
serve_dispatches-document_example =
    serve_dispatches-document platform filed hooks serving backends (codes "r") (codes "1")
      (codes "r/1.json.tmp.7") refl refl refl target_apart filed_sent
