-- ===== src/Examples.antt =====
-- Concrete forms and requests, at which the theorems of the other modules are applied.
mod Parts
mod Fields
mod Requests
mod Loading
mod Stores
mod Notices
mod Startup
mod Journeys
mod Running
mod Accepting
mod Served
mod Pages
use web_form.Prelude.{
  Text, [], ◌∷◌, Bool, true, false, List, Option, none, some, Error, ok, err, codes, nonempty,
}
use web_form.Prelude.Int.{ℤ, pos, negsuc}
use web_form.Prelude.Dict.{Dict, keys}
use web_form.Schema.Types.{
  Value, Template, Choice, Field, Form, Policy, Credentials, RequestContext, string, integer,
  Webhook, Stored, one, int,
}
use web_form.Schema.Templates.{Externals}
use web_form.Web.Requests.{HttpRequest, Method, post, put, get, Request, Captcha}
use web_form.Web.Sessions.{Order}
use web_form.Engine.Config.{FormConfig, Platform, Serving, Destination, to_webhook}

-- A template engine that writes the source of a template, and knows no time zone.
abbrev pub plain : Externals
plain = record {
  parse_template = λ t. none;
  execute_request = λ t rc. ok t;
  execute_notify = λ t nc. ok t;
  match_string = λ p v. nonempty v;
  parse_float = λ t. ok 0;
  load_location = λ t. none;
}

abbrev pub blank : Template
blank = record { valid = false; value = [] }

abbrev pub age : Field
age = record {
  name = codes "age";
  label = [];
  description = [];
  required = true;
  disabled = false;
  hidden = false;
  default = blank;
  type = integer;
  pattern = [];
  options = [];
  multiple = false;
  multiline = false;
  icon = [];
}

abbrev pub color : Field
color = record age {
  name = codes "color";
  hidden = true;
  required = false;
  default = record { valid = true; value = codes "red" };
  type = string;
  pattern = codes ".+";
}

-- A policy that asks for the group of the staff.
abbrev pub staff_only : Policy
staff_only = record { eval = λ user email groups. ok (some (nonempty groups)) }

abbrev pub alice : Credentials
alice = record { user = codes "alice"; groups = codes "staff" ∷ []; email = [] }

abbrev pub survey : Form
survey = record {
  name = codes "survey";
  table = codes "answers";
  title = [];
  description = blank;
  fields = age ∷ color ∷ [];
  webhooks = [];
  amqp = [];
  success = blank;
  failed = blank;
  policy = some staff_only;
  codes = [];
}

abbrev pub secret_survey : Form
secret_survey = record survey { name = codes "secret"; codes = codes "k1" ∷ codes "k2" ∷ [] }

abbrev pub any_order : Order
any_order = λ form. keys form

abbrev pub post_survey : HttpRequest
post_survey = record {
  method = post;
  path = codes "/forms/survey";
  remote_addr = codes "10.0.0.1";
  forwarded_for = [];
  headers = [];
  query = [];
  post_form =
      (codes "age", codes "42" ∷ [])
      ∷ (codes "_xsrf", codes "t0" ∷ [])
      ∷ (codes "__accessCode", codes "k2" ∷ [])
      ∷ [];
  xsrf_cookie = some (codes "t0");
  multipart = false;
  creds = some alice;
}

-- A captcha that wants a field of the body.
abbrev pub wants_body : Captcha
wants_body = record { embed = []; validate = λ r. nonempty r.post_form }

abbrev pub request : Request
request = record {
  messages = [];
  xsrf = [];
  request = post_survey;
  state = [];
  session = none;
  creds = some alice;
  captchas = wants_body ∷ [];
  written = [];
}

abbrev pub context : RequestContext
context = record {
  headers = [];
  query = [];
  form = post_survey.post_form;
  code = codes "k2";
  credentials = some alice;
}

abbrev pub stored_values : Dict Stored
stored_values =
    (codes "age", one (int (pos 42))) ∷ (codes "color", one (Value.text (codes "red"))) ∷ []

abbrev pub config : FormConfig
config = record {
  definition = survey;
  view_form = [];
  view_success = [];
  view_fail = [];
  view_code = [];
  view_forbidden = [];
  storage = λ table fields. (fields, none);
  webhooks_factory = none;
  amqp_factory = none;
  xsrf = true;
  captcha = wants_body ∷ [];
}

abbrev pub platform : Platform
platform = record {
  externals = plain;
  execute = λ view r. ok [];
  order = any_order;
  query_unescape = λ t. some t;
}

abbrev pub hook : Webhook
hook = record {
  url = codes "http://hooks";
  method = codes "POST";
  retry = pos 1;
  timeout = pos 1;
  interval = pos 1;
  headers = none;
  message = blank;
}

abbrev pub hooks : List Destination
hooks = to_webhook hook ∷ []

abbrev pub serving : Serving
serving = record { request = request; stores = []; dispatched = [] }
