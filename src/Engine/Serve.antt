-- ===== src/Engine/Serve.antt =====
-- internal/engine/form.go: `Serve`, the checks of a request in their order, and `NewForm`.
pub mod Guards
pub mod Submissions
pub mod Answers
pub mod Admission
pub mod Stored
pub mod Accepted
pub mod Methods
pub mod Codes
use web_form.Prelude.{
  Text, Text-comparable, [], ◌∷◌, ◌++◌, ◌&&◌, ◌||◌, not, if◌then◌else◌, Bool, true, false, List,
  Option, none, some, Error, errorf, codes, ◌==◌,
}
use web_form.Schema.Types.{Form}
use web_form.Schema.Access.{is_allowed, has_code_access}
use web_form.Web.Requests.{
  HttpRequest, Request, new_request, with_captcha, set_state, a_form, error, plain, about, is_post,
  is_get,
}
use web_form.Web.Sessions.{pop}
use web_form.Web.Guards.{verify_xsrf, verify_captcha}
use web_form.Web.Pages.{View, render}
use web_form.Engine.Config.{FormConfig, Platform, Serving, Destination, fresh_field, FormHandler}
use web_form.Engine.Access.{validate_code}
use web_form.Engine.Render.{pre_render}
use web_form.Engine.Submit.{submit_form}

-- An error of the defaults is shown on the page.
abbrev pub report : Request × Option Error → Request
report (r, none) = r
report (r, some e) = error (about (codes "render defaults ") e) r

module _ (p : Platform) (fr : FormConfig) (ds : List Destination) where
  -- The check of the captchas, and the submission.
  unfoldable pub serve_submission : Serving → Serving
  serve_submission s =
      if not (verify_captcha s.request)
      then record s {
        request =
            render p.execute 400 fr.view_form (error (plain (codes "invalid captcha")) s.request);
      }
      else submit_form p fr ds s

  -- A fresh start, or a GET, shows the page.
  unfoldable pub serve_fresh : Serving → Serving
  serve_fresh s =
      let (fresh, r) = pop fresh_field s.request in
      if fresh == codes "true" || is_get r.request.method
      then record s { request = render p.execute 200 fr.view_form r }
      else serve_submission (record s { request = r })

  unfoldable pub serve_code : Serving → Serving
  serve_code s =
      let (valid, r) = validate_code p.order fr.definition s.request in
      if not valid
      then record s {
        request = render p.execute 401 fr.view_code (error (plain (codes "invalid code")) r);
      }
      else serve_fresh
          (record s { request = report (pre_render p.externals p.order fr.definition r) })

  unfoldable pub serve : Serving → Serving
  serve s =
      if fr.xsrf && not (verify_xsrf s.request)
      then record s {
        request =
            render p.execute 403 fr.view_forbidden
              (error (plain (codes "XSRF validation failed")) s.request);
      }
      else if not (is_allowed fr.definition s.request.creds)
      then record s { request = render p.execute 403 fr.view_forbidden s.request }
      else if has_code_access fr.definition && not (is_post s.request.request.method)
      then record s { request = render p.execute 401 fr.view_code s.request }
      else serve_code s

-- The handler that `NewForm` returns, on one request.
unfoldable pub handle_form : Platform → FormHandler → HttpRequest → Serving
unfolding serve
handle_form p h http = serve p h.config h.made (record {
  request =
      set_state (codes "Form") (a_form h.config.definition)
        (with_captcha h.config.captcha (new_request http));
  stores = [];
  dispatched = [];
})
