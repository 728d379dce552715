-- ===== src/Engine/Serve/Accepted.antt =====
-- Requests that pass every check are stored.
use web_form.Prelude.{
  Text, Text-comparable, [], ◌∷◌, ◌++◌, ◌&&◌, not, true, false, List, Option, none, some, Error,
  codes, ◌≡◌, refl, arith, ◌∙◌, ◌==◌,
}
use web_form.Prelude.Dict.{Dict, delete}
use web_form.Schema.Types.{Stored, RequestContext, Credentials}
use web_form.Schema.Access.{has_code_access}
use web_form.Schema.Forms.{parse_form}
use web_form.Web.Requests.{Request, HttpRequest, is_get, is_post}
use web_form.Web.Sessions.{open_session, session_of, pop, text_at}
use web_form.Web.Guards.{verify_captcha}
use web_form.Engine.Config.{
  FormConfig, Platform, Serving, Destination, tz_field, fresh_field, access_code_field,
}
use web_form.Engine.Access.{new_request_context, validate_code, accept_code}
use web_form.Engine.Render.{pre_render}
use web_form.Engine.Submit.{
  location, finish, store_values, submit_parsed, submit_form, send_notifications,
}
use web_form.Engine.Serve.{serve, serve_code, serve_fresh, serve_submission, report}
use web_form.Engine.Serve.Guards.{pre_render-Same, pre_render-session}
use web_form.Engine.Serve.Admission.{IsAdmitted, HasCode}
use web_form.Engine.Serve.Guards.{Same-trans, validate_code-Same, verify_captcha-Same}

-- The context of a submission, from the request and its session.
abbrev pub context_of : HttpRequest → Option Credentials → Dict Text → RequestContext
context_of q creds session = record {
  headers = q.headers;
  query = q.query;
  form = q.post_form;
  code = text_at access_code_field session;
  credentials = creds;
}

module _ (p : Platform) (fr : FormConfig) (ds : List Destination) where
  pop_opened :
      (k : Text) (r : Request) (m : Dict Text)
      → r.session ≡ some m
      → pop k r ≡ (text_at k m, record r { session = some (delete k m) })
  unfolding pop
  pop_opened k r m h = rw (h, pop)

  finish-stores :
      (out : Dict Stored × Option Error) (s : Serving) → (finish p fr ds out s).stores ≡ s.stores
  unfolding finish send_notifications
  finish-stores (result, none) s = refl
  finish-stores (result, some e) s = refl

  submit_parsed-stores :
      (values : Dict Stored) (s : Serving)
      → (submit_parsed p fr ds (values, []) s).stores
        ≡ s.stores ++ (fr.definition.table, values) ∷ []
  unfolding submit_parsed store_values
  submit_parsed-stores values s = finish-stores _ _

  submit_form-stores :
      (s : Serving) (r : Request) (session : Dict Text) {values : Dict Stored}
      → parse_form p.externals
          (location p fr ds (text_at tz_field session))
          (context_of r.request r.creds session)
          fr.definition
        ≡ (values, [])
      → (submit_form p fr ds (record s { request = record r { session = some session } })).stores
        ≡ s.stores ++ (fr.definition.table, values) ∷ []
  unfolding submit_form new_request_context open_session
  submit_form-stores s r session {values} h = rw h (submit_parsed-stores values _)

  serve_fresh-stores :
      (s : Serving) (r : Request) (session : Dict Text) {values : Dict Stored}
      → is_get r.request.method ≡ false
      → verify_captcha r ≡ true
      → r.session ≡ some session
      → (text_at fresh_field session == codes "true") ≡ false
      → parse_form p.externals
          (location p fr ds (text_at tz_field (delete fresh_field session)))
          (context_of r.request r.creds (delete fresh_field session))
          fr.definition
        ≡ (values, [])
      → (serve_fresh p fr ds (record s { request = r })).stores
        ≡ s.stores ++ (fr.definition.table, values) ∷ []
  unfolding serve_fresh serve_submission verify_captcha
  serve_fresh-stores s r session no_get human opened not_fresh h =
      rw (pop_opened fresh_field r session opened, not_fresh, no_get, human)
        (submit_form-stores s r (delete fresh_field session) h)

  -- The session with which an admitted request is submitted.
  abbrev pub submitted_session : Request → Dict Text
  submitted_session r =
      delete fresh_field (session_of p.order (validate_code p.order fr.definition r).1)

  HasCode-validate_code :
      (r : Request)
      → HasCode p fr ds r
      → ((has_code_access fr.definition && not (is_post r.request.method)) ≡ false)
        × ((validate_code p.order fr.definition r).0 ≡ true)
  unfolding validate_code accept_code
  HasCode-validate_code r h = ground (arith, h)

  -- A request that passes the checks of the handler (the XSRF token if that check is on, the
  -- policy, the access code, no GET, the captchas), is no fresh start and is parsed without an
  -- error, in the time zone and with the context of its session, is stored: one row for the table
  -- of the form, with the values that ParseForm gives.
  pub serve-stores :
      (s : Serving) {values : Dict Stored}
      → IsAdmitted p fr ds s.request
      → (text_at fresh_field (session_of p.order (validate_code p.order fr.definition s.request).1)
          == codes "true")
        ≡ false
      → parse_form p.externals
          (location p fr ds (text_at tz_field (submitted_session s.request)))
          (context_of s.request.request s.request.creds (submitted_session s.request))
          fr.definition
        ≡ (values, [])
      → (serve p fr ds s).stores ≡ s.stores ++ (fr.definition.table, values) ∷ []
  unfolding serve serve_code
  serve-stores s a not_fresh h =
      let coded = (validate_code p.order fr.definition s.request).1 in
      let prepared = report (pre_render p.externals p.order fr.definition coded) in
      let same =
        Same-trans (validate_code-Same p.order fr.definition s.request)
          (pre_render-Same p.order p.externals fr.definition coded) in
      let (open', valid) = HasCode-validate_code s.request a.coded in
      rw (a.token, a.allowed, open', valid)
        (serve_fresh-stores s prepared (session_of p.order coded) (rw same.request a.no_get)
          (verify_captcha-Same same ∙ a.human)
          (pre_render-session p.order p.externals fr.definition coded) not_fresh
          (rw (same.request, same.creds) h))
