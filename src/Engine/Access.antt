-- ===== src/Engine/Access.antt =====
-- internal/engine/form.go: `validateCode` and `newRequestContext`.
pub mod Laws
use web_form.Prelude.{
  Text, Text-comparable, [], ◌∷◌, ◌++◌, not, if◌then◌else◌, Bool, true, false, List, Option, none,
  some, codes, is_empty,
}
use web_form.Prelude.Dict.{Dict, lookup, insert}
use web_form.Utils.Sets.{has}
use web_form.Schema.Types.{Form, RequestContext}
use web_form.Schema.Access.{has_code_access}
use web_form.Web.Requests.{Request, StateValue, a_text, is_post, set_state}
use web_form.Web.Sessions.{Order, open_session, session_of, push, text_at, get_value}
use web_form.Engine.Config.{access_code_field, fresh_field}

module _ (order : Order) where
  -- The context, and the request with its session open.
  unfoldable pub new_request_context : Request → RequestContext × Request
  new_request_context r = (
    record {
      headers = r.request.headers;
      query = r.request.query;
      form = r.request.post_form;
      code = text_at access_code_field (session_of order r);
      credentials = r.creds;
    },
    open_session order r,
  )

  -- The code of the session, or else of the form; the latter also marks the session as fresh.
  unfoldable pub find_code : Request → Text × Request
  find_code r =
      let code = text_at access_code_field (session_of order r) in
      if is_empty code
      then (
        get_value access_code_field r.request.post_form,
        push order fresh_field (codes "true") (open_session order r),
      )
      else (code, open_session order r)

  -- What `validateCode` does with the code found.
  unfoldable pub accept_code : Form → Text × Request → Bool × Request
  accept_code form (code, r) =
      if has form.codes (code ∷ [])
      then (true, set_state (codes "code") (a_text code) (push order access_code_field code r))
      else (false, r)

  unfoldable pub validate_code : Form → Request → Bool × Request
  unfolding find_code accept_code
  validate_code form r =
      if not (has_code_access form)
      then (true, r)
      else if not (is_post r.request.method)
      then (false, r)
      else accept_code form (find_code r)
