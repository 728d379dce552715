-- ===== src/Engine/Serve/Guards.antt =====
-- What the steps before the submission leave alone.
use web_form.Prelude.{Text, Text-comparable, [], ◌∷◌, List, some, ◌≡◌, arith}
use web_form.Schema.Types.{Form}
use web_form.Schema.Templates.{Externals}
use web_form.Schema.Forms.{FieldError}
use web_form.Web.Requests.{Request, StateValue, set_state, flash, error, Message}
use web_form.Web.Sessions.{Order, open_session, session_of, push, pop}
use web_form.Web.Guards.{verify_captcha}
use web_form.Engine.Access.{validate_code, new_request_context}
use web_form.Engine.Render.{pre_render}
use web_form.Engine.Submit.{flash_errors}
use web_form.Engine.Serve.{report}

-- The same HTTP request, credentials, captchas and answer so far.
pub record Same (r t : Request) : Type 0 where
  pub request : t.request ≡ r.request
  pub creds : t.creds ≡ r.creds
  pub captchas : t.captchas ≡ r.captchas
  pub written : t.written ≡ r.written

pub Same-trans : {r t u : Request} → Same r t → Same t u → Same r u
Same-trans a b = ground arith

pub set_state-Same : (k : Text) (v : StateValue) (r : Request) → Same r (set_state k v r)
unfolding set_state
set_state-Same k v r = ground arith

pub error-Same : (m : Message) (r : Request) → Same r (error m r)
unfolding error
error-Same m r = ground arith

pub pop-Same : (k : Text) (r : Request) → Same r (pop k r).1
unfolding pop
pop-Same k r = ground arith

pub flash_errors-Same : (es : List FieldError) (r : Request) → Same r (flash_errors es r)
unfolding flash_errors flash
flash_errors-Same [] r = ground arith
flash_errors-Same (e ∷ es) r = Same-trans (ground arith) (flash_errors-Same es _)

module _ (order : Order) where
  pub open_session-Same : (r : Request) → Same r (open_session order r)
  unfolding open_session
  open_session-Same r = ground arith

  pub push-Same : (k v : Text) (r : Request) → Same r (push order k v r)
  unfolding push
  push-Same k v r = ground arith

  pub validate_code-Same : (form : Form) (r : Request) → Same r (validate_code order form r).1
  unfolding validate_code push open_session set_state
  validate_code-Same form r = ground arith

  pub pre_render-Same :
      (ext : Externals) (form : Form) (r : Request) → Same r (report (pre_render ext order form r))
  unfolding pre_render new_request_context open_session set_state error
  pre_render-Same ext form r = ground arith

  -- The page is prepared with the session of the request open.
  pub pre_render-session :
      (ext : Externals) (form : Form) (r : Request)
      → (report (pre_render ext order form r)).session ≡ some (session_of order r)
  unfolding pre_render new_request_context open_session set_state error
  pre_render-session ext form r = ground arith

-- The checks read nothing that these steps change.
pub verify_captcha-Same : {r t : Request} → Same r t → verify_captcha t ≡ verify_captcha r
unfolding verify_captcha
verify_captcha-Same s = ground arith
