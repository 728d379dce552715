-- ===== src/Engine/Access/Laws.antt =====
-- When an access code is accepted.
use web_form.Prelude.{
  Text, Text-comparable, [], ◌∷◌, if◌then◌else◌, true, ◌≡◌, ◌↔◌, arith, is_empty, text_eq_refl,
  ◌&&◌,
}
use web_form.Prelude.Dict.{lookup-insert}
use web_form.Utils.Sets.{has}
use web_form.Schema.Types.{Form}
use web_form.Schema.Access.{has_code_access}
use web_form.Web.Requests.{Request, is_post, set_state}
use web_form.Web.Sessions.{Order, open_session, session_of, push, text_at, get_value}
use web_form.Engine.Config.{access_code_field}
use web_form.Engine.Access.{find_code, accept_code, validate_code}

-- The code that counts: that of the session, or that of the body if the session has none.
abbrev pub offered_code : Order → Request → Text
offered_code order r =
    if is_empty (text_at access_code_field (session_of order r))
    then get_value access_code_field r.request.post_form
    else text_at access_code_field (session_of order r)

pub find_code-offered : (order : Order) (r : Request) → (find_code order r).0 ≡ offered_code order r
unfolding find_code
find_code-offered order r = ground arith

-- A form with codes accepts a request exactly when it is a POST and the code of its session, or
-- else that of its body, is one of the codes of the form.
pub validate_code_iff :
    (order : Order) (form : Form) (r : Request)
    → has_code_access form ≡ true
    → ((validate_code order form r).0 ≡ true)
      ↔ ((is_post r.request.method && has form.codes (offered_code order r ∷ [])) ≡ true)
unfolding validate_code find_code accept_code
validate_code_iff order form r h = ground arith

-- The code with which a form with codes accepts a request is in the session afterwards, from where
-- the next request is checked.
pub validate_code_kept :
    (order : Order) (form : Form) (r : Request)
    → has_code_access form ≡ true
    → (validate_code order form r).0 ≡ true
    → text_at access_code_field (session_of order (validate_code order form r).1)
      ≡ offered_code order r
unfolding validate_code find_code accept_code set_state push open_session
validate_code_kept order form r h accepted = ground (
  arith,
  lookup-insert access_code_field access_code_field (find_code order r).0
      (session_of order (find_code order r).1),
  text_eq_refl access_code_field,
)
