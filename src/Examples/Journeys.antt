-- ===== src/Examples/Journeys.antt =====
-- Tokens, codes, sessions and the login on their way through a browser, at concrete values.
use web_form.Prelude.{
  inl, Text, Text-comparable, text_eq, [], ◌∷◌, ◌++◌, is_empty, false, if◌then◌else◌, true, List,
  none, some, codes, ◌≡◌, refl, arith, All, ℕ, ◌<◌, ◌*◌, length, ◌==◌,
}
use web_form.Prelude.Dict.{Dict, lookup, insert, delete, keys}
use web_form.Utils.Sets.{has}
use web_form.Schema.Access.{has_code_access}
use web_form.Web.Requests.{Request, HttpRequest, set_state}
use web_form.Web.Sessions.{
  hidden_fields, parse_session, session_loop, session_key, session_of, field_html, pop, push,
  open_session,
}
use web_form.Web.Sessions.Return.{posted, IsPlain, IsOther, parse_session-hidden_fields}
use web_form.Web.Guards.{Cookie, form_xsrf, form_values, check_xsrf, hex, embed_xsrf, xsrf_token}
use web_form.Web.Guards.Tokens.{IsHexDigit, unhex, xsrf_token_lem, check_xsrf-embed_xsrf}
use web_form.Golang.Strings.{cut_prefix}
use web_form.Engine.Access.{validate_code, new_request_context}
use web_form.Engine.Render.{pre_render, defaults_loop, field_default}
use web_form.Schema.Templates.{request_string, request_bytes}
use web_form.Engine.Access.Laws.{offered_code}
use web_form.Engine.Serve.Codes.{shown, validate_code-shown}
use web_form.Program.Login.{before_auth, post_auth, redirect_to}
use web_form.Program.Login.Laws.{post_auth-before_auth}
use web_form.Examples.{plain, secret_survey, any_order, post_survey, request}

abbrev bytes : List ℕ
bytes = 7 ∷ 255 ∷ []

bytes-fit : All (λ b. b < 256) bytes
bytes-fit = (omega arith, (omega arith, tt))

xsrf_token_lem_example :
    (length (xsrf_token bytes 5).0 ≡ 2 * 2)
    × All IsHexDigit (xsrf_token bytes 5).0
    × (unhex (xsrf_token bytes 5).0 ≡ bytes)
    × ((xsrf_token bytes 5).1.value ≡ (xsrf_token bytes 5).0)
xsrf_token_lem_example = xsrf_token_lem bytes 5 bytes-fit

abbrev cookie : Cookie
cookie = record {
  name = codes "_xsrf";
  value = codes "07ff";
  path = codes "/";
  http_only = true;
  same_site_strict = true;
  expires = 3_600_000_000_005;
}

abbrev next_post : HttpRequest
next_post = record post_survey {
  post_form = (codes "_xsrf", codes "07ff" ∷ []) ∷ [];
  xsrf_cookie = some (codes "07ff");
}

cookie_set : (embed_xsrf bytes 5 request).2 ≡ cookie ∷ []
unfolding embed_xsrf xsrf_token hex
cookie_set = refl

token_sent : lookup form_xsrf next_post.post_form ≡ some (codes "07ff" ∷ [])
unfolding lookup text_eq
token_sent = refl

check_xsrf-embed_xsrf_example :
    (check_xsrf next_post ≡ true)
    × ((embed_xsrf bytes 5 request).0 ≡ field_html (form_xsrf, codes "07ff"))
    × ((other : List ℕ) (later : ℕ)
        → embed_xsrf other later (embed_xsrf bytes 5 request).1
          ≡ ((embed_xsrf bytes 5 request).0, (embed_xsrf bytes 5 request).1, []))
check_xsrf-embed_xsrf_example =
    check_xsrf-embed_xsrf bytes 5 request cookie next_post refl cookie_set refl token_sent
      (inl refl)

abbrev kept : Dict Text
kept = (codes "tz", codes "UTC") ∷ (codes "code", codes "k2") ∷ []

kept-IsPlain : All IsPlain kept
kept-IsPlain = (
  ((refl, (refl, tt)), (refl, (refl, (refl, tt)))),
  (((refl, (refl, (refl, (refl, tt)))), (refl, (refl, tt))), tt),
)

abbrev rest : Dict (List Text)
rest = (codes "_xsrf", codes "t0" ∷ []) ∷ []

rest-IsOther : All IsOther rest
unfolding cut_prefix
rest-IsOther = (refl, tt)

parse_session-hidden_fields_example :
    lookup (codes "tz") (
      parse_session
        (keys (posted (hidden_fields kept) ++ rest))
        (posted (hidden_fields kept) ++ rest))
    ≡ lookup (codes "tz") kept
parse_session-hidden_fields_example =
    parse_session-hidden_fields (keys (posted (hidden_fields kept) ++ rest)) kept rest kept-IsPlain
      rest-IsOther (λ k. refl) (codes "tz")

secret_coded : has_code_access secret_survey ≡ true
unfolding has_code_access
secret_coded = refl

accepted : (validate_code any_order secret_survey request).0 ≡ true
unfolding validate_code has_code_access has lookup insert parse_session session_loop session_key
    text_eq cut_prefix
accepted = refl

code_given : is_empty (offered_code any_order request) ≡ false
unfolding lookup insert parse_session session_loop session_key text_eq cut_prefix
code_given = refl

abbrev page : Dict Text
page = session_of any_order (shown plain any_order secret_survey request)

page_known : page ≡ (codes "accessCode", codes "k2") ∷ []
unfolding validate_code has_code_access has lookup insert parse_session session_loop session_key
    text_eq cut_prefix delete pop push set_state open_session pre_render request_string
    request_bytes defaults_loop field_default new_request_context form_values
page_known = refl

page-IsPlain : All IsPlain page
page-IsPlain = rw page_known (
  (
    (refl, (refl, (refl, (refl, (refl, (refl, (refl, (refl, (refl, (refl, tt)))))))))),
    (refl, (refl, tt)),
  ),
  tt,
)

abbrev next_request : Request
next_request = record request {
  request = record post_survey { post_form = posted (hidden_fields page) ++ rest };
}

validate_code-shown_example : (validate_code any_order secret_survey next_request).0 ≡ true
validate_code-shown_example =
    validate_code-shown plain any_order secret_survey request next_request rest secret_coded
      accepted code_given page-IsPlain rest-IsOther refl refl refl (λ k. refl)

post_auth-before_auth_example :
    ((k : Text)
      → lookup k (post_auth (before_auth (codes "/forms/survey") kept) []).1
        ≡ (if codes "Location" == k then some (codes "/forms/survey") else lookup k []))
    × ((k : Text)
        → lookup k (post_auth (before_auth (codes "/forms/survey") kept) []).0
          ≡ (if redirect_to == k then none else lookup k kept))
post_auth-before_auth_example = post_auth-before_auth (codes "/forms/survey") kept [] refl
