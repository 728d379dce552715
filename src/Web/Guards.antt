-- ===== src/Web/Guards.antt =====
-- internal/web/web.go: XSRF tokens, captchas and the address of the client.
pub mod Laws
pub mod Tokens
use web_form.Prelude.{
  Text, Text-comparable, [], ◌∷◌, ◌++◌, ◌&&◌, ◌||◌, not, if◌then◌else◌, Bool, true, false, List,
  Option, none, some, codes, is_empty, ◌==◌, ℕ, ltb, ◌+◌, ◌-◌, ◌/◌, ◌%◌,
}
use web_form.Golang.Strings.{trim_space, first_part}
use web_form.Web.Requests.{Request, HttpRequest, Captcha, is_post}
use web_form.Web.Sessions.{first_value}
use web_form.Schema.Forms.{values_of}

abbrev pub form_xsrf : Text
form_xsrf = codes "_xsrf"

-- The values that `FormValue` has: those of the body come before those of the query, but behind them if
-- the body is multipart.
unfoldable pub form_values : Text → HttpRequest → List Text
form_values k r =
    if r.multipart
    then values_of k r.query ++ values_of k r.post_form
    else values_of k r.post_form ++ values_of k r.query

-- `verifyXSRF`
unfoldable pub check_xsrf : HttpRequest → Bool
unfolding form_values
check_xsrf r = elim r.xsrf_cookie [
  | none ↦ false
  | some cookie ↦
      let form_value = first_value (form_values form_xsrf r) in
      cookie == form_value && not (is_empty form_value)
]

-- `VerifyXSRF`
unfoldable pub verify_xsrf : Request → Bool
verify_xsrf r = not (is_post r.request.method) || check_xsrf r.request

-- The loop of `VerifyCaptcha`.
unfoldable pub captcha_loop : HttpRequest → List Captcha → Bool
captcha_loop request [] = true
captcha_loop request (c ∷ cs) = if not (c.validate request) then false else captcha_loop request cs

unfoldable pub verify_captcha : Request → Bool
unfolding captcha_loop
verify_captcha r =
    if not (is_post r.request.method) then true else captcha_loop r.request r.captchas

-- `GetClientIP`
unfoldable pub get_client_ip : HttpRequest → Text
get_client_ip r =
    if is_empty r.forwarded_for then r.remote_addr else trim_space (first_part b',' r.forwarded_for)

abbrev pub hex_digit : ℕ → ℕ
hex_digit d = if ltb d 10 then b'0' + d else b'a' + d - 10

unfoldable pub hex : List ℕ → Text
hex [] = []
hex (b ∷ bs) = hex_digit (b / 16) ∷ hex_digit (b % 16) ∷ hex bs

-- The cookie that `XSRF` sets; it expires an hour after `now`, in nanoseconds.
pub record Cookie : Type 0 where
  pub name : Text
  pub value : Text
  pub path : Text
  pub http_only : Bool
  pub same_site_strict : Bool
  pub expires : ℕ

-- `XSRF`, from 32 random bytes: the token and the cookie.
unfoldable pub xsrf_token : List ℕ → ℕ → Text × Cookie
unfolding hex
xsrf_token random now =
    let t = hex random in
    (
      t,
      record {
        name = form_xsrf;
        value = t;
        path = codes "/";
        http_only = true;
        same_site_strict = true;
        expires = now + 3_600_000_000_000;
      },
    )

-- `EmbedXSRF`: a request has one token, made when it is first needed.
unfoldable pub embed_xsrf : List ℕ → ℕ → Request → Text × Request × List Cookie
unfolding xsrf_token
embed_xsrf random now r =
    let (t, cookie) = xsrf_token random now in
    let fresh : Text × Request × List Cookie = (input t, record r { xsrf = t }, cookie ∷ []) in
    if is_empty r.xsrf then fresh else (input r.xsrf, r, [])
  where
    input : Text → Text
    input t =
        codes "<input type=\"hidden\" name=\""
        ++ (form_xsrf ++ (codes "\" value=\"" ++ (t ++ codes "\"/>")))

-- The loop of `EmbedCaptcha`.
unfoldable pub embed_captcha : Text → List Captcha → Text
embed_captcha out [] = out
embed_captcha out (c ∷ cs) = embed_captcha (out ++ c.embed) cs
