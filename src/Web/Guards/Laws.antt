-- ===== src/Web/Guards/Laws.antt =====
-- What the XSRF and captcha checks accept.
use web_form.Prelude.{
  Text-comparable, [], ◌∷◌, true, List, some, ◌≡◌, ◌≢◌, ◌↔◌, refl, arith, all, text_eq_iff,
  Option-cases, inl, inr,
}
use web_form.Web.Requests.{Request, HttpRequest, Captcha, is_post}
use web_form.Web.Sessions.{first_value}
use web_form.Web.Guards.{
  form_xsrf, form_values, check_xsrf, verify_xsrf, captcha_loop, verify_captcha,
}

-- A POST passes the XSRF check exactly when its cookie is the token of the form and is not empty.
pub verify_xsrf_iff :
    (r : Request)
    → is_post r.request.method ≡ true
    → (verify_xsrf r ≡ true) ↔ (
        (first_value (form_values form_xsrf r.request) ≢ [])
        × (r.request.xsrf_cookie ≡ some (first_value (form_values form_xsrf r.request))))
unfolding verify_xsrf check_xsrf
verify_xsrf_iff r post = elim (Option-cases r.request.xsrf_cookie) [
  | inl missing ↦ rw (post, missing, check_xsrf) (ground arith)
  | inr (cookie, given) ↦
      rw (post, given, check_xsrf)
        (ground (arith, text_eq_iff cookie (first_value (form_values form_xsrf r.request))))
]

captcha_loop-all :
    (q : HttpRequest) (cs : List Captcha) → captcha_loop q cs ≡ all (λ c. c.validate q) cs
unfolding captcha_loop
captcha_loop-all q [] = refl
captcha_loop-all q (c ∷ cs) = ground (arith, captcha_loop-all q cs)

-- A POST passes the captchas exactly when every one of them accepts it.
verify_captcha-all :
    (r : Request)
    → is_post r.request.method ≡ true
    → verify_captcha r ≡ all (λ c. c.validate r.request) r.captchas
unfolding verify_captcha
verify_captcha-all r post = rw post (captcha_loop-all r.request r.captchas)
