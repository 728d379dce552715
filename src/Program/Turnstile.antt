-- ===== src/Program/Turnstile.antt =====
-- internal/captcha/turnstile.go: a captcha that a service of Cloudflare checks.
use web_form.Prelude.{
  Text, Text-comparable, [], ◌∷◌, ◌++◌, Bool, true, false, List, Option, none, some, Error, Result,
  ok, err, codes, ◌≡◌, ◌↔◌, refl, arith, Option-cases, Result-cases, inl, inr,
}
use web_form.Prelude.Int.{ℤ}
use web_form.Golang.Urls.{query_escape}
use web_form.Web.Requests.{HttpRequest, Captcha}
use web_form.Web.Sessions.{first_value}
use web_form.Web.Guards.{form_values, get_client_ip}

pub record Widget : Type 0 where
  pub site_key : Text
  pub secret_key : Text
  pub timeout : ℤ

-- The HTTP client, with the time that a request may take, and the JSON decoder for the field `success`.
pub record Service : Type 0 where
  pub new_request : Option Error
  pub execute : ℤ → List (Text × Text) → Result Text
  pub decode : Text → Result Bool

unfoldable pub embed_widget : Widget → Text
embed_widget w =
    codes "\n   <div class=\"cf-turnstile\" data-sitekey=\""
    ++ (query_escape w.site_key
        ++ codes
            "\"></div>\n   <script src=\"https://challenges.cloudflare.com/turnstile/v0/api.js\"></script>\n")

-- The form that is sent to the service.
unfoldable pub form_fields : Widget → HttpRequest → List (Text × Text)
form_fields w form =
    (codes "secret", w.secret_key)
    ∷ (codes "response", first_value (form_values (codes "cf-turnstile-response") form))
    ∷ (codes "remoteip", get_client_ip form)
    ∷ []

unfoldable pub validate : Service → Widget → HttpRequest → Bool
unfolding form_fields
validate s w form = elim s.new_request [
  | some e ↦ false
  | none ↦ elim (s.execute w.timeout (form_fields w form)) [
    | err e ↦ false
    | ok body ↦ elim (s.decode body) [ err e ↦ false | ok success ↦ success ]
  ]
]

unfoldable pub turnstile : Service → Widget → Captcha
unfolding embed_widget validate
turnstile s w = record { embed = embed_widget w; validate = validate s w }

-- The captcha accepts a request exactly when the service answers the secret, the response of the
-- request and the address of the client with success, in the time of the widget; every error rejects the request.
pub turnstile_iff :
    (s : Service) (w : Widget) (form : HttpRequest)
    → ((turnstile s w).validate form ≡ true) ↔ (
        (s.new_request ≡ none)
        × ((body : Text) × (s.execute w.timeout (form_fields w form) ≡ ok body)
            × (s.decode body ≡ ok true)))
unfolding turnstile validate
turnstile_iff s w form = (
  λ h. elim (Option-cases s.new_request) [
    | inr (e, q) ↦ absurd (ground arith)
    | inl q ↦ elim (Result-cases (s.execute w.timeout (form_fields w form))) [
      | inr (e, r) ↦ absurd (ground arith)
      | inl (body, r) ↦ (q, (body, r, ground arith))
    ]
  ],
  λ (q, (body, r, d)). rw (q, r, d, validate) refl,
)
