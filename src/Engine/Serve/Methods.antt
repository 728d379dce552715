-- ===== src/Engine/Serve/Methods.antt =====
-- Requests whose method is neither GET nor POST.
use web_form.Prelude.{
  Text-comparable, [], ◌∷◌, ◌++◌, ◌&&◌, not, true, false, List, codes, ◌≡◌, refl, arith, inl, ◌==◌,
}
use web_form.Prelude.Dict.{Dict, delete}
use web_form.Schema.Types.{Stored}
use web_form.Schema.Access.{is_allowed, has_code_access}
use web_form.Schema.Forms.{parse_form}
use web_form.Web.Requests.{Request, is_get, is_post}
use web_form.Web.Sessions.{session_of, text_at}
use web_form.Web.Guards.{verify_xsrf, verify_captcha}
use web_form.Engine.Config.{FormConfig, Platform, Serving, Destination, tz_field, fresh_field}
use web_form.Engine.Access.{validate_code}
use web_form.Engine.Submit.{location}
use web_form.Engine.Serve.{serve}
use web_form.Engine.Serve.Accepted.{context_of, serve-stores}

module _ (p : Platform) (fr : FormConfig) (ds : List Destination) where
  no_token :
      (r : Request) → is_post r.request.method ≡ false → (fr.xsrf && not (verify_xsrf r)) ≡ false
  unfolding verify_xsrf
  no_token r h = ground arith

  -- A request whose method is neither POST nor GET, to a form without codes whose policy allows it,
  -- that is no fresh start and is parsed without an error, is stored whatever its XSRF token and
  -- whatever the captchas answer.
  pub serve_unprotected :
      (s : Serving) {values : Dict Stored}
      → is_post s.request.request.method ≡ false
      → is_get s.request.request.method ≡ false
      → is_allowed fr.definition s.request.creds ≡ true
      → has_code_access fr.definition ≡ false
      → (text_at fresh_field (session_of p.order s.request) == codes "true") ≡ false
      → parse_form p.externals
          (location p fr ds (text_at tz_field (delete fresh_field (session_of p.order s.request))))
          (context_of s.request.request s.request.creds
            (delete fresh_field (session_of p.order s.request)))
          fr.definition
        ≡ (values, [])
      → (serve p fr ds s).stores ≡ s.stores ++ (fr.definition.table, values) ∷ []
  unfolding validate_code verify_captcha
  serve_unprotected s no_post no_get allowed no_codes not_fresh h =
      let same : (validate_code p.order fr.definition s.request).1 ≡ s.request = rw no_codes refl in
      serve-stores p fr ds s
        (record {
          token = no_token s.request no_post;
          allowed = allowed;
          coded = inl no_codes;
          no_get = no_get;
          human = rw no_post refl;
        })
        (rw same not_fresh) (rw same h)
