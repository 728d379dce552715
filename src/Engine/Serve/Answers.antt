-- ===== src/Engine/Serve/Answers.antt =====
-- The answers to a request.
use web_form.Prelude.{
  Text, Text-comparable, [], ◌∷◌, ◌++◌, ◌&&◌, ◌||◌, not, List, Option, none, some, Error, codes,
  ◌≡◌, refl, if_elim, ◌∙◌, ◌==◌, ap, ℕ,
}
use web_form.Prelude.Dict.{Dict}
use web_form.Schema.Types.{Stored}
use web_form.Schema.Access.{is_allowed, has_code_access}
use web_form.Schema.Forms.{FieldError}
use web_form.Web.Requests.{Request, Response, is_get, is_post}
use web_form.Web.Sessions.{pop}
use web_form.Web.Guards.{verify_xsrf, verify_captcha}
use web_form.Web.Pages.{render, page}
use web_form.Engine.Config.{FormConfig, Platform, Serving, Destination, fresh_field}
use web_form.Engine.Access.{new_request_context, validate_code}
use web_form.Engine.Render.{pre_render}
use web_form.Engine.Submit.{finish, store_values, submit_parsed, submit_form, send_notifications}
use web_form.Engine.Serve.{serve, serve_code, serve_fresh, serve_submission, report}
use web_form.Engine.Serve.Guards.{
  Same, Same-trans, open_session-Same, push-Same, set_state-Same, error-Same, pop-Same,
  flash_errors-Same, validate_code-Same, pre_render-Same,
}

-- One more answer than before.
pub record Answered (r t : Request) : Type 0 where
  pub answer : Response
  pub once : t.written ≡ r.written ++ answer ∷ []

record Answers (r : Request) (s : Serving) : Type 0 where
  answered : Answered r s.request

Answers-Same : {r t : Request} {s : Serving} → Same r t → Answers t s → Answers r s
Answers-Same h a = record {
  answered = record {
    answer = a.answered.answer;
    once = a.answered.once ∙ ap (λ w. w ++ a.answered.answer ∷ []) h.written;
  };
}

Same-refl : (r : Request) → Same r r
Same-refl r = record { request = refl; creds = refl; captchas = refl; written = refl }

module _ (p : Platform) (fr : FormConfig) (ds : List Destination) where
  -- A page in answer to a request in which the answers have not changed.
  rendered :
      (status : ℕ) (view : List Text) (s : Serving) {r t : Request}
      → Same r t
      → Answers r (record s { request = render p.execute status view t })
  unfolding render
  rendered status view s {t} h =
      let x = page status (p.execute view t) in
      record { answered = record { answer = x; once = ap (λ w. w ++ x ∷ []) h.written } }

  finish-Answers :
      (r : Request) (s : Serving) (out : Dict Stored × Option Error)
      → Same r s.request
      → Answers r (finish p fr ds out s)
  unfolding finish send_notifications
  finish-Answers r s (result, some e) h =
      rendered 500 fr.view_fail s
        (Same-trans h (Same-trans (error-Same _ _) (set_state-Same _ _ _)))
  finish-Answers r s (result, none) h = record {
    answered = (rendered 200 fr.view_success s (Same-trans h (set_state-Same _ _ _))).answered;
  }

  submit_parsed-Answers :
      (r : Request) (s : Serving) (out : Dict Stored × List FieldError)
      → Same r s.request
      → Answers r (submit_parsed p fr ds out s)
  unfolding submit_parsed store_values
  submit_parsed-Answers r s (values, e ∷ es) h =
      rendered 422 fr.view_form s (Same-trans h (flash_errors-Same (e ∷ es) s.request))
  submit_parsed-Answers r s (values, []) h =
      finish-Answers r _ _ (Same-trans h (push-Same p.order _ _ _))

  submit_form-Answers : (s : Serving) → Answers s.request (submit_form p fr ds s)
  unfolding submit_form new_request_context
  submit_form-Answers s =
      submit_parsed-Answers s.request _ _
        (Same-trans (open_session-Same p.order s.request) (open_session-Same p.order _))

  serve_submission-Answers : (s : Serving) → Answers s.request (serve_submission p fr ds s)
  unfolding serve_submission
  serve_submission-Answers s =
      if_elim (Answers s.request) (not (verify_captcha s.request)) _ _
        (λ _. rendered 400 fr.view_form s (error-Same _ _)) (λ _. submit_form-Answers s)

  serve_fresh-Answers : (s : Serving) → Answers s.request (serve_fresh p fr ds s)
  unfolding serve_fresh
  serve_fresh-Answers s =
      let popped = pop-Same fresh_field s.request in
      let r = (pop fresh_field s.request).1 in
      if_elim (Answers s.request)
        ((pop fresh_field s.request).0 == codes "true" || is_get r.request.method) _ _
        (λ _. rendered 200 fr.view_form s popped)
        (λ _. Answers-Same popped (serve_submission-Answers (record s { request = r })))

  serve_code-Answers : (s : Serving) → Answers s.request (serve_code p fr ds s)
  unfolding serve_code
  serve_code-Answers s =
      let checked = validate_code-Same p.order fr.definition s.request in
      let r = (validate_code p.order fr.definition s.request).1 in
      if_elim (Answers s.request) (not (validate_code p.order fr.definition s.request).0) _ _
        (λ _. rendered 401 fr.view_code s (Same-trans checked (error-Same _ _)))
        (λ _.
          Answers-Same (Same-trans checked (pre_render-Same p.order p.externals fr.definition r)) (
            serve_fresh-Answers
              (record s { request = report (pre_render p.externals p.order fr.definition r) })))

  serve-Answers : (s : Serving) → Answers s.request (serve p fr ds s)
  unfolding serve
  serve-Answers s =
      if_elim (Answers s.request) (fr.xsrf && not (verify_xsrf s.request)) _ _
        (λ _. rendered 403 fr.view_forbidden s (error-Same _ _))
        λ _.
          if_elim (Answers s.request) (not (is_allowed fr.definition s.request.creds)) _ _
            (λ _. rendered 403 fr.view_forbidden s (Same-refl _))
            λ _.
              if_elim (Answers s.request)
                (has_code_access fr.definition && not (is_post s.request.request.method)) _ _
                (λ _. rendered 401 fr.view_code s (Same-refl _)) λ _. serve_code-Answers s

  -- Every request is answered exactly once, on every path of the handler.
  pub serve-Answered : (s : Serving) → Answered s.request (serve p fr ds s).request
  serve-Answered s = (serve-Answers s).answered
