-- ===== src/Engine/Serve/Admission.antt =====
-- Which requests are submitted, and what then happens.
use web_form.Prelude.{
  Text-comparable, [], ◌∷◌, ◌++◌, ◌&&◌, ◌||◌, not, true, false, List, none, codes, ◌≡◌, ◌≢◌, refl,
  sym, arith, map, ◌∙◌, ◌==◌, ap, if_elim, ◌⊎◌,
}
use web_form.Prelude.Dict.{Dict}
use web_form.Utils.Sets.{has}
use web_form.Schema.Types.{Stored}
use web_form.Schema.Access.{is_allowed, has_code_access}
use web_form.Web.Requests.{Request, is_get, is_post}
use web_form.Web.Sessions.{pop}
use web_form.Web.Guards.{verify_xsrf, verify_captcha}
use web_form.Engine.Config.{FormConfig, Platform, Serving, Destination, fresh_field}
use web_form.Engine.Access.{validate_code, find_code, accept_code}
use web_form.Engine.Serve.{serve, serve_code, serve_fresh, serve_submission}
use web_form.Engine.Serve.Guards.{
  Same, Same-trans, pop-Same, validate_code-Same, pre_render-Same, verify_captcha-Same,
}
use web_form.Engine.Serve.Submissions.{
  IsParsed, Submitted, invalid, unsaved, saved, submit_form-Submitted,
}

module _ (p : Platform) (fr : FormConfig) (ds : List Destination) where
  -- A form without codes, or a POST with one of its codes in the session or in the body.
  abbrev pub HasCode : Request → Type 0
  HasCode r =
      (has_code_access fr.definition ≡ false)
      ⊎ ((is_post r.request.method ≡ true)
          × (has fr.definition.codes ((find_code p.order r).0 ∷ []) ≡ true))

  -- The checks that a request has to pass.
  pub record IsAdmitted (r : Request) : Type 0 where
    pub token : (fr.xsrf && not (verify_xsrf r)) ≡ false
    pub allowed : is_allowed fr.definition r.creds ≡ true
    pub coded : HasCode r
    pub no_get : is_get r.request.method ≡ false
    pub human : verify_captcha r ≡ true

  data Served (s t : Serving) : Type 0 where
    stopped : t.stores ≡ s.stores → t.dispatched ≡ s.dispatched → Served s t
    admitted : IsAdmitted s.request → Submitted p fr ds s t → Served s t

  IsParsed-Same :
      {r t : Request} {v : Dict Stored} → Same r t → IsParsed p fr ds t v → IsParsed p fr ds r v
  IsParsed-Same s h = record {
    loc = h.loc;
    ctx = h.ctx;
    from_body = h.from_body ∙ ap (λ q. q.post_form) s.request;
    by_user = h.by_user ∙ s.creds;
    parses = h.parses;
  }

  Submitted-Same :
      (s : Serving) (r : Request) {t : Serving}
      → Same s.request r
      → Submitted p fr ds (record s { request = r }) t
      → Submitted p fr ds s t
  Submitted-Same s r h (invalid a b) = invalid a b
  Submitted-Same s r h (unsaved v e q a b c) = unsaved v e (IsParsed-Same h q) a b c
  Submitted-Same s r h (saved v q a b c) = saved v (IsParsed-Same h q) a b c

  validate_code-HasCode :
      (r : Request) → (validate_code p.order fr.definition r).0 ≡ true → HasCode r
  unfolding validate_code accept_code
  validate_code-HasCode r h = ground arith

  module _ (s : Serving) where
    abbrev Ends : Serving → Type 0
    Ends = Served s

    serve_submission-Served :
        (r : Request)
        → Same s.request r
        → (fr.xsrf && not (verify_xsrf s.request)) ≡ false
        → is_allowed fr.definition s.request.creds ≡ true
        → HasCode s.request
        → is_get s.request.request.method ≡ false
        → Served s (serve_submission p fr ds (record s { request = r }))
    unfolding serve_submission
    serve_submission-Served r h t a c g =
        if_elim Ends (not (verify_captcha r)) _ _ (λ _. stopped refl refl)
          λ passed.
            admitted
              (record {
                token = t;
                allowed = a;
                coded = c;
                no_get = g;
                human = sym (verify_captcha-Same h) ∙ ground arith;
              })
              (Submitted-Same s r h (submit_form-Submitted p fr ds (record s { request = r })))

    serve_fresh-Served :
        (r : Request)
        → Same s.request r
        → (fr.xsrf && not (verify_xsrf s.request)) ≡ false
        → is_allowed fr.definition s.request.creds ≡ true
        → HasCode s.request
        → Served s (serve_fresh p fr ds (record s { request = r }))
    unfolding serve_fresh
    serve_fresh-Served r h t a c =
        let popped = Same-trans h (pop-Same fresh_field r) in
        if_elim Ends
          ((pop fresh_field r).0 == codes "true" || is_get (pop fresh_field r).1.request.method) _ _
          (λ _. stopped refl refl)
          λ later.
            serve_submission-Served (pop fresh_field r).1 popped t a c
              (ap (λ q. is_get q.method) (sym popped.request) ∙ ground arith)

    serve-Served : Served s (serve p fr ds s)
    unfolding serve serve_code
    serve-Served =
        if_elim Ends (fr.xsrf && not (verify_xsrf s.request)) _ _ (λ _. stopped refl refl)
          λ t.
            if_elim Ends (not (is_allowed fr.definition s.request.creds)) _ _
              (λ _. stopped refl refl)
              λ a.
                if_elim Ends
                  (has_code_access fr.definition && not (is_post s.request.request.method)) _ _
                  (λ _. stopped refl refl)
                  λ _.
                    if_elim Ends (not (validate_code p.order fr.definition s.request).0) _ _
                      (λ _. stopped refl refl)
                      λ c.
                        serve_fresh-Served _
                          (Same-trans (validate_code-Same p.order fr.definition s.request)
                            (pre_render-Same p.order p.externals fr.definition _))
                          t (ground arith) (validate_code-HasCode s.request (ground arith))

  -- If the storage is called for a request, the request passed every check of the handler (the XSRF
  -- token if that check is on, the policy, the access code, no GET, the captchas), and the storage
  -- is called once, with the table of the form and the values to which ParseForm parses the body
  -- without an error.
  pub serve_stores :
      (s : Serving)
      → (serve p fr ds s).stores ≢ s.stores
      → IsAdmitted s.request
        × ((values : Dict Stored) × IsParsed p fr ds s.request values
            × ((serve p fr ds s).stores ≡ s.stores ++ (fr.definition.table, values) ∷ []))
  serve_stores s h = elim (serve-Served s) [
    | stopped same _ ↦ absurd (h same)
    | admitted a (invalid same _) ↦ absurd (h same)
    | admitted a (unsaved v e q stored _ _) ↦ (a, (v, q, stored))
    | admitted a (saved v q stored _ _) ↦ (a, (v, q, stored))
  ]

  -- If a request dispatches notifications, the storage was called for it and returned no error, and
  -- every destination of the form gets the result of the storage, once.
  pub serve_dispatches :
      (s : Serving)
      → (serve p fr ds s).dispatched ≢ s.dispatched
      → (values : Dict Stored) × ((serve p fr ds s).stores
          ≡ s.stores ++ (fr.definition.table, values) ∷ [])
        × ((fr.storage fr.definition.table values).1 ≡ none)
        × ((serve p fr ds s).dispatched
            ≡ s.dispatched
              ++ map
                  (λ d. (
                    d,
                    record {
                      form = fr.definition;
                      result = (fr.storage fr.definition.table values).0;
                    },
                  ))
                  ds)
  serve_dispatches s h = elim (serve-Served s) [
    | stopped _ same ↦ absurd (h same)
    | admitted a (invalid _ same) ↦ absurd (h same)
    | admitted a (unsaved v e q _ _ same) ↦ absurd (h same)
    | admitted a (saved v q stored fine sent) ↦ (v, stored, fine, sent)
  ]
