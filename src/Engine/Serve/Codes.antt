-- ===== src/Engine/Serve/Codes.antt =====
-- An access code on its way through the pages of a form.
use web_form.Prelude.{
  Text, Text-comparable, text_eq, ◌++◌, true, false, List, none, some, ◌≡◌, ap, ◌∙◌, arith, elem,
  All, is_empty,
}
use web_form.Prelude.Dict.{Dict, lookup, keys, delete, lookup-delete}
use web_form.Schema.Types.{Form}
use web_form.Schema.Access.{has_code_access}
use web_form.Schema.Templates.{Externals}
use web_form.Web.Requests.{Request, is_post}
use web_form.Web.Sessions.{Order, session_of, hidden_fields, text_at, pop, parse_session}
use web_form.Web.Sessions.Return.{posted, IsPlain, IsOther, parse_session-hidden_fields}
use web_form.Engine.Config.{access_code_field, fresh_field}
use web_form.Engine.Access.{validate_code}
use web_form.Engine.Access.Laws.{offered_code, validate_code_iff, validate_code_kept}
use web_form.Engine.Render.{pre_render}
use web_form.Engine.Serve.{report}
use web_form.Engine.Serve.Guards.{pre_render-session}

module _ (ext : Externals) (order : Order) (form : Form) where
  -- The request as `Serve` shows it on the page of the form, behind the check of the code.
  abbrev pub shown : Request → Request
  shown r = (pop fresh_field (report (pre_render ext order form (validate_code order form r).1))).1

  pop-session :
      (k : Text) (q : Request) (s : Dict Text)
      → q.session ≡ some s
      → session_of order (pop k q).1 ≡ delete k s
  unfolding pop
  pop-session k q s h = ground (arith, h)

  text_at-delete :
      (m : Dict Text)
      → text_at access_code_field (delete fresh_field m) ≡ text_at access_code_field m
  unfolding text_eq
  text_at-delete m = ground (arith, lookup-delete fresh_field access_code_field m)

  -- The page has the code that was accepted.
  text_at-shown :
      (r : Request)
      → has_code_access form ≡ true
      → (validate_code order form r).0 ≡ true
      → text_at access_code_field (session_of order (shown r)) ≡ offered_code order r
  text_at-shown r coded accepted =
      ap (text_at access_code_field) (
        pop-session fresh_field _ _
          (pre_render-session order ext form (validate_code order form r).1))
      ∙ text_at-delete _
      ∙ validate_code_kept order form r coded accepted

  session_of-fresh :
      (q : Request)
      → q.session ≡ none
      → session_of order q ≡ parse_session (order q.request.post_form) q.request.post_form
  session_of-fresh q h = ground (arith, h)

  -- A code that is accepted for a request, and is not empty, is accepted again for the next POST:
  -- the page of the form carries it in its hidden fields, from where the next request reads it. The
  -- entries of the session consist of unreserved characters, no other field of the next body begins
  -- with "__", and all keys of that body are read.
  pub validate_code-shown :
      (r q : Request) (rest : Dict (List Text))
      → has_code_access form ≡ true
      → (validate_code order form r).0 ≡ true
      → is_empty (offered_code order r) ≡ false
      → All IsPlain (session_of order (shown r))
      → All IsOther rest
      → is_post q.request.method ≡ true
      → q.session ≡ none
      → q.request.post_form ≡ posted (hidden_fields (session_of order (shown r))) ++ rest
      → ((k : Text) → elem k (order q.request.post_form) ≡ elem k (keys q.request.post_form))
      → (validate_code order form q).0 ≡ true
  validate_code-shown r q rest coded accepted given plain other post fresh body complete =
      let known = (validate_code_iff order form r coded).0 accepted in
      let page = text_at-shown r coded accepted in
      let same : lookup access_code_field (session_of order q)
          ≡ lookup access_code_field (session_of order (shown r)) =
        ap (lookup access_code_field) (session_of-fresh q fresh)
        ∙ ap (λ b. lookup access_code_field (parse_session (order q.request.post_form) b)) body
        ∙ parse_session-hidden_fields (order q.request.post_form) (session_of order (shown r)) rest
            plain other (λ k. complete k ∙ ap (λ b. elem k (keys b)) body) access_code_field in
      let same_code : offered_code order q ≡ offered_code order r = ground arith in
      (validate_code_iff order form q coded).1 (rw (same_code, post) (ground (arith, known)))
