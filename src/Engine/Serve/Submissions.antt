-- ===== src/Engine/Serve/Submissions.antt =====
-- What a submission leaves behind: calls of the storage and notifications.
use web_form.Prelude.{
  Text, Text-comparable, [], ◌∷◌, ◌++◌, List, Option, none, some, Error, ◌≡◌, refl, map, ap,
}
use web_form.Prelude.Dict.{Dict}
use web_form.Schema.Types.{RequestContext, Stored}
use web_form.Schema.Forms.{FieldError, parse_form}
use web_form.Web.Requests.{Request}
use web_form.Engine.Config.{FormConfig, Platform, Serving, Destination}
use web_form.Engine.Access.{new_request_context}
use web_form.Engine.Submit.{finish, store_values, submit_parsed, submit_form, send_notifications}
use web_form.Engine.Serve.Guards.{open_session-Same}

module _ (p : Platform) (fr : FormConfig) (ds : List Destination) where
  -- Values that the submission of a request is parsed to with no error.
  pub record IsParsed (r : Request) (values : Dict Stored) : Type 0 where
    pub loc : Text
    pub ctx : RequestContext
    pub from_body : ctx.form ≡ r.request.post_form
    pub by_user : ctx.credentials ≡ r.creds
    pub parses : parse_form p.externals loc ctx fr.definition ≡ (values, [])

  -- What a submission leaves behind.
  pub data Submitted (s t : Serving) : Type 0 where
    invalid : t.stores ≡ s.stores → t.dispatched ≡ s.dispatched → Submitted s t
    unsaved :
        (values : Dict Stored) (e : Error)
        → IsParsed s.request values
        → t.stores ≡ s.stores ++ (fr.definition.table, values) ∷ []
        → (fr.storage fr.definition.table values).1 ≡ some e
        → t.dispatched ≡ s.dispatched
        → Submitted s t
    saved :
        (values : Dict Stored)
        → IsParsed s.request values
        → t.stores ≡ s.stores ++ (fr.definition.table, values) ∷ []
        → (fr.storage fr.definition.table values).1 ≡ none
        → t.dispatched
          ≡ s.dispatched
            ++ map
                (λ d. (
                  d,
                  record {
                    form = fr.definition;
                    result = (fr.storage fr.definition.table values).0;
                  },
                ))
                ds
        → Submitted s t

  finish-Submitted :
      (s s' : Serving) (values : Dict Stored) (out : Dict Stored × Option Error)
      → fr.storage fr.definition.table values ≡ out
      → IsParsed s.request values
      → s'.stores ≡ s.stores ++ (fr.definition.table, values) ∷ []
      → s'.dispatched ≡ s.dispatched
      → Submitted s (finish p fr ds out s')
  unfolding finish send_notifications
  finish-Submitted s s' values (result, some e) out h stored same =
      unsaved values e h stored (ap (λ o. o.1) out) same
  finish-Submitted s s' values (result, none) out h stored same =
      saved values h stored (ap (λ o. o.1) out) (rw (out, same))

  submit_parsed-Submitted :
      (s s' : Serving) (loc : Text) (ctx : RequestContext) (out : Dict Stored × List FieldError)
      → parse_form p.externals loc ctx fr.definition ≡ out
      → ctx.form ≡ s.request.request.post_form
      → ctx.credentials ≡ s.request.creds
      → s'.stores ≡ s.stores
      → s'.dispatched ≡ s.dispatched
      → Submitted s (submit_parsed p fr ds out s')
  unfolding submit_parsed store_values
  submit_parsed-Submitted s s' loc ctx (values, e ∷ es) h body user stores same =
      invalid stores same
  submit_parsed-Submitted s s' loc ctx (values, []) h body user stores same =
      finish-Submitted s _ values _ refl
        (record { loc = loc; ctx = ctx; from_body = body; by_user = user; parses = h })
        (ap (λ l. l ++ (fr.definition.table, values) ∷ []) stores) same

  pub submit_form-Submitted : (s : Serving) → Submitted s (submit_form p fr ds s)
  unfolding submit_form new_request_context
  submit_form-Submitted s =
      let opened = open_session-Same p.order s.request in
      submit_parsed-Submitted s _ _ _ _ refl (ap (λ r. r.post_form) opened.request) opened.creds
        refl refl
