-- ===== src/Engine/Render.antt =====
-- internal/engine/form.go: `preRender`, the defaults of the page.
use web_form.Prelude.{
  Text-comparable, [], ◌∷◌, ◌&&◌, if◌then◌else◌, List, Option, none, some, Error, Result, ok, err,
  codes, wrapped, nonempty,
}
use web_form.Prelude.Dict.{Dict, insert}
use web_form.Utils.Sets.{new_set}
use web_form.Schema.Types.{Form, Field, RequestContext}
use web_form.Schema.Templates.{Externals, request_string}
use web_form.Web.Requests.{
  Request, HttpRequest, Default, chosen, filled, a_text, the_defaults, set_state,
}
use web_form.Web.Sessions.{Order, first_value}
use web_form.Web.Guards.{form_values}
use web_form.Engine.Access.{new_request_context}

module _ (ext : Externals) (order : Order) where
  -- The default of a field: its old values, or its template.
  unfoldable pub field_default : HttpRequest → RequestContext → Field → Result Default
  field_default http rct f =
      let old = form_values f.name http in
      if nonempty old
      then if f.multiple && nonempty f.options
        then ok (chosen (new_set old))
        else ok (filled (first_value old))
      else (wrapped (codes "compute default value for field %q: %w") (f.name ∷ [])
          (elim (request_string ext f.default rct) [ ok v ↦ ok (filled v) | err e ↦ err e ]))

  -- The loop over the fields.
  unfoldable pub defaults_loop :
      HttpRequest → RequestContext → List Field → Dict Default → Result (Dict Default)
  defaults_loop http rct [] acc = ok acc
  defaults_loop http rct (f ∷ fs) acc = elim (field_default http rct f) [
    | err e ↦ err e
    | ok d ↦ defaults_loop http rct fs (insert f.name d acc)
  ]

  -- `preRender`: the request afterwards, and the error.
  unfoldable pub pre_render : Form → Request → Request × Option Error
  pre_render form r =
      let (rct, opened) = new_request_context order r in
      elim (wrapped (codes "render description: %w") [] (request_string ext form.description rct)) [
        | err e ↦ (opened, some e)
        | ok description ↦
            let described = set_state (codes "Description") (a_text description) opened in
            elim (defaults_loop opened.request rct form.fields []) [
              | err e ↦ (described, some e)
              | ok defaults ↦ (set_state (codes "Defaults") (the_defaults defaults) described, none)
            ]
      ]
