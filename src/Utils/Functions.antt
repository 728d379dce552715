-- ===== src/Utils/Functions.antt =====
-- internal/utils/templates.go: `TemplateFuncs`, over the functions of sprig and the converter of
-- goldmark.
use web_form.Prelude.{
  Text, Text-comparable, codes, if◌then◌else◌, Option, none, some, Error, Result, ok, err, ◌≡◌,
  refl, ◌==◌,
}
use web_form.Prelude.Dict.{Dict, lookup, insert, lookup-insert}

-- A function of the templates: one of sprig, one of a text, or one without an argument.
pub data Func : Type 0 where
  of_sprig : Text → Func
  of_text : (Text → Result Text) → Func
  constant : Text → Func

-- `markdown`; what is converted before an error is lost, as the template fails then.
abbrev pub markdown : (Text → Text × Option Error) → Text → Result Text
markdown convert value = converted (convert value)
  where
    converted : Text × Option Error → Result Text
    converted (out, none) = ok out
    converted (out, some e) = err e

-- `html`
abbrev pub html : Text → Result Text
html value = ok value

unfoldable pub template_funcs : (Text → Text × Option Error) → Text → Dict Func → Dict Func
template_funcs convert local sprig = insert (codes "timezone") (constant local) (
    insert (codes "html") (of_text html)
      (insert (codes "markdown") (of_text (markdown convert)) sprig))

-- The three functions stand in for those of sprig with these names, and the others are sprig's.
lookup-template_funcs :
    (convert : Text → Text × Option Error) (local : Text) (sprig : Dict Func) (k : Text)
    → lookup k (template_funcs convert local sprig) ≡ (
        if codes "timezone" == k
        then some (constant local)
        else if codes "html" == k
        then some (of_text html)
        else if codes "markdown" == k
        then some (of_text (markdown convert))
        else lookup k sprig)
unfolding template_funcs
lookup-template_funcs convert local sprig k = rw (lookup-insert, lookup-insert, lookup-insert) refl
