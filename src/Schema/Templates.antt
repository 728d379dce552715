-- ===== src/Schema/Templates.antt =====
-- internal/schema/template.go: templates over an engine that is not in the repository.
use web_form.Prelude.{
  Text, [], ℕ, if◌then◌else◌, Bool, true, false, Option, none, some, Error, Result, ok, err, codes,
}
use web_form.Schema.Types.{Template, Form, RequestContext, NotifyContext}

-- What the program uses of text/template with its functions, of regexp, of strconv's floats and of
-- the time zone database.
pub record Externals : Type 0 where
  -- `template.New("").Funcs(…).Parse`: the error, if any
  pub parse_template : Text → Option Error
  pub execute_request : Text → RequestContext → Result Text
  pub execute_notify : Text → NotifyContext → Result Text
  -- `regexp.MatchString`, false on a pattern that does not compile
  pub match_string : Text → Text → Bool
  pub parse_float : Text → Result ℕ
  pub load_location : Text → Option Text

module _ (ext : Externals) where
  unfoldable pub new_template : Text → Result Template
  new_template text = elim (ext.parse_template text) [
    | some e ↦ err e
    | none ↦ ok (record { valid = true; value = text })
  ]

  -- `none` is a panic.
  unfoldable pub must_template : Text → Option Template
  unfolding new_template
  must_template text = elim (new_template text) [ ok t ↦ some t | err e ↦ none ]

  -- `(t *Template[T]) UnmarshalText`: the new template, or the old one beside an error
  unfoldable pub unmarshal_template : Template → Text → Template × Option Error
  unfolding new_template
  unmarshal_template old text = elim (new_template text) [
    | ok t ↦ (t, none)
    | err e ↦ (old, some e)
  ]

  -- `Bytes` and `String` of a template over the context of a request, or of a notification. No
  -- caller reads what `Bytes` returns beside an error.
  unfoldable pub request_bytes : Template → RequestContext → Result Text
  request_bytes t rc = if t.valid then ext.execute_request t.value rc else ok []

  unfoldable pub request_string : Template → RequestContext → Result Text
  unfolding request_bytes
  request_string t rc = if t.valid then request_bytes t rc else ok []

  unfoldable pub notify_bytes : Template → NotifyContext → Result Text
  notify_bytes t nc = if t.valid then ext.execute_notify t.value nc else ok []

  unfoldable pub notify_string : Template → NotifyContext → Result Text
  unfolding notify_bytes
  notify_string t nc = if t.valid then notify_bytes t nc else ok []

  abbrev pub no_template : Template
  no_template = record { valid = false; value = [] }

  -- `Default`; `none` is a panic.
  unfoldable pub default_form : Option Form
  unfolding must_template
  default_form = elim (must_template (codes "Thank you for the submission!")) [
    | none ↦ none
    | some success ↦ elim (must_template (codes "Something went wrong: `{{.Error}}`")) [
      | none ↦ none
      | some failed ↦ some (record {
        name = [];
        table = [];
        title = [];
        description = no_template;
        fields = [];
        webhooks = [];
        amqp = [];
        success = success;
        failed = failed;
        policy = none;
        codes = [];
      })
    ]
  ]
