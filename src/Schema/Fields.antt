-- ===== src/Schema/Fields.antt =====
-- internal/schema/parser.go: the parsing of the values of one field.
use web_form.Prelude.{
  Text, [], ◌∷◌, ◌++◌, ◌&&◌, ◌||◌, not, if◌then◌else◌, Bool, true, false, List, Option, none, some,
  Error, Result, ok, err, codes, wrapped, wrap, new, ◌>>=◌, is_empty,
}
use web_form.Golang.Strings.{trim_space}
use web_form.Golang.Strconv.{parse_int, parse_bool}
use web_form.Golang.Times.{parse_date, parse_date_time}
use web_form.Schema.Types.{
  FieldType, unset, string, integer, float, boolean, date, date_time, other, Field, Value,
  RequestContext, text, int, bits, bool, time,
}
use web_form.Schema.Templates.{Externals, request_string}
pub mod Laws

abbrev pub err_required_field : Error
err_required_field = new (codes "required field not set")

abbrev pub err_wrong_pattern : Error
err_wrong_pattern = new (codes "doesn't match pattern")

-- The parsed value as an `any`.
abbrev pub as_value {ℓ} : {A : Type ℓ} → (A → Value) → Result A → Result Value
as_value f (ok a) = ok (f a)
as_value f (err e) = err e

abbrev pub is_text : FieldType → Bool
is_text unset = true
is_text string = true
is_text _ = false

module _ (ext : Externals) where
  -- `(t Type) Parse`
  unfoldable pub parse_as : FieldType → Text → Text → Result Value
  parse_as string value locale = ok (text value)
  parse_as integer value locale = as_value int (parse_int value)
  parse_as float value locale = as_value bits (ext.parse_float value)
  parse_as boolean value locale = as_value bool (parse_bool value)
  parse_as date value locale = as_value time (parse_date value locale)
  parse_as date_time value locale = as_value time (parse_date_time value locale)
  parse_as unset value locale = ok (text value)
  parse_as (other t) value locale = ok (text value)

  -- What `(f *Field) Parse` does once it has the value or the default.
  unfoldable pub check_value : Field → Text → Text → Result Value
  check_value f value locale =
      if is_empty value && f.required
      then err err_required_field
      else if is_text f.type && not (is_empty f.pattern) && not (ext.match_string f.pattern value)
      then err (wrap (codes "%w: %q") (f.pattern ∷ []) err_wrong_pattern)
      else parse_as f.type value locale

  -- `(f *Field) Parse`
  unfoldable pub parse_field : Field → Text → Text → RequestContext → Result Value
  unfolding check_value
  parse_field f raw locale ctx =
      let value = trim_space raw in
      let defaulted =
        wrapped (codes "render default value: %w") [] (request_string ext f.default ctx) >>= λ v.
        check_value f v locale in
      if is_empty value then defaulted else check_value f value locale

  -- The loop of `parseValues`, with the values parsed so far.
  unfoldable pub parse_values_from :
      List Value → List Text → Field → Text → RequestContext → Result (List Value)
  parse_values_from ans [] f locale ctx = ok ans
  parse_values_from ans (raw ∷ raws) f locale ctx =
      let value = trim_space raw in
      let skipped = parse_values_from ans raws f locale ctx in
      let parsed = parse_field f value locale ctx >>= λ v.
      parse_values_from (ans ++ v ∷ []) raws f locale ctx in
      if is_empty value then skipped else parsed

  -- `parseValues`
  unfoldable pub parse_values : List Text → Field → Text → RequestContext → Result (List Value)
  unfolding parse_values_from
  parse_values values f locale ctx = parse_values_from [] values f locale ctx
