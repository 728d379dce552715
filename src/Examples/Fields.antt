-- ===== src/Examples/Fields.antt =====
-- The parsing of a form at concrete values.
use mathlib.Core.List.{Memᴰ}
use web_form.Prelude.{
  text_eq, Text, Text-comparable, [], ◌∷◌, ◌&&◌, not, false, List, some, ok, codes, ◌≡◌, refl,
  is_empty,
}
use web_form.Golang.Strings.{trim_space}
use web_form.Golang.Strconv.{parse_int}
use web_form.Utils.Sets.{uniq, uniq_from, put}
use web_form.Prelude.Int.{pos}
use web_form.Prelude.Dict.{lookup, insert}
use web_form.Schema.Types.{Field, one, int, RequestContext}
use web_form.Schema.Templates.{request_string, request_bytes}
use web_form.Schema.Fields.{
  parse_values, parse_values_from, parse_field, parse_as, check_value, is_text,
}
use web_form.Schema.Fields.Laws.{each, submitted, IsTyped, parse_values-each, check_value_sound}
use web_form.Schema.Forms.{
  process_field, parse_form, parse_fields, input_values, checkbox_values, check_options,
  check_required,
}
use web_form.Schema.Forms.Outcomes.{IsAccepted, process_field_locked}
use web_form.Schema.Forms.Laws.{last_set, failures, parse_form_lem, parse_form-IsAccepted}
use web_form.Examples.{plain, age, color, survey, context, stored_values}

abbrev local : Text
local = codes "Local"

abbrev answers : List Text
answers = codes " 41" ∷ codes "" ∷ codes "7" ∷ []

parse_values-each_example :
    parse_values plain answers age local context
    ≡ each (λ v. check_value plain age v local) (submitted answers)
parse_values-each_example = parse_values-each plain answers age local context

accepted_42 : check_value plain age (codes "42") local ≡ ok (int (pos 42))
unfolding check_value parse_as parse_int
accepted_42 = refl

check_value_sound_example :
    ((is_empty (codes "42") && age.required) ≡ false)
    × ((is_text age.type
          && not (is_empty age.pattern)
          && not (plain.match_string age.pattern (codes "42")))
        ≡ false)
    × IsTyped local age.type (int (pos 42))
check_value_sound_example = check_value_sound plain age (codes "42") local accepted_42

abbrev empty_context : RequestContext
empty_context = record context { form = [] }

same_default :
    request_string plain color.default context ≡ request_string plain color.default empty_context
unfolding request_string request_bytes
same_default = refl

process_field_locked_example :
    process_field plain local context color ≡ process_field plain local empty_context color
process_field_locked_example =
    process_field_locked plain local context empty_context color refl same_default

parse_form_lem_example :
    (lookup (codes "age") (parse_form plain local context survey).0
      ≡ last_set plain local context (codes "age") survey.fields)
    × ((parse_form plain local context survey).1 ≡ failures plain local context survey.fields)
parse_form_lem_example = parse_form_lem plain local context survey (codes "age")

parsed_survey : parse_form plain local context survey ≡ (stored_values, [])
unfolding parse_form parse_fields process_field input_values checkbox_values check_options
    check_required request_string request_bytes uniq uniq_from put lookup insert text_eq
    parse_values parse_values_from trim_space parse_field check_value parse_as parse_int
parsed_survey = refl

age_stored :
    lookup (codes "age") (parse_form plain local context survey).0 ≡ some (one (int (pos 42)))
unfolding lookup text_eq
age_stored = rw parsed_survey refl

parse_form-IsAccepted_example :
    (f : Field) × Memᴰ f survey.fields
    × (f.name ≡ codes "age")
    × IsAccepted plain local context f (one (int (pos 42)))
parse_form-IsAccepted_example =
    parse_form-IsAccepted plain local context survey (codes "age") age_stored
