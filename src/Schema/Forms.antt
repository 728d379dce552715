-- ===== src/Schema/Forms.antt =====
-- internal/schema/parser.go: `ParseForm` and `OptionValues`.
pub mod Laws
pub mod Outcomes
use web_form.Prelude.{
  Text, Text-comparable, [], ◌∷◌, ◌++◌, ◌&&◌, ◌||◌, not, if◌then◌else◌, Bool, true, false, List,
  Option, none, some, Error, Result, ok, err, codes, new, ◌>>=◌, is_empty, nonempty,
}
use web_form.Prelude.Dict.{Dict, lookup, insert}
use web_form.Utils.Sets.{uniq, new_set, has}
use web_form.Schema.Types.{
  Form, Field, Choice, FieldType, boolean, Value, Stored, one, many, RequestContext,
}
use web_form.Schema.Templates.{Externals, request_string}
use web_form.Schema.Fields.{parse_values}

-- The loop of `OptionValues`.
unfoldable pub option_texts : List Text → List Choice → List Text
option_texts ans [] = ans
option_texts ans (opt ∷ opts) =
    option_texts (ans ++ (if not (is_empty opt.value) then opt.value else opt.label) ∷ []) opts

unfoldable pub option_values : List Choice → List Text
unfolding option_texts
option_values options = new_set (option_texts [] options)

-- `FieldError`
pub record FieldError : Type 0 where
  pub name : Text
  pub error : Error

-- What a round of the loop of `ParseForm` does: it sets the field, leaves it out, or records an
-- error and goes on.
pub data Outcome : Type 0 where
  set : Stored → Outcome
  left_out : Outcome
  failed : Error → Outcome

-- A step whose error ends the round.
infixl 5 ◌or_failed◌
abbrev pub ◌or_failed◌ {ℓ} : {A : Type ℓ} → Result A → (A → Outcome) → Outcome
ok a or_failed k = k a
err e or_failed k = failed e

abbrev pub is_boolean : FieldType → Bool
is_boolean boolean = true
is_boolean _ = false

-- A missing key of url.Values gives no values.
abbrev pub values_of : Text → Dict (List Text) → List Text
values_of k m = elim (lookup k m) [ none ↦ [] | some vs ↦ vs ]

abbrev pub err_not_allowed : Error
err_not_allowed = new (codes "selected not allowed option")

abbrev pub err_not_provided : Error
err_not_provided = new (codes "required field is not provided")

abbrev pub store : Bool → List Value → Outcome
store true vs = set (many vs)
store false [] = left_out
store false (v ∷ vs) = set (one v)

module _ (ext : Externals) (locale : Text) (ctx : RequestContext) where
  -- The values before parsing: the default of a field that the user cannot reach, or the input.
  unfoldable pub input_values : Field → Result (List Text)
  input_values f =
      if f.hidden || f.disabled
      then request_string ext f.default ctx >>= (λ v. ok (v ∷ []))
      else ok (uniq (values_of f.name ctx.form))

  -- A checkbox that is not selected has the default as its value.
  unfoldable pub checkbox_values : Field → List Text → Result (List Text)
  checkbox_values f values =
      if is_boolean f.type && not (nonempty values) && f.default.valid
      then request_string ext f.default ctx >>= (λ v. ok (values ++ v ∷ []))
      else ok values

  unfoldable pub check_options : Field → List Text → Result (List Text)
  check_options f values =
      if nonempty f.options && not (has (option_values f.options) values)
      then err err_not_allowed
      else ok values

  unfoldable pub check_required : Field → List Value → Result (List Value)
  check_required f parsed =
      if f.required && not (nonempty parsed) then err err_not_provided else ok parsed

  -- A round of the loop of `ParseForm`.
  unfoldable pub process_field : Field → Outcome
  process_field f = input_values f or_failed λ raw. checkbox_values f raw or_failed λ values.
      check_options f values or_failed λ allowed.
      parse_values ext allowed f locale ctx or_failed λ parsed.
      check_required f parsed or_failed λ given. store f.multiple given

  abbrev pub record_outcome :
      Text → Outcome → Dict Stored × List FieldError → Dict Stored × List FieldError
  record_outcome name (set v) (fields, errors) = (insert name v fields, errors)
  record_outcome name left_out (fields, errors) = (fields, errors)
  record_outcome name (failed e) (fields, errors) =
      (fields, errors ++ record { name = name; error = e } ∷ [])

  -- The loop of `ParseForm`.
  unfoldable pub parse_fields :
      List Field → Dict Stored × List FieldError → Dict Stored × List FieldError
  parse_fields [] acc = acc
  parse_fields (f ∷ fs) acc = parse_fields fs (record_outcome f.name (process_field f) acc)

  unfoldable pub parse_form : Form → Dict Stored × List FieldError
  unfolding parse_fields
  parse_form definition = parse_fields definition.fields ([], [])
