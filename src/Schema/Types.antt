-- ===== src/Schema/Types.antt =====
-- internal/schema/types.go and the context types of template.go: the data of a form.
use web_form.Prelude.{
  Text, Text-comparable, [], ◌∷◌, ℕ, if◌then◌else◌, Bool, true, false, List, Option, none, some,
  Error, Result, ok, err, wrap, new, codes, ◌==◌, is_empty,
}
use web_form.Prelude.Int.{ℤ}
use web_form.Prelude.Dict.{Dict}
use web_form.Golang.Times.{Time}

-- `Type`; `unset` is the empty string, and `other` any string that is no constant.
pub data FieldType : Type 0 where
  unset string integer float boolean date date_time : FieldType
  other : Text → FieldType

-- The string of a type.
abbrev pub text_of : FieldType → Text
text_of unset = []
text_of string = codes "string"
text_of integer = codes "integer"
text_of float = codes "float"
text_of boolean = codes "boolean"
text_of date = codes "date"
text_of date_time = codes "date-time"
text_of (other t) = t

-- The conversion `Type(text)`.
unfoldable pub type_of : Text → FieldType
type_of t =
    if is_empty t
    then unset
    else if t == codes "string"
    then string
    else if t == codes "integer"
    then integer
    else if t == codes "float"
    then float
    else if t == codes "boolean"
    then boolean
    else if t == codes "date"
    then date
    else if t == codes "date-time"
    then date_time
    else other t

abbrev is_number : FieldType → Bool
is_number integer = true
is_number float = true
is_number _ = false

abbrev is_same : FieldType → Text → Bool
is_same unset value = value == codes "string"
is_same t value = value == text_of t

-- `(t Type) Is`
unfoldable pub type_is : FieldType → Text → Bool
type_is t value = if value == codes "number" then is_number t else is_same t value

abbrev pub err_invalid_type : Error
err_invalid_type = new (codes "field type invalid")

-- The `switch` of `(t *Type) UnmarshalText`.
abbrev accept_type : Text → FieldType → Result FieldType
accept_type text unset = ok string
accept_type text (other t) = err (wrap (codes "field type %q: %w") (text ∷ []) err_invalid_type)
accept_type text t = ok t

unfoldable pub unmarshal_type : Text → Result FieldType
unfolding type_of
unmarshal_type text = accept_type text (type_of text)

-- `Template[T]`: the parsed template is known by its source.
pub record Template : Type 0 where
  pub valid : Bool
  pub value : Text

-- `Option` of a field.
pub record Choice : Type 0 where
  pub label : Text
  pub value : Text

pub record Field : Type 0 where
  pub name : Text
  pub label : Text
  pub description : Text
  pub required : Bool
  pub disabled : Bool
  pub hidden : Bool
  pub default : Template
  pub type : FieldType
  pub pattern : Text
  pub options : List Choice
  pub multiple : Bool
  pub multiline : Bool
  pub icon : Text

-- Durations are in nanoseconds.
pub record Webhook : Type 0 where
  pub url : Text
  pub method : Text
  pub retry : ℤ
  pub timeout : ℤ
  pub interval : ℤ
  pub headers : Option (Dict Text)
  pub message : Template

pub record Amqp : Type 0 where
  pub exchange : Text
  pub key : Template
  pub retry : ℤ
  pub timeout : ℤ
  pub interval : ℤ
  pub headers : Dict Text
  pub type : Text
  pub correlation : Template
  pub id : Template
  pub message : Template

pub record Credentials : Type 0 where
  pub user : Text
  pub groups : List Text
  pub email : Text

-- `Policy`: what evaluating the compiled program on the variables user, email and groups gives, as
-- far as `IsAllowed` looks: an error, no Boolean, or a Boolean.
pub record Policy : Type 0 where
  pub eval : Text → Text → List Text → Result (Option Bool)

pub record Form : Type 0 where
  pub name : Text
  pub table : Text
  pub title : Text
  pub description : Template
  pub fields : List Field
  pub webhooks : List Webhook
  pub amqp : List Amqp
  pub success : Template
  pub failed : Template
  pub policy : Option Policy
  pub codes : List Text

-- A parsed value of a field; a float is known by its bits.
pub data Value : Type 0 where
  text : Text → Value
  int : ℤ → Value
  bits : ℕ → Value
  bool : Bool → Value
  time : Time → Value

-- What a map of fields holds at a name.
pub data Stored : Type 0 where
  one : Value → Stored
  many : List Value → Stored

pub record RequestContext : Type 0 where
  pub headers : Dict (List Text)
  pub query : Dict (List Text)
  pub form : Dict (List Text)
  pub code : Text
  pub credentials : Option Credentials

pub record NotifyContext : Type 0 where
  pub form : Form
  pub result : Dict Stored

pub record ResultContext : Type 0 where
  pub form : Form
  pub result : Dict Stored
  pub error : Option Error

-- `User`, `Groups` and `Email` of a request context.
unfoldable pub user : RequestContext → Text
user rc = elim rc.credentials [ none ↦ [] | some c ↦ c.user ]

unfoldable pub groups : RequestContext → List Text
groups rc = elim rc.credentials [ none ↦ [] | some c ↦ c.groups ]

unfoldable pub email : RequestContext → Text
email rc = elim rc.credentials [ none ↦ [] | some c ↦ c.email ]
