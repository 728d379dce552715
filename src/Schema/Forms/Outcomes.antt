-- ===== src/Schema/Forms/Outcomes.antt =====
-- What one field of a submission may come to.
use web_form.Prelude.{
  ◌>>=◌, Text, Text-comparable, [], ◌∷◌, ◌++◌, ◌&&◌, ◌||◌, not, if◌then◌else◌, Bool, true, false,
  List, none, Result, ok, err, is_empty, nonempty, ◌≡◌, ◌≢◌, refl, sym, arith, map, all, elem, All,
  Result-cases, inl, inr, append_assoc, append-nil,
}
use web_form.Utils.Sets.Laws.{has-new_set}
use web_form.Schema.Types.{Field, Choice, Value, Stored, one, many, RequestContext}
use web_form.Schema.Templates.{Externals, request_string}
use web_form.Schema.Fields.{parse_values, check_value}
use web_form.Schema.Fields.Laws.{IsTyped, each, submitted, parse_values-each, parse_values-IsTyped}
use web_form.Schema.Forms.{
  option_texts, option_values, Outcome, set, left_out, ◌or_failed◌, store, input_values,
  checkbox_values, check_options, check_required, process_field,
}

-- The text that an option allows: its value, or its label if it has no value.
abbrev pub option_text : Choice → Text
option_text o = if is_empty o.value then o.label else o.value

option_texts-map :
    (ans : List Text) (opts : List Choice) → option_texts ans opts ≡ ans ++ map option_text opts
unfolding option_texts
option_texts-map ans [] = sym (append-nil ans)
option_texts-map ans (o ∷ opts) =
    rw
      (
        option_texts-map (ans ++ (if not (is_empty o.value) then o.value else o.label) ∷ []) opts,
        append_assoc,
      )
      (ground arith)

-- The values in what is stored for a field.
abbrev pub values_in : Stored → List Value
values_in (one v) = v ∷ []
values_in (many vs) = vs

abbrev pub is_many : Stored → Bool
is_many (one v) = false
is_many (many vs) = true

set-injective : {v w : Stored} → set v ≡ set w → v ≡ w
set-injective h = cc

-- No step leaves a field out by itself.
or_failed-ne {ℓ} :
    {A : Type ℓ} (r : Result A) (k : A → Outcome)
    → ((a : A) → k a ≢ left_out)
    → (r or_failed k) ≢ left_out
or_failed-ne (ok a) k h = h a
or_failed-ne (err e) k h = λ p. cc

or_failed-eq-set {ℓ} :
    {A : Type ℓ} (r : Result A) (k : A → Outcome) {v : Stored}
    → (r or_failed k) ≡ set v
    → (a : A) × (r ≡ ok a) × (k a ≡ set v)
or_failed-eq-set (ok a) k h = (a, refl, h)
or_failed-eq-set (err e) k h = cc

store-eq-set :
    (multiple : Bool) (vs : List Value) {v : Stored}
    → store multiple vs ≡ set v
    → (is_many v ≡ multiple) × (nonempty (values_in v) ≡ nonempty vs)
store-eq-set true vs h = ground arith
store-eq-set false [] h = cc
store-eq-set false (x ∷ vs) h = ground arith

store-All {ℓ} :
    (P : Value → Type ℓ) (multiple : Bool) (vs : List Value) {v : Stored}
    → store multiple vs ≡ set v
    → All P vs
    → All P (values_in v)
store-All P true vs h a = rw (← set-injective h) a
store-All P false [] h a = cc
store-All P false (x ∷ vs) h a = rw (← set-injective h) (a.0, tt)

-- A request with nothing in it.
abbrev blank : RequestContext
blank = record { headers = []; query = []; form = []; code = []; credentials = none }

module _ (ext : Externals) (locale : Text) where
  -- A value that `ParseForm` stores for a field.
  pub record IsAccepted (ctx : RequestContext) (f : Field) (v : Stored) : Type 0 where
    -- the texts that it was parsed from: the input of the user, or the default
    pub raw : List Text
    pub offered : (input_values ext locale ctx f >>= checkbox_values ext locale ctx f) ≡ ok raw
    pub allowed :
        (not (nonempty f.options) || all (λ t. elem t (map option_text f.options)) raw) ≡ true
    pub parsed : List Value
    pub parses : parse_values ext raw f locale ctx ≡ ok parsed
    pub stored : store f.multiple parsed ≡ set v
    pub typed : All (IsTyped locale f.type) (values_in v)
    pub shaped : is_many v ≡ f.multiple
    pub given : (f.required && not (nonempty (values_in v))) ≡ false

  check_options_allowed :
      (ctx : RequestContext) (f : Field) (raw : List Text) {raw' : List Text}
      → check_options ext locale ctx f raw ≡ ok raw'
      → (raw' ≡ raw)
        × ((not (nonempty f.options) || all (λ t. elem t (map option_text f.options)) raw) ≡ true)
  unfolding check_options option_values
  check_options_allowed ctx f raw h =
      ground (arith, has-new_set (option_texts [] f.options) raw, option_texts-map [] f.options)

  check_required_given :
      (ctx : RequestContext) (f : Field) (vs : List Value) {ws : List Value}
      → check_required ext locale ctx f vs ≡ ok ws
      → (ws ≡ vs) × ((f.required && not (nonempty vs)) ≡ false)
  unfolding check_required
  check_required_given ctx f vs h = ground arith

  -- Whatever is stored for a field was parsed from the input of the user or the default, was allowed by
  -- its options, has its type, is a list exactly for a field with `multiple`, and is not empty for a
  -- required field.
  pub process_field-IsAccepted :
      (ctx : RequestContext) (f : Field) {v : Stored}
      → process_field ext locale ctx f ≡ set v
      → IsAccepted ctx f v
  unfolding process_field
  process_field-IsAccepted ctx f {v} h =
      let (raw₀, e₀, h₁) = or_failed-eq-set (input_values ext locale ctx f) _ h in
      let (raw, e₁, h₂) = or_failed-eq-set (checkbox_values ext locale ctx f raw₀) _ h₁ in
      let (raw', e, h₃) = or_failed-eq-set (check_options ext locale ctx f raw) _ h₂ in
      let (parsed, p, h₄) = or_failed-eq-set (parse_values ext raw' f locale ctx) _ h₃ in
      let (given, r, h₅) = or_failed-eq-set (check_required ext locale ctx f parsed) _ h₄ in
      let (same, allows) = check_options_allowed ctx f raw e in
      let (same', needed) = check_required_given ctx f parsed r in
      let (shape, filled) = store-eq-set f.multiple given h₅ in
      record {
        raw = raw';
        offered = simp (e₀, e₁, same);
        allowed = rw same allows;
        parsed = parsed;
        parses = p;
        stored = rw (← same') h₅;
        typed =
            store-All _ f.multiple given h₅
              (rw same' (parse_values-IsTyped ext raw' f locale ctx p));
        shaped = shape;
        given = rw (filled, same') needed;
      }

  checkbox_given :
      (ctx : RequestContext) (f : Field) (v : Text) (vs : List Text)
      → checkbox_values ext locale ctx f (v ∷ vs) ≡ ok (v ∷ vs)
  unfolding checkbox_values
  checkbox_given ctx f v vs = ground arith

  -- What follows the choice of the values of a field reads no more of the request.
  abbrev settle : Field → List Text → Outcome
  settle f raw = check_options ext locale blank f raw or_failed λ allowed.
      each (λ v. check_value ext f v locale) (submitted allowed) or_failed λ parsed.
      check_required ext locale blank f parsed or_failed λ given. store f.multiple given

  process_field-settle :
      (ctx : RequestContext) (f : Field)
      → process_field ext locale ctx f ≡ (
          input_values ext locale ctx f or_failed λ raw.
          checkbox_values ext locale ctx f raw or_failed λ values. settle f values)
  unfolding process_field check_options check_required
  process_field-settle ctx f = simp (parse_values-each ext)

  -- A hidden or disabled field comes to the same with any two contexts in which its default renders
  -- to the same text.
  pub process_field_locked :
      (ctx ctx' : RequestContext) (f : Field)
      → (f.hidden || f.disabled) ≡ true
      → request_string ext f.default ctx ≡ request_string ext f.default ctx'
      → process_field ext locale ctx f ≡ process_field ext locale ctx' f
  unfolding input_values
  process_field_locked ctx ctx' f locked same =
      rw (process_field-settle ctx f, process_field-settle ctx' f, locked, same)
        (elim (Result-cases (request_string ext f.default ctx')) [
          | inl (v, e) ↦ rw (e, checkbox_given ctx f v [], checkbox_given ctx' f v [])
          | inr (x, e) ↦ rw e
        ])

  required-store :
      (ctx : RequestContext) (f : Field) (vs : List Value)
      → f.required ≡ true
      → (check_required ext locale ctx f vs or_failed λ given. store f.multiple given) ≢ left_out
  unfolding check_required
  required-store ctx f [] needed = λ h. ground arith
  required-store ctx f (v ∷ vs) needed = λ h. ground arith

  -- A required field is never left out: it is stored or an error is recorded.
  pub process_field_required :
      (ctx : RequestContext) (f : Field)
      → f.required ≡ true
      → process_field ext locale ctx f ≢ left_out
  unfolding process_field
  process_field_required ctx f needed = or_failed-ne (input_values ext locale ctx f) _ λ raw.
      or_failed-ne (checkbox_values ext locale ctx f raw) _ λ values.
        or_failed-ne (check_options ext locale ctx f values) _ λ allowed.
          or_failed-ne (parse_values ext allowed f locale ctx) _
            λ parsed. required-store ctx f parsed needed
