-- ===== src/Schema/Fields/Laws.antt =====
-- `parseValues` against its specification, and what a parsed value is.
use web_form.Prelude.{
  Text, [], ◌∷◌, ◌++◌, ◌&&◌, not, false, List, Result, ok, err, ◌>>=◌, is_empty, ◌≡◌, refl, sym,
  arith, keep, map, append_assoc, append-nil, ◌≤◌, ◌<◌, ◌^◌, Bool-cases, inl, inr, All,
  Result-cases, ok-injective, >>=-eq-ok, ◌∙◌,
}
use web_form.Prelude.Int.{pos_part, neg_part}
use web_form.Golang.Strings.{trim_space, trim_space_idempotent}
use web_form.Golang.Strconv.{parse_int_bounds}
use web_form.Golang.Times.{parse_date-IsTime, parse_date_time-IsTime, IsTime}
use web_form.Schema.Types.{
  FieldType, unset, string, integer, float, boolean, date, date_time, other, Field, Value,
  RequestContext, text, int, bits, bool, time,
}
use web_form.Schema.Templates.{Externals}
use web_form.Schema.Fields.{
  parse_as, check_value, parse_field, parse_values_from, parse_values, as_value, is_text,
}

-- The values that are not blank, trimmed, in order.
abbrev pub submitted : List Text → List Text
submitted raws = keep (λ v. not (is_empty v)) (map trim_space raws)

-- Every result, or the first error.
abbrev pub each {ℓ κ} : {A : Type ℓ} {B : Type κ} → (A → Result B) → List A → Result (List B)
each f [] = ok []
each f (x ∷ xs) = f x >>= λ y. each f xs >>= λ ys. ok (y ∷ ys)

-- What a value of a type may be: integers of 64 bits, dates and times that exist, in the location.
abbrev pub IsTyped : Text → FieldType → Value → Type 0
IsTyped locale integer (int z) = (pos_part z < 2 ^ 63) × (neg_part z ≤ 2 ^ 63)
IsTyped locale float (bits b) = Unit
IsTyped locale boolean (bool b) = Unit
IsTyped locale date (time t) = IsTime locale t × (t.hour ≡ 0) × (t.minute ≡ 0)
IsTyped locale date_time (time t) = IsTime locale t
IsTyped locale unset (text t) = Unit
IsTyped locale string (text t) = Unit
IsTyped locale (other name) (text t) = Unit
IsTyped _ _ _ = ⊥

abbrev push {ℓ} : {A : Type ℓ} → List A → Result (List A) → Result (List A)
push ans r = r >>= λ ys. ok (ans ++ ys)

push-push :
    (ans : List Value) (v : Value) (r : Result (List Value))
    → push (ans ++ v ∷ []) r ≡ push ans (r >>= λ ys. ok (v ∷ ys))
push-push ans v (ok ys) = rw append_assoc
push-push ans v (err e) = refl

push-nil : (r : Result (List Value)) → push [] r ≡ r
push-nil (ok ys) = refl
push-nil (err e) = refl

as_value-eq-ok {ℓ} :
    {A : Type ℓ} (f : A → Value) (r : Result A) {x : Value}
    → as_value f r ≡ ok x
    → (a : A) × (r ≡ ok a) × (x ≡ f a)
as_value-eq-ok f (ok a) h = (a, refl, sym (ok-injective h))
as_value-eq-ok f (err e) h = cc

module _ (ext : Externals) where
  parse_field_given :
      (f : Field) (raw locale : Text) (ctx : RequestContext)
      → is_empty (trim_space raw) ≡ false
      → parse_field ext f (trim_space raw) locale ctx ≡ check_value ext f (trim_space raw) locale
  unfolding parse_field
  parse_field_given f raw locale ctx h = rw (trim_space_idempotent, h)

  parse_values_from-each :
      (ans : List Value) (raws : List Text) (f : Field) (locale : Text) (ctx : RequestContext)
      → parse_values_from ext ans raws f locale ctx
        ≡ push ans (each (λ v. check_value ext f v locale) (submitted raws))
  unfolding parse_values_from
  parse_values_from-each ans [] f locale ctx = rw append-nil
  parse_values_from-each ans (raw ∷ raws) f locale ctx =
      elim (Bool-cases (is_empty (trim_space raw))) [
        | inl blank ↦ rw blank (parse_values_from-each ans raws f locale ctx)
        | inr given ↦
            rw (given, parse_field_given f raw locale ctx given)
              (elim (Result-cases (check_value ext f (trim_space raw) locale)) [
                | inl (v, e) ↦ rw e (
                    parse_values_from-each (ans ++ v ∷ []) raws f locale ctx
                    ∙ push-push ans v (each (λ t. check_value ext f t locale) (submitted raws)))
                | inr (x, e) ↦ rw e
              ])
      ]

  -- The values of a field are those submitted that are not blank, trimmed, in order, each one
  -- checked and parsed by itself, and the first error is the result; neither the default of the
  -- field nor the rest of the request has a part in it.
  pub parse_values-each :
      (raws : List Text) (f : Field) (locale : Text) (ctx : RequestContext)
      → parse_values ext raws f locale ctx ≡ each (λ v. check_value ext f v locale) (submitted raws)
  unfolding parse_values
  parse_values-each raws f locale ctx =
      parse_values_from-each [] raws f locale ctx
      ∙ push-nil (each (λ v. check_value ext f v locale) (submitted raws))

  parse_as-IsTyped :
      (t : FieldType) (v locale : Text) {x : Value}
      → parse_as ext t v locale ≡ ok x
      → IsTyped locale t x
  unfolding parse_as
  parse_as-IsTyped integer v locale h =
      let (z, e, same) = as_value-eq-ok int _ h in rw same (parse_int_bounds v e)
  parse_as-IsTyped float v locale h = let (z, e, same) = as_value-eq-ok bits _ h in rw same tt
  parse_as-IsTyped boolean v locale h = let (z, e, same) = as_value-eq-ok bool _ h in rw same tt
  parse_as-IsTyped date v locale h =
      let (t, e, same) = as_value-eq-ok time _ h in rw same (parse_date-IsTime v locale e)
  parse_as-IsTyped date_time v locale h =
      let (t, e, same) = as_value-eq-ok time _ h in rw same (parse_date_time-IsTime v locale e)
  parse_as-IsTyped string v locale h = rw (← ok-injective h) tt
  parse_as-IsTyped unset v locale h = rw (← ok-injective h) tt
  parse_as-IsTyped (other name) v locale h = rw (← ok-injective h) tt

  check_value-eq-ok :
      (f : Field) (v locale : Text) {x : Value}
      → check_value ext f v locale ≡ ok x
      → parse_as ext f.type v locale ≡ ok x
  unfolding check_value
  check_value-eq-ok f v locale h = ground arith

  -- A value that a field accepts is not empty if the field is required, matches the pattern of a
  -- text field, and has the type of the field: integers of 64 bits, and dates and times that exist.
  pub check_value_sound :
      (f : Field) (v locale : Text) {x : Value}
      → check_value ext f v locale ≡ ok x
      → ((is_empty v && f.required) ≡ false)
        × ((is_text f.type && not (is_empty f.pattern) && not (ext.match_string f.pattern v))
            ≡ false)
        × IsTyped locale f.type x
  unfolding check_value
  check_value_sound f v locale h = (
    ground arith,
    ground arith,
    parse_as-IsTyped f.type v locale (check_value-eq-ok f v locale h),
  )

  each-IsTyped :
      (f : Field) (locale : Text) (vs : List Text) {xs : List Value}
      → each (λ v. check_value ext f v locale) vs ≡ ok xs
      → All (IsTyped locale f.type) xs
  each-IsTyped f locale [] h = rw (← ok-injective h) tt
  each-IsTyped f locale (v ∷ vs) {xs = zs} h =
      let (x, e, rest) = >>=-eq-ok _ _ h in
      let (xs, e', last) = >>=-eq-ok _ _ rest in
      let same : x ∷ xs ≡ zs = ok-injective last in
      rw (← same) ((check_value_sound f v locale e).2, each-IsTyped f locale vs e')

  pub parse_values-IsTyped :
      (raws : List Text) (f : Field) (locale : Text) (ctx : RequestContext) {xs : List Value}
      → parse_values ext raws f locale ctx ≡ ok xs
      → All (IsTyped locale f.type) xs
  parse_values-IsTyped raws f locale ctx h =
      each-IsTyped f locale (submitted raws) (rw (parse_values-each raws f locale ctx) at h)
