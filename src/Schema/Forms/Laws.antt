-- ===== src/Schema/Forms/Laws.antt =====
-- `ParseForm` as a whole: what its two results hold.
use mathlib.Core.List.{Memᴰ}
use web_form.Prelude.{
  Text, Text-comparable, [], ◌∷◌, ◌++◌, if◌then◌else◌, true, List, Option, none, some, ◌≡◌, ◌≢◌,
  ◌==◌, refl, sym, arith, Option-cases, inl, inr, ◌∙◌, append_assoc, append-nil, text_eq_iff,
  text_eq_refl,
}
use web_form.Prelude.Dict.{Dict, lookup, lookup-insert}
use web_form.Schema.Types.{Form, Field, Stored, RequestContext}
use web_form.Schema.Templates.{Externals}
use web_form.Schema.Forms.{
  FieldError, Outcome, set, left_out, failed, process_field, record_outcome, parse_fields,
  parse_form,
}
use web_form.Schema.Forms.Outcomes.{IsAccepted, process_field-IsAccepted, process_field_required}

abbrev pub stored_of : Outcome → Option Stored
stored_of (set v) = some v
stored_of left_out = none
stored_of (failed e) = none

abbrev pub error_of : Text → Outcome → List FieldError
error_of name (failed e) = record { name = name; error = e } ∷ []
error_of name _ = []

abbrev pub or_else {ℓ} : {A : Type ℓ} → Option A → Option A → Option A
or_else (some a) b = some a
or_else none b = b

or_else-none {ℓ} : {A : Type ℓ} (o : Option A) → or_else o none ≡ o
or_else-none none = refl
or_else-none (some a) = refl

or_else-ne_left {ℓ} : {A : Type ℓ} (o p : Option A) → o ≢ none → or_else o p ≢ none
or_else-ne_left none p h = λ e. h refl
or_else-ne_left (some a) p h = λ e. cc

or_else-ne_right {ℓ} : {A : Type ℓ} (o p : Option A) → p ≢ none → or_else o p ≢ none
or_else-ne_right none p h = h
or_else-ne_right (some a) p h = λ e. cc

stored_of-eq-some : (o : Outcome) {v : Stored} → stored_of o ≡ some v → o ≡ set v
stored_of-eq-some (set w) h = ground arith
stored_of-eq-some left_out h = cc
stored_of-eq-some (failed e) h = cc

-- An outcome that is no error and leaves nothing out is stored.
stored_of-ne-none :
    (name : Text) (o : Outcome) (es : List FieldError)
    → error_of name o ++ es ≡ []
    → o ≢ left_out
    → stored_of o ≢ none
stored_of-ne-none name (set v) es h k = λ e. cc
stored_of-ne-none name left_out es h k = λ e. k refl
stored_of-ne-none name (failed x) es h k = λ e. cc

no_error_later :
    (name : Text) (o : Outcome) (es : List FieldError) → error_of name o ++ es ≡ [] → es ≡ []
no_error_later name (set v) es h = h
no_error_later name left_out es h = h
no_error_later name (failed x) es h = cc

module _ (ext : Externals) (locale : Text) (ctx : RequestContext) where
  -- The outcome of the last field of a name that is stored.
  pub last_set : Text → List Field → Option Stored
  last_set k [] = none
  last_set k (f ∷ fs) =
      or_else (last_set k fs)
        (if f.name == k then stored_of (process_field ext locale ctx f) else none)

  -- The errors of the fields that fail, in the order of the definition.
  pub failures : List Field → List FieldError
  failures [] = []
  failures (f ∷ fs) = error_of f.name (process_field ext locale ctx f) ++ failures fs

  lookup-record_outcome :
      (k name : Text) (o : Outcome) (m : Dict Stored) (es : List FieldError)
      → lookup k (record_outcome ext locale ctx name o (m, es)).0
        ≡ or_else (if name == k then stored_of o else none) (lookup k m)
  lookup-record_outcome k name (set v) m es = ground (arith, lookup-insert name k v m)
  lookup-record_outcome k name left_out m es = ground arith
  lookup-record_outcome k name (failed e) m es = ground arith

  lookup-parse_fields :
      (k : Text) (fs : List Field) (acc : Dict Stored × List FieldError)
      → lookup k (parse_fields ext locale ctx fs acc).0 ≡ or_else (last_set k fs) (lookup k acc.0)
  unfolding parse_fields last_set
  lookup-parse_fields k [] acc = refl
  lookup-parse_fields k (f ∷ fs) (m, es) =
      let o = process_field ext locale ctx f in
      ground (
        arith,
        lookup-parse_fields k fs (record_outcome ext locale ctx f.name o (m, es)),
        lookup-record_outcome k f.name o m es,
      )

  record_outcome_errors :
      (name : Text) (o : Outcome) (m : Dict Stored) (es : List FieldError)
      → (record_outcome ext locale ctx name o (m, es)).1 ≡ es ++ error_of name o
  record_outcome_errors name (set v) m es = sym (append-nil es)
  record_outcome_errors name left_out m es = sym (append-nil es)
  record_outcome_errors name (failed e) m es = refl

  parse_fields_errors :
      (fs : List Field) (acc : Dict Stored × List FieldError)
      → (parse_fields ext locale ctx fs acc).1 ≡ acc.1 ++ failures fs
  unfolding parse_fields failures
  parse_fields_errors [] acc = sym (append-nil acc.1)
  parse_fields_errors (f ∷ fs) (m, es) =
      let o = process_field ext locale ctx f in
      rw (
        parse_fields_errors fs (record_outcome ext locale ctx f.name o (m, es)),
        record_outcome_errors f.name o m es,
        append_assoc,
      )

  -- ParseForm treats every field by itself, also after an error: a name has the value of the last
  -- field of that name that is stored, and the errors are those of the failing fields in order.
  pub parse_form_lem :
      (d : Form) (k : Text)
      → (lookup k (parse_form ext locale ctx d).0 ≡ last_set k d.fields)
        × ((parse_form ext locale ctx d).1 ≡ failures d.fields)
  unfolding parse_form lookup
  parse_form_lem d k = (
    lookup-parse_fields k d.fields ([], []) ∙ or_else-none (last_set k d.fields),
    parse_fields_errors d.fields ([], []),
  )

  last_set_source :
      (k : Text) (fs : List Field) {v : Stored}
      → last_set k fs ≡ some v
      → (f : Field) × Memᴰ f fs × (f.name ≡ k) × (process_field ext locale ctx f ≡ set v)
  unfolding last_set
  last_set_source k [] h = cc
  last_set_source k (f ∷ fs) {v} h = elim (Option-cases (last_set k fs)) [
    | inl nothing ↦
        let h' : (if f.name == k then stored_of (process_field ext locale ctx f) else none)
            ≡ some v =
          rw nothing at h in
        (
          f,
          Memᴰ.head refl,
          ground (arith, text_eq_iff f.name k),
          stored_of-eq-some (process_field ext locale ctx f) (ground arith),
        )
    | inr (w, later) ↦
        let (g, m, e, p) = last_set_source k fs later in
        (g, Memᴰ.tail m, e, p ∙ ground (arith, later))
  ]

  -- Whatever ParseForm stores under a name was accepted by a field of the definition with that
  -- name: parsed from the input of the user or the default, allowed by its options, of its type,
  -- and one or many as the field says; a name of the request that is no field is never stored.
  pub parse_form-IsAccepted :
      (d : Form) (k : Text) {v : Stored}
      → lookup k (parse_form ext locale ctx d).0 ≡ some v
      → (f : Field) × Memᴰ f d.fields × (f.name ≡ k) × IsAccepted ext locale ctx f v
  parse_form-IsAccepted d k h =
      let (f, m, e, p) = last_set_source k d.fields (sym (parse_form_lem d k).0 ∙ h) in
      (f, m, e, process_field-IsAccepted ext locale ctx f p)

  last_set_present :
      (f : Field) (fs : List Field)
      → failures fs ≡ []
      → Memᴰ f fs
      → f.required ≡ true
      → last_set f.name fs ≢ none
  unfolding last_set failures
  last_set_present f [] h m r = elim m [ ]
  last_set_present f (g ∷ fs) h (Memᴰ.head e) r = or_else-ne_right (last_set f.name fs) _ (
      rw (e, text_eq_refl)
        (stored_of-ne-none g.name (process_field ext locale ctx g) (failures fs) h
          (process_field_required ext locale ctx g (rw (← e) r))))
  last_set_present f (g ∷ fs) h (Memᴰ.tail m) r = or_else-ne_left (last_set f.name fs) _ (
      last_set_present f fs (no_error_later g.name (process_field ext locale ctx g) (failures fs) h)
        m r)

  -- When ParseForm gives no error, every required field of the definition has a value.
  pub parse_form_required :
      (d : Form) (f : Field)
      → (parse_form ext locale ctx d).1 ≡ []
      → Memᴰ f d.fields
      → f.required ≡ true
      → lookup f.name (parse_form ext locale ctx d).0 ≢ none
  parse_form_required d f h m r e =
      last_set_present f d.fields (sym (parse_form_lem d f.name).1 ∙ h) m r
        (sym (parse_form_lem d f.name).0 ∙ e)
