-- ===== src/Engine/Serve/Stored.antt =====
-- What reaches the storage, from the request to the definition of its form.
use mathlib.Core.List.{Memᴰ}
use web_form.Prelude.{
  is_given, Text, [], ◌∷◌, ◌++◌, ◌||◌, not, true, List, Option, none, some, ◌≡◌, ◌≢◌, refl, ap,
  Bool-cases, inl, inr, All,
}
use web_form.Prelude.Dict.{Dict, lookup}
use web_form.Schema.Types.{Form, Field, Stored, RequestContext}
use web_form.Schema.Templates.{Externals}
use web_form.Schema.Forms.{parse_form}
use web_form.Schema.Forms.Outcomes.{IsAccepted}
use web_form.Schema.Forms.Laws.{parse_form-IsAccepted, parse_form_required}
use web_form.Engine.Config.{FormConfig, Platform, Serving, Destination}
use web_form.Engine.Serve.{serve}
use web_form.Engine.Serve.Admission.{serve_stores}

module _ (ext : Externals) (d : Form) where
  -- What a map of values has under a name: nothing, or what a field of that name accepted.
  abbrev pub Fits : Text → RequestContext → Text → Option Stored → Type 0
  Fits loc ctx name none = Unit
  Fits loc ctx name (some v) =
      (f : Field) × Memᴰ f d.fields × (f.name ≡ name) × IsAccepted ext loc ctx f v

  -- Values that conform to the definition, for a context.
  pub record Conforms (loc : Text) (ctx : RequestContext) (values : Dict Stored) : Type 0 where
    pub fitting : (name : Text) → Fits loc ctx name (lookup name values)
    pub complete : All (λ f. (not f.required || is_given (lookup f.name values)) ≡ true) d.fields

  given_by : (o : Option Stored) → o ≢ none → is_given o ≡ true
  given_by none h = absurd (h refl)
  given_by (some v) h = refl

  holds_for :
      (loc : Text) (ctx : RequestContext) (name : Text) (o : Option Stored)
      → ((v : Stored)
          → o ≡ some v
          → (f : Field) × Memᴰ f d.fields × (f.name ≡ name) × IsAccepted ext loc ctx f v)
      → Fits loc ctx name o
  holds_for loc ctx name none h = tt
  holds_for loc ctx name (some v) h = h v refl

  complete_below :
      (values : Dict Stored) (fs : List Field)
      → ((f : Field) → Memᴰ f fs → f.required ≡ true → lookup f.name values ≢ none)
      → All (λ f. (not f.required || is_given (lookup f.name values)) ≡ true) fs
  complete_below values [] h = tt
  complete_below values (f ∷ fs) h = (
    elim (Bool-cases f.required) [
      | inl needed ↦ rw (needed, given_by (lookup f.name values) (h f (Memᴰ.head refl) needed)) refl
      | inr free ↦ rw free refl
    ],
    complete_below values fs (λ g m r. h g (Memᴰ.tail m) r),
  )

  parse_form-Conforms :
      (loc : Text) (ctx : RequestContext) {values : Dict Stored}
      → parse_form ext loc ctx d ≡ (values, [])
      → Conforms loc ctx values
  parse_form-Conforms loc ctx {values} h = record {
    fitting = λ name.
        holds_for loc ctx name (lookup name values)
          (λ v e. parse_form-IsAccepted ext loc ctx d name (rw h e));
    complete = complete_below values d.fields (λ f m r.
        rw (← ap (λ o. o.0) h) (parse_form_required ext loc ctx d f (ap (λ o. o.1) h) m r));
  }

-- If the storage is called for a request, it is called once, with values that conform to the
-- definition of the form for the body and the credentials of the request: whatever stands under a
-- name was parsed, from the input of the user or the default, by a field of that name, was allowed
-- by its options and has its type, and every required field has a value.
pub serve_stores-Conforms :
    (p : Platform) (fr : FormConfig) (ds : List Destination) (s : Serving)
    → (serve p fr ds s).stores ≢ s.stores
    → (values : Dict Stored) × ((serve p fr ds s).stores
        ≡ s.stores ++ (fr.definition.table, values) ∷ [])
      × ((loc : Text) × ((ctx : RequestContext) × (ctx.form ≡ s.request.request.post_form)
            × (ctx.credentials ≡ s.request.creds)
            × Conforms p.externals fr.definition loc ctx values))
serve_stores-Conforms p fr ds s h =
    let (_, (values, parsed, stored)) = serve_stores p fr ds s h in
    (
      values,
      stored,
      (
        parsed.loc,
        (
          parsed.ctx,
          parsed.from_body,
          parsed.by_user,
          parse_form-Conforms p.externals fr.definition parsed.loc parsed.ctx parsed.parses,
        ),
      ),
    )
