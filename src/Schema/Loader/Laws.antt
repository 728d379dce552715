-- ===== src/Schema/Loader/Laws.antt =====
-- Which forms the loader returns, and their names.
use web_form.Prelude.{
  Text, Text-comparable, [], ◌∷◌, ◌++◌, ◌||◌, not, Bool, true, false, List, none, Result, ok, err,
  codes, wrapped, map, ◌≡◌, ◌≢◌, ◌↔◌, refl, sym, arith, All, Option-cases, Result-cases, Bool-cases,
  inl, inr, ◌⊎◌, ◌∙◌, >>=-eq-ok, ok-injective, append_assoc, append-nil,
}
use web_form.Golang.Strings.{to_lower}
use web_form.Golang.Paths.{ext}
use web_form.Schema.Types.{Form}
use web_form.Schema.Loader.{
  Document, Entry, is_config, fill_names, stem, forms_from_stream, forms_from_file, visit, walk,
  forms_from_fs,
}

-- A form that has its names, and keeps those that its document gives.
abbrev pub IsNamed : Form → Type 0
IsNamed f = (f.name ≢ []) × (f.table ≢ [])

fill_names-IsNamed : (name : Text) (form : Form) → name ≢ [] → IsNamed (fill_names name form)
unfolding fill_names
fill_names-IsNamed name form h = ground arith

map-IsNamed :
    (name : Text) (forms : List Form) → name ≢ [] → All IsNamed (map (fill_names name) forms)
map-IsNamed name [] h = tt
map-IsNamed name (f ∷ fs) h = (fill_names-IsNamed name f h, map-IsNamed name fs h)

wrapped-eq-ok {ℓ} :
    {A : Type ℓ} (t : Text) (args : List Text) (r : Result A) {a : A}
    → wrapped t args r ≡ ok a
    → r ≡ ok a
wrapped-eq-ok t args (ok b) h = h
wrapped-eq-ok t args (err e) h = cc

module _ (open_file : Text → Result (List Document)) (blank : Form) where
  -- Every form of a file that is read without an error has a name and a table, unless the file has
  -- no name but its extension.
  pub forms_from_file-IsNamed :
      (file : Text) {forms : List Form}
      → stem file ≢ []
      → forms_from_file open_file blank file ≡ ok forms
      → All IsNamed forms
  unfolding forms_from_file
  forms_from_file-IsNamed file h e =
      let (docs, _, e₁) = >>=-eq-ok (wrapped (codes "open: %w") [] (open_file file)) _ e in
      let (raw, _, e₂) =
        >>=-eq-ok (wrapped (codes "read %q: %w") (file ∷ []) (forms_from_stream blank docs)) _ e₁ in
      rw (← ok-injective e₂) (map-IsNamed (stem file) raw h)

  -- A walk without an error, and the forms of its files with a known extension, in order.
  pub data Loads : List Entry → List Form → Type 0 where
    done : Loads [] []
    skipped :
        {e : Entry} {es : List Entry} {forms : List Form}
        → e.error ≡ none
        → (e.is_dir || not (is_config (to_lower (ext e.path)))) ≡ true
        → Loads es forms
        → Loads (e ∷ es) forms
    loaded :
        {e : Entry} {es : List Entry} {found forms all : List Form}
        → e.error ≡ none
        → (e.is_dir || not (is_config (to_lower (ext e.path)))) ≡ false
        → forms_from_file open_file blank e.path ≡ ok found
        → Loads es forms
        → all ≡ found ++ forms
        → Loads (e ∷ es) all

  abbrev skips : Entry → Bool
  skips e = e.is_dir || not (is_config (to_lower (ext e.path)))

  visit_skipped :
      (before : List Form) (e : Entry)
      → e.error ≡ none
      → skips e ≡ true
      → visit open_file blank before e ≡ ok before
  unfolding visit
  visit_skipped before e h s = rw (h, s)

  visit_loaded :
      (before : List Form) (e : Entry) {found : List Form}
      → e.error ≡ none
      → skips e ≡ false
      → forms_from_file open_file blank e.path ≡ ok found
      → visit open_file blank before e ≡ ok (before ++ found)
  unfolding visit
  visit_loaded before e h s f = rw (h, s, f)

  visit-eq-ok :
      (before : List Form) (e : Entry) {after : List Form}
      → visit open_file blank before e ≡ ok after
      → (e.error ≡ none)
        × ((skips e ≡ true) × (after ≡ before)
            ⊎ ((skips e ≡ false)
                × ((found : List Form) × (forms_from_file open_file blank e.path ≡ ok found)
                    × (after ≡ before ++ found))))
  unfolding visit
  visit-eq-ok before e h = elim (Option-cases e.error) [
    | inr (x, bad) ↦ absurd (ground arith)
    | inl fine ↦ (
      fine,
      elim (Bool-cases (skips e)) [
        | inl s ↦ inl (s, ground arith)
        | inr s ↦ elim (Result-cases (forms_from_file open_file blank e.path)) [
          | inl (found, f) ↦ inr (s, (found, f, ground arith))
          | inr (x, f) ↦ absurd (ground arith)
        ]
      ],
    )
  ]

  walk-Loads :
      (entries : List Entry) (before : List Form) {forms : List Form}
      → walk open_file blank before entries ≡ ok forms
      → (own : List Form) × (forms ≡ before ++ own) × Loads entries own
  unfolding walk
  walk-Loads [] before h = ([], sym (ok-injective h) ∙ sym (append-nil before), done)
  walk-Loads (e ∷ es) before h =
      let (after, v, later) = >>=-eq-ok (visit open_file blank before e) _ h in
      let (own, same, l) = walk-Loads es after later in
      let (fine, cases) = visit-eq-ok before e v in
      elim cases [
        | inl (s, unchanged) ↦ (own, rw unchanged at same, skipped fine s l)
        | inr (s, (found, f, longer)) ↦
            (found ++ own, same ∙ rw (longer, append_assoc), loaded fine s f l refl)
      ]

  Loads-walk :
      {entries : List Entry} {own : List Form}
      → Loads entries own
      → (before : List Form) → walk open_file blank before entries ≡ ok (before ++ own)
  unfolding walk
  Loads-walk done before = rw append-nil
  Loads-walk (skipped {e} fine s l) before =
      rw (visit_skipped before e fine s) (Loads-walk l before)
  Loads-walk (loaded {e} {found} fine s f l eq) before =
      rw (visit_loaded before e fine s f, eq, Loads-walk l (before ++ found), append_assoc)

  -- FormsFromFS returns forms exactly when the walk and every file with a known extension have no
  -- error; they are the forms of these files, in the order of the walk.
  pub forms_from_fs_iff :
      (entries : List Entry) (forms : List Form)
      → (forms_from_fs open_file blank entries ≡ ok forms) ↔ Loads entries forms
  unfolding forms_from_fs
  forms_from_fs_iff entries forms = (
    λ h. let (own, e, l) = walk-Loads entries [] (wrapped-eq-ok _ _ _ h) in rw e l,
    λ l. rw (Loads-walk l []),
  )
