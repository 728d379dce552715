-- ===== src/Engine/Server/Laws.antt =====
-- Which handlers the mux has, and which forms the list shows.
use web_form.Prelude.{
  Text, Text-comparable, [], ◌∷◌, ◌++◌, not, if◌then◌else◌, Bool, true, false, List, Option, none,
  some, ok, ◌≡◌, ◌↔◌, refl, sym, arith, map, elem, distinct, keep, all, append_assoc, append-nil,
  ap, ◌∙◌, Option, Option-cases, Result, err, Bool-cases, inl, inr, text_eq_iff, ◌&&◌,
}
use web_form.Utils.Sets.{has, add, new_set}
use web_form.Utils.Sets.Laws.{elem-add}
use web_form.Schema.Types.{Form, Credentials}
use web_form.Schema.Access.{is_allowed}
use web_form.Engine.Config.{
  FormOption, FormHandler, FormConfig, Destination, handler_of, new_form, apply_options,
}
use web_form.Engine.Server.{
  Config, form_config, Mounted, at_path, mounted_of, patterns, form_path, mount_loop, Mux, mux_of,
  new_mux, allowed_loop, allowed_forms,
}

-- No name is used before, and none twice.
abbrev pub fresh_names : List Text → List Form → Bool
fresh_names used [] = true
fresh_names used (f ∷ fs) =
    (if elem f.name used then false else true) && fresh_names (add used (f.name ∷ [])) fs

-- Chi takes every pattern beside those before it.
abbrev pub takes_all : (List Text → Text → Bool) → List Text → List Text → Bool
takes_all takes seen [] = true
takes_all takes seen (p ∷ ps) = takes seen p && takes_all takes (seen ++ p ∷ []) ps

abbrev pub paths : List Form → List Text
paths forms = map (λ f. form_path f.name) forms

pub at_path-path :
    (path : Text) (h : Option FormHandler) {m : Mounted} → at_path path h ≡ some m → m.0 ≡ path
at_path-path path none e = cc
at_path-path path (some h) e = cc

handler_of-config :
    (fr : FormConfig) (o : Option (List Destination)) (path : Text) {m : Mounted}
    → at_path path (handler_of fr o) ≡ some m
    → m.1.config ≡ fr
handler_of-config fr none path e = cc
handler_of-config fr (some ds) path {m} e =
    let same : (path, record { config = fr; made = ds }) ≡ m = cc in ap (λ x. x.1.config) (sym same)

pub mounted_of-config :
    (cfg : Config) (options : List FormOption) (form : Form) {m : Mounted}
    → mounted_of cfg options form ≡ some m
    → m.1.config ≡ apply_options options (form_config cfg form)
unfolding new_form
mounted_of-config cfg options form = handler_of-config _ _ (form_path form.name)

pub patterns-snoc :
    (mux : List Mounted) (m : Mounted) (path : Text)
    → m.0 ≡ path
    → patterns (mux ++ m ∷ []) ≡ patterns mux ++ path ∷ []
patterns-snoc [] m path e = ap (λ p. p ∷ []) e
patterns-snoc (x ∷ xs) m path e = ap (λ l. x.0 ∷ l) (patterns-snoc xs m path e)

module _ (takes : List Text → Text → Bool) (cfg : Config) (options : List FormOption) where
  -- The handlers of the forms, if every one can be made.
  abbrev pub AreMounted : List Form → List Mounted → Type 0
  AreMounted forms ms = map (mounted_of cfg options) forms ≡ map some ms

  mount_loop-made :
      (used : List Text) (mux more : List Mounted) (forms : List Form)
      → fresh_names used forms ≡ true
      → takes_all takes (patterns mux) (paths forms) ≡ true
      → AreMounted forms more
      → mount_loop takes cfg options used mux forms ≡ some (ok (mux ++ more))
  unfolding mount_loop has
  mount_loop-made used mux [] [] h t q = rw append-nil refl
  mount_loop-made used mux (m ∷ ms) [] h t q = cc
  mount_loop-made used mux [] (f ∷ fs) h t q = cc
  mount_loop-made used mux (m ∷ ms) (f ∷ fs) h t q =
      let unused : elem f.name used ≡ false = ground arith in
      let later : fresh_names (add used (f.name ∷ [])) fs ≡ true = ground arith in
      let here : mounted_of cfg options f ≡ some m = cc in
      let rest : AreMounted fs ms = cc in
      let path = at_path-path (form_path f.name) _ here in
      let taken : takes (patterns mux) (form_path f.name) ≡ true = ground arith in
      let others : takes_all takes (patterns mux ++ form_path f.name ∷ []) (paths fs) ≡ true =
        ground arith in
      rw (unused, here, taken)
        (mount_loop-made (add used (f.name ∷ [])) (mux ++ m ∷ []) ms fs later
            (rw (patterns-snoc mux m (form_path f.name) path) others) rest
          ∙ rw append_assoc refl)

  mount_loop-eq-ok :
      (used : List Text) (mux : List Mounted) (forms : List Form) {made : List Mounted}
      → mount_loop takes cfg options used mux forms ≡ some (ok made)
      → (fresh_names used forms ≡ true)
        × (takes_all takes (patterns mux) (paths forms) ≡ true)
        × ((more : List Mounted) × (made ≡ mux ++ more) × AreMounted forms more)
  unfolding mount_loop has
  mount_loop-eq-ok used mux [] h = (refl, refl, ([], cc (append-nil mux), refl))
  mount_loop-eq-ok used mux (f ∷ fs) {made} h = elim (Bool-cases (elem f.name used)) [
    | inl twice ↦ absurd (ground arith)
    | inr unused ↦ elim (Option-cases (mounted_of cfg options f)) [
      | inl failed ↦ absurd (ground arith)
      | inr (m, here) ↦ elim (Bool-cases (takes (patterns mux) (form_path f.name))) [
        | inr refused ↦ absurd (ground arith)
        | inl taken ↦
            let next : mount_loop takes cfg options (add used (f.name ∷ [])) (mux ++ m ∷ []) fs
                ≡ some (ok made) =
              ground arith in
            let (fresh, others, (more, e, rest)) =
              mount_loop-eq-ok (add used (f.name ∷ [])) (mux ++ m ∷ []) fs next in
            let path = at_path-path (form_path f.name) _ here in
            let others' : takes_all takes (patterns mux ++ form_path f.name ∷ []) (paths fs)
                ≡ true =
              rw (← patterns-snoc mux m (form_path f.name) path) others in
            (
              rw (unused, fresh) refl,
              rw (taken, others') refl,
              (m ∷ more, e ∙ append_assoc mux (m ∷ []) more, rw here (ap (λ l. some m ∷ l) rest)),
            )
      ]
    ]
  ]

all-add :
    (x : Text) (used ns : List Text)
    → all (λ n. not (elem n (add used (x ∷ [])))) ns
      ≡ (not (elem x ns) && all (λ n. not (elem n used)) ns)
all-add x used [] = refl
all-add x used (n ∷ ns) =
    ground (arith, all-add x used ns, elem-add n used (x ∷ []), text_eq_iff x n, text_eq_iff n x)

pub fresh_names-distinct :
    (used : List Text) (fs : List Form)
    → fresh_names used fs
      ≡ (distinct (map (λ f. f.name) fs) && all (λ n. not (elem n used)) (map (λ f. f.name) fs))
fresh_names-distinct used [] = refl
fresh_names-distinct used (f ∷ fs) = ground (
  arith,
  fresh_names-distinct (add used (f.name ∷ [])) fs,
  all-add f.name used (map (λ g. g.name) fs),
)

pub all-nil : (ns : List Text) → all (λ n. not (elem n [])) ns ≡ true
all-nil [] = refl
all-nil (n ∷ ns) = all-nil ns

mux_of-eq-ok :
    (cfg : Config) (o : Option (Result (List Mounted))) {mux : Mux}
    → mux_of cfg o ≡ some (ok mux)
    → (o ≡ some (ok mux.mounted)) × (mux.listed ≡ (if cfg.listing then some cfg.forms else none))
mux_of-eq-ok cfg none h = cc
mux_of-eq-ok cfg (some (err e)) h = cc
mux_of-eq-ok cfg (some (ok ms)) {mux} h =
    let same : record { mounted = ms; listed = if cfg.listing then some cfg.forms else none }
        ≡ mux =
      cc in
    (ap (λ x. some (ok x.mounted)) same, ap (λ x. x.listed) (sym same))

-- New succeeds exactly when no two forms have the same name, the factories make the destinations of
-- every form, and chi takes the path of every form beside those before it; the mux then has one
-- handler for each form, in order, under its own path and as NewForm makes it of its own
-- definition, and a list of the forms exactly if that is configured. In every other case New
-- returns an error or panics.
pub new_mux_iff :
    (takes : List Text → Text → Bool) (cfg : Config) (options : List FormOption) (mux : Mux)
    → (new_mux takes cfg options ≡ some (ok mux)) ↔ (
        (distinct (map (λ f. f.name) cfg.forms) ≡ true)
        × (takes_all takes [] (paths cfg.forms) ≡ true)
        × (map (mounted_of cfg options) cfg.forms ≡ map some mux.mounted)
        × (mux.listed ≡ (if cfg.listing then some cfg.forms else none)))
unfolding new_mux new_set add
new_mux_iff takes cfg options mux = (
  λ h.
      let (at, listed) = mux_of-eq-ok cfg _ h in
      let (fresh, taken, (more, e, made)) = mount_loop-eq-ok takes cfg options [] [] cfg.forms at in
      (ground (arith, fresh, fresh_names-distinct [] cfg.forms), taken, rw e made, listed),
  λ (d, t, m, l).
      let unused : fresh_names [] cfg.forms ≡ true =
        ground (arith, fresh_names-distinct [] cfg.forms, all-nil (map (λ f. f.name) cfg.forms)) in
      ap (mux_of cfg) (mount_loop-made takes cfg options [] [] mux.mounted cfg.forms unused t m)
      ∙ ap (λ o. some (ok (record { mounted = mux.mounted; listed = o }))) (sym l),
)

allowed_loop-keep :
    (creds : Option Credentials) (shown fs : List Form)
    → allowed_loop creds shown fs ≡ shown ++ keep (λ f. is_allowed f creds) fs
unfolding allowed_loop
allowed_loop-keep creds shown [] = sym (append-nil shown)
allowed_loop-keep creds shown (f ∷ fs) = elim (Bool-cases (is_allowed f creds)) [
  | inl yes' ↦ rw (yes', allowed_loop-keep creds (shown ++ f ∷ []) fs, append_assoc)
  | inr no' ↦ rw (no', allowed_loop-keep creds shown fs)
]

-- The list shows exactly the forms whose policy allows the user, in the order of the definitions.
pub allowed_forms-keep :
    (forms : List Form) (creds : Option Credentials)
    → allowed_forms forms creds ≡ keep (λ f. is_allowed f creds) forms
unfolding allowed_forms
allowed_forms-keep forms creds = allowed_loop-keep creds [] forms
