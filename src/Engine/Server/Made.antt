-- ===== src/Engine/Server/Made.antt =====
-- When `New` succeeds, and when `NewForm` does.
use web_form.Prelude.{
  Text, Text-comparable, [], ◌∷◌, ◌++◌, ◌&&◌, Bool, true, false, List, Option, none, some, Result,
  ok, err, ◌≡◌, refl, ap, ◌∙◌, arith, map, elem, distinct, all, is_given, Bool-cases, Option-cases,
  inl, inr,
}
use web_form.Utils.Sets.{has, add, new_set}
use web_form.Schema.Types.{Form, Webhook, Amqp}
use web_form.Engine.Config.{
  FormConfig, FormOption, Destination, to_webhook, to_broker, FormHandler, apply_options,
  create_all, destinations, new_form, handler_of,
}
use web_form.Engine.Server.{
  Config, Mounted, at_path, mounted_of, patterns, form_path, form_config, mount_loop, mux_of,
  new_mux,
}
use web_form.Engine.Server.Laws.{
  fresh_names, fresh_names-distinct, all-nil, takes_all, paths, at_path-path, patterns-snoc,
}

-- It is made, without an error and without a panic.
abbrev pub is_built {ℓ} : {A : Type ℓ} → Option (Result A) → Bool
is_built none = false
is_built (some (ok a)) = true
is_built (some (err e)) = false

module _ (takes : List Text → Text → Bool) (cfg : Config) (options : List FormOption) where
  abbrev can_mount : Form → Bool
  can_mount f = is_given (mounted_of cfg options f)

  mount_loop-is_built :
      (used : List Text) (mux : List Mounted) (forms : List Form)
      → is_built (mount_loop takes cfg options used mux forms) ≡ (
          fresh_names used forms
          && (takes_all takes (patterns mux) (paths forms) && all can_mount forms))
  unfolding mount_loop has
  mount_loop-is_built used mux [] = refl
  mount_loop-is_built used mux (f ∷ fs) = elim (Bool-cases (elem f.name used)) [
    | inl twice ↦ rw twice refl
    | inr unused ↦ elim (Option-cases (mounted_of cfg options f)) [
      | inl failed ↦ rw (unused, failed) (ground arith)
      | inr (m, here) ↦ elim (Bool-cases (takes (patterns mux) (form_path f.name))) [
        | inr refused ↦ rw (unused, here, refused) (ground arith)
        | inl taken ↦
            rw (unused, here, taken)
              (mount_loop-is_built (add used (f.name ∷ [])) (mux ++ m ∷ []) fs
                ∙ rw
                    (patterns-snoc mux m (form_path f.name)
                      (at_path-path (form_path f.name) _ here))
                    refl)
      ]
    ]
  ]

  mux_of-is_built : (o : Option (Result (List Mounted))) → is_built (mux_of cfg o) ≡ is_built o
  mux_of-is_built none = refl
  mux_of-is_built (some (ok ms)) = refl
  mux_of-is_built (some (err e)) = refl

  -- New succeeds exactly when no two forms have the same name, chi takes their paths, and the
  -- handler of every form can be made.
  pub new_mux-is_built : is_built (new_mux takes cfg options) ≡ (
      distinct (map (λ f. f.name) cfg.forms)
      && (takes_all takes [] (paths cfg.forms) && all can_mount cfg.forms))
  unfolding new_mux new_set
  new_mux-is_built =
      mux_of-is_built _
      ∙ mount_loop-is_built [] [] cfg.forms
      ∙ ap (λ b. b && (takes_all takes [] (paths cfg.forms) && all can_mount cfg.forms))
          (ground (arith, fresh_names-distinct [] cfg.forms, all-nil (map (λ f. f.name) cfg.forms)))

create_all-is_given {ℓ} :
    {A : Type ℓ} (make : A → Option A) (wrap : A → Destination) (ds : List A)
    → is_given (create_all make wrap ds) ≡ all (λ d. is_given (make d)) ds
unfolding create_all
create_all-is_given make wrap [] = refl
create_all-is_given make wrap (d ∷ ds) = ground (arith, create_all-is_given make wrap ds)

at_path-is_given : (path : Text) (o : Option FormHandler) → is_given (at_path path o) ≡ is_given o
at_path-is_given path none = refl
at_path-is_given path (some h) = refl

handler_of-is_given :
    (fr : FormConfig) (o : Option (List Destination)) → is_given (handler_of fr o) ≡ is_given o
handler_of-is_given fr none = refl
handler_of-is_given fr (some ds) = refl

destinations-is_given :
    (fr : FormConfig) {hook : Webhook → Option Webhook} {broker : Amqp → Option Amqp}
    → fr.webhooks_factory ≡ some hook
    → fr.amqp_factory ≡ some broker
    → is_given (destinations fr) ≡ (
        all (λ w. is_given (hook w)) fr.definition.webhooks
        && all (λ d. is_given (broker d)) fr.definition.amqp)
unfolding destinations
destinations-is_given fr {hook} {broker} h b = ground (
  arith,
  h,
  b,
  create_all-is_given hook to_webhook fr.definition.webhooks,
  create_all-is_given broker to_broker fr.definition.amqp,
)

-- NewForm makes a handler exactly when every definition of a notification can be created.
pub mounted_of-is_given :
    (cfg : Config) (options : List FormOption) (form : Form) {hook : Webhook → Option Webhook}
    {broker : Amqp → Option Amqp}
    → (apply_options options (form_config cfg form)).webhooks_factory ≡ some hook
    → (apply_options options (form_config cfg form)).amqp_factory ≡ some broker
    → is_given (mounted_of cfg options form) ≡ (
        all
          (λ w. is_given (hook w))
          (apply_options options (form_config cfg form)).definition.webhooks
        && all
            (λ d. is_given (broker d))
            (apply_options options (form_config cfg form)).definition.amqp)
unfolding new_form
mounted_of-is_given cfg options form h b =
    at_path-is_given (form_path form.name) _
    ∙ handler_of-is_given (apply_options options (form_config cfg form)) _
    ∙ destinations-is_given (apply_options options (form_config cfg form)) h b
