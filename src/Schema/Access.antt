-- ===== src/Schema/Access.antt =====
-- internal/schema: who may open a form (`IsAllowed`, `HasCodeAccess`, `Policy.UnmarshalText`).
use web_form.Prelude.{
  Text, [], ◌∷◌, ◌&&◌, Bool, true, false, Option, none, some, Result, ok, err, codes, wrapped,
  ◌>>=◌, nonempty, ◌≡◌, ◌↔◌, arith,
}
use web_form.Schema.Types.{Form, Policy, Credentials}

-- `v, ok := … .(bool); return v && ok`
abbrev verdict : Option Bool → Bool
verdict none = false
verdict (some v) = v && true

unfoldable pub is_allowed : Form → Option Credentials → Bool
is_allowed f creds = elim f.policy [
  | none ↦ true
  | some p ↦ elim creds [
    | none ↦ true
    | some c ↦ elim (p.eval c.user c.email c.groups) [ err e ↦ false | ok out ↦ verdict out ]
  ]
]

unfoldable pub has_code_access : Form → Bool
has_code_access f = nonempty f.codes

-- `(p *Policy) UnmarshalText`, over the three steps of the CEL library.
unfoldable pub unmarshal_policy {ℓ κ} :
    {Env : Type ℓ} {Ast : Type κ}
    → Result Env
    → (Env → Text → Result Ast)
    → (Env → Ast → Result Policy)
    → Text
    → Result Policy
unmarshal_policy new_env compile program text = do
  env ← wrapped (codes "create CEL env: %w") [] new_env
  ast ← wrapped (codes "parse policy %q: %w") (text ∷ []) (compile env text)
  wrapped (codes "compile CEL AST %q: %w") (text ∷ []) (program env ast)

-- A user with credentials passes a policy exactly when it evaluates to the Boolean true: an error,
-- a value that is no Boolean and false all deny.
pub is_allowed_iff :
    (f : Form) (p : Policy) (c : Credentials)
    → f.policy ≡ some p
    → (is_allowed f (some c) ≡ true) ↔ (p.eval c.user c.email c.groups ≡ ok (some true))
unfolding is_allowed
is_allowed_iff f p c h = ground arith
