-- ===== src/Program/Users.antt =====
-- cmd/web-form/main.go: the credentials of a request, and the headers of every answer.
use web_form.Prelude.{
  Text, Text-comparable, [], ◌∷◌, if◌then◌else◌, not, List, Option, none, some, codes, ◌≡◌, refl,
  arith, keep, Comparable, ◌==◌,
}
use web_form.Prelude.Dict.{Dict, insert}
use web_form.Schema.Types.{Credentials}

-- `firstOf`, over the zero value of its type.
unfoldable pub first_of {ℓ} : {A : Type ℓ} ⦃c : Comparable A⦄ → A → List A → A
first_of def [] = def
first_of def (v ∷ vs) = if not (v == def) then v else first_of def vs

-- The token of OIDC with the claims that can be read of it.
pub record Token : Type 0 where
  pub subject : Text
  pub username : Text
  pub email : Text
  pub groups : List Text

-- `credentialsFromRequest`; there is no token without OIDC.
unfoldable pub credentials_from_request : Option Token → Option Credentials
unfolding first_of
credentials_from_request none = none
credentials_from_request (some t) = some (record {
  user = first_of [] (t.username ∷ t.email ∷ t.subject ∷ []);
  groups = t.groups;
  email = t.email;
})

-- The headers that `owasp` sets.
unfoldable pub owasp : Dict Text → Dict Text
owasp headers = insert (codes "Referrer-Policy") (codes "strict-origin-when-cross-origin") (
    insert (codes "X-Content-Type-Options") (codes "nosniff") (
      insert (codes "X-XSS-Protection") (codes "1")
        (insert (codes "X-Frame-Options") (codes "DENY") headers)))

-- The first element, or a default.
abbrev pub head_or {ℓ} : {A : Type ℓ} → A → List A → A
head_or a [] = a
head_or a (x ∷ xs) = x

-- `firstOf` returns the first value that is not the zero value, or the zero value if there is none.
first_of-keep {ℓ} :
    {A : Type ℓ} ⦃c : Comparable A⦄ (def : A) (vs : List A)
    → first_of def vs ≡ head_or def (keep (λ v. not (v == def)) vs)
unfolding first_of
first_of-keep def [] = refl
first_of-keep def (v ∷ vs) = ground (arith, first_of-keep def vs)
