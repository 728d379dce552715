-- ===== src/Utils/Sets.antt =====
-- internal/utils/utils.go: `Uniq` and `Set`. A set is the list of the keys of its map; two sets are
-- compared by membership only.
pub mod Laws
pub mod Abstract
use web_form.Prelude.{
  Bool, true, false, List, [], ◌∷◌, ◌++◌, if◌then◌else◌, Comparable, elem, ◌&&◌, Option, none, some,
  Error, Result, ok, err,
}

module _ {ℓ} {A : Type ℓ} ⦃c : Comparable A⦄ where
  -- `s[v] = struct{}{}`
  unfoldable pub put : List A → A → List A
  put s v = if elem v s then s else s ++ v ∷ []

  -- The loop of `Uniq`.
  unfoldable pub uniq_from : List A → List A → List A → List A
  uniq_from s out [] = out
  uniq_from s out (v ∷ vs) = elim (elem v s) [
    | true ↦ uniq_from s out vs
    | false ↦ uniq_from (put s v) (out ++ v ∷ []) vs
  ]

  unfoldable pub uniq : List A → List A
  unfolding uniq_from put
  uniq values = uniq_from [] [] values

  -- `(s Set[T]) Add`: the loop of `NewSet` too.
  unfoldable pub add : List A → List A → List A
  unfolding put
  add s [] = s
  add s (v ∷ vs) = add (put s v) vs

  unfoldable pub new_set : List A → List A
  unfolding add
  new_set values = add [] values

  -- `(s Set[T]) Has`
  unfoldable pub has : List A → List A → Bool
  has s [] = true
  has s (v ∷ vs) = if elem v s then has s vs else false

  -- `(s *Set[T]) UnmarshalYAML`, over the list that the YAML node decodes to: the new set, or the old
  -- one beside an error.
  unfoldable pub unmarshal_set : List A → Result (List A) → List A × Option Error
  unfolding new_set
  unmarshal_set s (ok values) = (new_set values, none)
  unmarshal_set s (err e) = (s, some e)
