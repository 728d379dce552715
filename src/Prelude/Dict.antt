-- ===== src/Prelude/Dict.antt =====
-- A Go map with string keys, as an association list.
use mathlib.Core.Path.{◌≡◌, refl}
use mathlib.Core.Bool.{true, ◌||◌}
use mathlib.Core.List.{List, [], ◌∷◌}
use mathlib.Core.Option.{Option, none, some}
use native.Mathlib.Omega.{arith}
use web_form.Prelude.Tests.{◌==◌, if◌then◌else◌}
use web_form.Prelude.Lists.{elem, distinct}
use web_form.Prelude.Texts.{Text, text_eq_iff, Text-comparable}

abbrev pub Dict {ℓ} : Type ℓ → Type ℓ
Dict V = List (Text × V)

module _ {ℓ} {V : Type ℓ} where
  unfoldable pub lookup : Text → Dict V → Option V
  lookup name [] = none
  lookup name (entry ∷ dict) = if entry.0 == name then some entry.1 else lookup name dict

  -- `m[k] = v`
  unfoldable pub insert : Text → V → Dict V → Dict V
  insert name value [] = (name, value) ∷ []
  insert name value (entry ∷ dict) =
      if entry.0 == name then (entry.0, value) ∷ dict else entry ∷ insert name value dict

  -- `delete(m, k)`
  unfoldable pub delete : Text → Dict V → Dict V
  delete name [] = []
  delete name (entry ∷ dict) =
      let others = delete name dict in if entry.0 == name then others else entry ∷ others

  abbrev pub keys : Dict V → List Text
  keys [] = []
  keys ((j, w) ∷ m) = j ∷ keys m

  pub lookup-insert :
      (k j : Text) (v : V) (dict : Dict V)
      → lookup j (insert k v dict) ≡ (if k == j then some v else lookup j dict)
  unfolding lookup insert
  lookup-insert k j v [] = refl
  lookup-insert k j v (entry ∷ dict) = ground (
    arith,
    text_eq_iff k j,
    text_eq_iff entry.0 k,
    text_eq_iff entry.0 j,
    lookup-insert k j v dict,
  )

  pub lookup-delete :
      (k j : Text) (m : Dict V) → lookup j (delete k m) ≡ (if k == j then none else lookup j m)
  unfolding lookup delete
  lookup-delete k j [] = ground arith
  lookup-delete k j ((i, w) ∷ m) =
      ground (arith, text_eq_iff k j, text_eq_iff i k, text_eq_iff i j, lookup-delete k j m)

  pub elem-keys-insert :
      (k j : Text) (v : V) (m : Dict V) → elem j (keys (insert k v m)) ≡ (k == j || elem j (keys m))
  unfolding insert
  elem-keys-insert k j v [] = ground arith
  elem-keys-insert k j v ((i, w) ∷ m) =
      ground (arith, text_eq_iff k j, text_eq_iff i k, text_eq_iff i j, elem-keys-insert k j v m)

  pub distinct-keys-insert :
      (k : Text) (v : V) (m : Dict V)
      → distinct (keys m) ≡ true
      → distinct (keys (insert k v m)) ≡ true
  unfolding insert
  distinct-keys-insert k v [] h = refl
  distinct-keys-insert k v ((i, w) ∷ m) h = ground (
    arith,
    elem-keys-insert k i v m,
    text_eq_iff k i,
    text_eq_iff i k,
    distinct-keys-insert k v m,
  )
