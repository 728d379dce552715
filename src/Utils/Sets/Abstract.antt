-- ===== src/Utils/Sets/Abstract.antt =====
-- A set as what its operations tell apart: a quotient that forgets the order and the repetitions of the
-- values that it was built from.
use mathlib.Core.Bool.{Bool-set}
use mathlib.Core.Quot
use mathlib.Core.Quot.{Quot, Quot-set}
use web_form.Prelude.{
  Bool, List, [], ◌∷◌, Comparable, elem, nonempty, ◌≡◌, refl, sym, ◌∙◌, arith, all, same_refl,
}
use web_form.Utils.Sets.{add, new_set, has}
use web_form.Utils.Sets.Laws.{elem-add, elem-new_set, has-new_set}

module _ {ℓ} {A : Type ℓ} ⦃c : Comparable A⦄ where
  -- The same members.
  abbrev pub SameMembers : List A → List A → Type ℓ
  SameMembers xs ys = (a : A) → elem a xs ≡ elem a ys

  abbrev pub set_of : List A → Quot SameMembers
  set_of xs = Quot.mk xs

  pub new_set-SameMembers : (xs : List A) → SameMembers (new_set xs) xs
  new_set-SameMembers xs a = elem-new_set a xs

  pub add-SameMembers :
      (xs ys vs : List A) → SameMembers xs ys → SameMembers (add xs vs) (add ys vs)
  add-SameMembers xs ys vs h a = ground (arith, elem-add a xs vs, elem-add a ys vs, h a)

  -- `Add`, on sets.
  unfoldable pub added : List A → Quot SameMembers → Quot SameMembers
  added vs =
      Quot.lift Quot-set (λ s. Quot.mk (add s vs))
        (λ xs ys h. Quot.sound (add-SameMembers xs ys vs h))

  pub has-SameMembers : (xs ys vs : List A) → SameMembers xs ys → has xs vs ≡ has ys vs
  unfolding has
  has-SameMembers xs ys [] h = refl
  has-SameMembers xs ys (v ∷ vs) h = ground (arith, h v, has-SameMembers xs ys vs h)

  -- `Has`, on sets.
  unfoldable pub has_all : List A → Quot SameMembers → Bool
  has_all vs = Quot.lift Bool-set (λ s. has s vs) (λ xs ys h. has-SameMembers xs ys vs h)

  pub nonempty-SameMembers : (xs ys : List A) → SameMembers xs ys → nonempty xs ≡ nonempty ys
  nonempty-SameMembers [] [] h = refl
  nonempty-SameMembers [] (y ∷ ys) h = ground (arith, h y, same_refl y)
  nonempty-SameMembers (x ∷ xs) [] h = ground (arith, h x, same_refl x)
  nonempty-SameMembers (x ∷ xs) (y ∷ ys) h = refl

  -- Two lists of values with the same members, in any order and with any repetitions, make the same
  -- set for every operation on it (a quotient): NewSet gives equal sets, adding further values in
  -- either order gives equal sets, and Has is true exactly if every value asked for is one of the
  -- list.
  pub set_of-new_set :
      (xs ys vs ws : List A)
      → SameMembers xs ys
      → (set_of (new_set xs) ≡ set_of (new_set ys))
        × (added vs (added ws (set_of (new_set xs))) ≡ added ws (added vs (set_of (new_set ys))))
        × (has_all vs (set_of (new_set ys)) ≡ all (λ v. elem v xs) vs)
  unfolding added has_all
  set_of-new_set xs ys vs ws h = (
    Quot.sound (λ a. elem-new_set a xs ∙ h a ∙ sym (elem-new_set a ys)),
    Quot.sound (λ a. ground (
      arith,
      elem-add a (add (new_set xs) ws) vs,
      elem-add a (new_set xs) ws,
      elem-add a (add (new_set ys) vs) ws,
      elem-add a (new_set ys) vs,
      elem-new_set a xs,
      elem-new_set a ys,
      h a,
    )),
    has-SameMembers (new_set ys) (new_set xs) vs
          (λ a. elem-new_set a ys ∙ sym (h a) ∙ sym (elem-new_set a xs))
        ∙ has-new_set xs vs,
  )
