-- ===== src/Utils/Sets/Laws.antt =====
-- What `Uniq` returns, and what a set built from values has.
use web_form.Prelude.{
  true, false, not, List, [], ◌∷◌, ◌++◌, if◌then◌else◌, Comparable, elem, distinct, keep, all, ◌≡◌,
  refl, sym, arith, append-nil, append_assoc, ◌==◌, same_refl, ◌||◌, ap, ◌∙◌,
}
use web_form.Utils.Sets.{put, uniq_from, uniq, add, new_set, has}

module _ {ℓ} {A : Type ℓ} ⦃c : Comparable A⦄ where
  -- The values that are not `x`.
  abbrev pub without : A → List A → List A
  without x = keep (λ y. not (x == y))

  -- The first occurrence of every value, in order.
  abbrev pub first_occurrences : List A → List A
  first_occurrences [] = []
  first_occurrences (x ∷ xs) = x ∷ without x (first_occurrences xs)

  abbrev fresh : List A → List A → List A
  fresh s = keep (λ y. not (elem y s))

  elem-append : (a : A) (xs ys : List A) → elem a (xs ++ ys) ≡ (elem a xs || elem a ys)
  elem-append a [] ys = refl
  elem-append a (x ∷ xs) ys = ground (arith, elem-append a xs ys)

  pub elem-put : (a v : A) (s : List A) → elem a (put s v) ≡ (v == a || elem a s)
  unfolding put
  elem-put a v s = ground (arith, elem-append a s (v ∷ []), c.same_iff v a)

  fresh_of_elem : (x : A) (s xs : List A) → elem x s ≡ true → fresh s (without x xs) ≡ fresh s xs
  fresh_of_elem x s [] h = refl
  fresh_of_elem x s (y ∷ ys) h = ground (arith, fresh_of_elem x s ys h, c.same_iff x y)

  fresh-put : (x : A) (s xs : List A) → fresh (put s x) xs ≡ fresh s (without x xs)
  fresh-put x s [] = refl
  fresh-put x s (y ∷ ys) = ground (arith, fresh-put x s ys, elem-put y x s)

  fresh-nil : (xs : List A) → fresh [] xs ≡ xs
  fresh-nil [] = refl
  fresh-nil (x ∷ xs) = ap (λ t. x ∷ t) (fresh-nil xs)

  uniq_from-fresh : (s out vs : List A) → uniq_from s out vs ≡ out ++ fresh s (first_occurrences vs)
  unfolding uniq_from
  uniq_from-fresh s out [] = sym (append-nil out)
  uniq_from-fresh s out (v ∷ vs) = ground (
    arith,
    uniq_from-fresh s out vs,
    uniq_from-fresh (put s v) (out ++ v ∷ []) vs,
    fresh-put v s (first_occurrences vs),
    fresh_of_elem v s (first_occurrences vs),
    append_assoc out (v ∷ []) (fresh (put s v) (first_occurrences vs)),
  )

  elem-without :
      (a x : A) (xs : List A) → elem a (without x xs) ≡ (if x == a then false else elem a xs)
  elem-without a x [] = ground arith
  elem-without a x (y ∷ ys) =
      ground (arith, elem-without a x ys, c.same_iff x y, c.same_iff y a, c.same_iff x a)

  distinct-without : (x : A) (xs : List A) → distinct xs ≡ true → distinct (without x xs) ≡ true
  distinct-without x [] h = refl
  distinct-without x (y ∷ ys) h =
      ground (arith, distinct-without x ys, elem-without y x ys, c.same_iff x y)

  distinct-first_occurrences : (xs : List A) → distinct (first_occurrences xs) ≡ true
  distinct-first_occurrences [] = refl
  distinct-first_occurrences (x ∷ xs) = ground (
    arith,
    distinct-first_occurrences xs,
    elem-without x x (first_occurrences xs),
    same_refl x,
    distinct-without x (first_occurrences xs),
  )

  elem-first_occurrences : (a : A) (xs : List A) → elem a (first_occurrences xs) ≡ elem a xs
  elem-first_occurrences a [] = refl
  elem-first_occurrences a (x ∷ xs) =
      ground (arith, elem-first_occurrences a xs, elem-without a x (first_occurrences xs))

  uniq-eq-first_occurrences : (vs : List A) → uniq vs ≡ first_occurrences vs
  unfolding uniq
  uniq-eq-first_occurrences vs = uniq_from-fresh [] [] vs ∙ fresh-nil (first_occurrences vs)

  -- Uniq returns the first occurrence of every value, in the order of the input; no value stands in
  -- the result twice, and exactly the values of the input stand in it.
  pub uniq_lem :
      (vs : List A)
      → (uniq vs ≡ first_occurrences vs)
        × (distinct (uniq vs) ≡ true)
        × ((a : A) → elem a (uniq vs) ≡ elem a vs)
  uniq_lem vs =
      let e = uniq-eq-first_occurrences vs in
      (e, rw e (distinct-first_occurrences vs), λ a. rw e (elem-first_occurrences a vs))

  pub elem-add : (a : A) (s vs : List A) → elem a (add s vs) ≡ (elem a s || elem a vs)
  unfolding add
  elem-add a s [] = ground arith
  elem-add a s (v ∷ vs) = ground (arith, elem-add a (put s v) vs, elem-put a v s)

  pub elem-new_set : (a : A) (vs : List A) → elem a (new_set vs) ≡ elem a vs
  unfolding new_set
  elem-new_set a vs = elem-add a [] vs

  -- A set built from some values has others exactly when each of them is one of the former.
  pub has-new_set : (xs vs : List A) → has (new_set xs) vs ≡ all (λ v. elem v xs) vs
  unfolding has
  has-new_set xs [] = refl
  has-new_set xs (v ∷ vs) = ground (arith, has-new_set xs vs, elem-new_set v xs)
