-- ===== src/Prelude/Sort.antt =====
-- `sort` with a comparison, by insertion: elements that compare as equal keep their order.
use mathlib.Core.Path.{◌≡◌}
use mathlib.Core.Logic.{◌⊎◌, inl, inr}
use mathlib.Core.Bool.{Bool}
use mathlib.Core.List.{List, [], ◌∷◌}
use army_of_god.Prelude.Tests.{if◌then◌else◌, Bool-cases}
use army_of_god.Prelude.Lists.{In}

module _ {A : Type 0} (precedes : A → A → Bool) where
  -- `precedes x y`: the comparison does not put `x` after `y`.
  abbrev pub insert_by : A → List A → List A
  insert_by x [] = x ∷ []
  insert_by x (y ∷ ys) =
      let later = y ∷ insert_by x ys in if precedes x y then x ∷ y ∷ ys else later

  unfoldable pub sort_by : List A → List A
  sort_by [] = []
  sort_by (x ∷ xs) = insert_by x (sort_by xs)

  In-insert_by : (a x : A) (xs : List A) → In a (x ∷ xs) → In a (insert_by x xs)
  In-insert_by a x [] i = i
  In-insert_by a x (y ∷ ys) i = elim (Bool-cases (precedes x y)) [
    | inl first ↦ rw first i
    | inr later ↦ rw later (elim i [
      | inl e ↦ inr (In-insert_by a x ys (inl e))
      | inr (inl e) ↦ inl e
      | inr (inr j) ↦ inr (In-insert_by a x ys (inr j))
    ])
  ]

  In-of_insert_by : (a x : A) (xs : List A) → In a (insert_by x xs) → In a (x ∷ xs)
  In-of_insert_by a x [] i = i
  In-of_insert_by a x (y ∷ ys) i = elim (Bool-cases (precedes x y)) [
    | inl first ↦ rw first at i
    | inr later ↦
        let j : (a ≡ y) ⊎ In a (insert_by x ys) = rw later at i in
        elim j [
          | inl e ↦ inr (inl e)
          | inr k ↦ elim (In-of_insert_by a x ys k) [ inl e ↦ inl e | inr l ↦ inr (inr l) ]
        ]
  ]

  pub In-sort_by : (a : A) (xs : List A) → In a xs → In a (sort_by xs)
  unfolding sort_by
  In-sort_by a [] i = i
  In-sort_by a (x ∷ xs) (inl e) = In-insert_by a x (sort_by xs) (inl e)
  In-sort_by a (x ∷ xs) (inr i) = In-insert_by a x (sort_by xs) (inr (In-sort_by a xs i))

  pub In-of_sort_by : (a : A) (xs : List A) → In a (sort_by xs) → In a xs
  unfolding sort_by
  In-of_sort_by a [] i = i
  In-of_sort_by a (x ∷ xs) i = elim (In-of_insert_by a x (sort_by xs) i) [
    | inl e ↦ inl e
    | inr j ↦ inr (In-of_sort_by a xs j)
  ]
