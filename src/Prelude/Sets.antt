-- ===== src/Prelude/Sets.antt =====
-- Lists used as sets: membership by a Boolean test, and `[...new Set(xs)]`.
use mathlib.Core.Path.{◌≡◌, refl, ◌∙◌}
use mathlib.Core.Logic.{◌⊎◌, inl, inr}
use mathlib.Core.Bool.{Bool, true, false, ◌&&◌, ◌||◌}
use mathlib.Core.List.{List, [], ◌∷◌, ◌++◌}
use native.Mathlib.Omega.{arith}
use army_of_god.Prelude.Tests.{if◌then◌else◌, Bool-cases}
use army_of_god.Prelude.Classes.{Eq, ◌==◌, eq→≡, eq_self}
use army_of_god.Prelude.Lists.{any, filter, In, In→any, In-append_split}

module _ {A : Type 0} ⦃e : Eq A⦄ where
  -- `xs.includes(a)`, `new Set(xs).has(a)`
  abbrev pub elem : A → List A → Bool
  elem a xs = any (λ x. a == x) xs

  pub elem→In : (a : A) (xs : List A) → elem a xs ≡ true → In a xs
  elem→In a [] h = cc
  elem→In a (x ∷ xs) h = elim (Bool-cases (a == x)) [
    | inl hit ↦ inl (eq→≡ a x hit)
    | inr miss ↦ inr (elem→In a xs (rw miss at h))
  ]

  pub In→elem : (a : A) (xs : List A) → In a xs → elem a xs ≡ true
  In→elem a xs i = In→any (λ x. a == x) xs i (eq_self a)

  -- `[...new Set(xs)]`: the first occurrence of each element, in order.
  dedupe_from : List A → List A → List A
  dedupe_from seen [] = []
  dedupe_from seen (x ∷ xs) =
      let fresh = dedupe_from (x ∷ seen) xs in
      let rest = dedupe_from seen xs in if elem x seen then rest else x ∷ fresh

  unfoldable pub dedupe : List A → List A
  unfolding dedupe_from
  dedupe xs = dedupe_from [] xs

  In-dedupe_from :
      (seen xs : List A) (a : A) → In a xs → elem a seen ≡ false → In a (dedupe_from seen xs)
  unfolding dedupe_from
  In-dedupe_from seen [] a i h = absurd i
  In-dedupe_from seen (x ∷ xs) a (inl p) h = rw (rw p at h) (inl p)
  In-dedupe_from seen (x ∷ xs) a (inr i) h = elim (Bool-cases (elem x seen)) [
    | inl old ↦ rw old (In-dedupe_from seen xs a i h)
    | inr new ↦ rw new (elim (Bool-cases (a == x)) [
      | inl same ↦ inl (eq→≡ a x same)
      | inr other ↦ inr (In-dedupe_from (x ∷ seen) xs a i (rw other h))
    ])
  ]

  In-of_dedupe_from : (seen xs : List A) (a : A) → In a (dedupe_from seen xs) → In a xs
  unfolding dedupe_from
  In-of_dedupe_from seen [] a i = absurd i
  In-of_dedupe_from seen (x ∷ xs) a i = elim (Bool-cases (elem x seen)) [
    | inl old ↦ inr (In-of_dedupe_from seen xs a (rw old at i))
    | inr new ↦
        let j : (a ≡ x) ⊎ In a (dedupe_from (x ∷ seen) xs) = rw new at i in
        elim j [ inl p ↦ inl p | inr k ↦ inr (In-of_dedupe_from (x ∷ seen) xs a k) ]
  ]

  fresh_of_dedupe_from :
      (seen xs : List A) (a : A) → In a (dedupe_from seen xs) → elem a seen ≡ false
  unfolding dedupe_from
  fresh_of_dedupe_from seen [] a i = absurd i
  fresh_of_dedupe_from seen (x ∷ xs) a i = elim (Bool-cases (elem x seen)) [
    | inl old ↦ fresh_of_dedupe_from seen xs a (rw old at i)
    | inr new ↦
        let j : (a ≡ x) ⊎ In a (dedupe_from (x ∷ seen) xs) = rw new at i in
        elim j [ inl p ↦ rw p new | inr k ↦ ground (arith, fresh_of_dedupe_from (x ∷ seen) xs a k) ]
  ]

  pub In-dedupe : (xs : List A) (a : A) → In a xs → In a (dedupe xs)
  unfolding dedupe
  In-dedupe xs a i = In-dedupe_from [] xs a i refl

  pub In-of_dedupe : (xs : List A) (a : A) → In a (dedupe xs) → In a xs
  unfolding dedupe
  In-of_dedupe xs a i = In-of_dedupe_from [] xs a i

  -- No element stands twice.
  abbrev pub IsDistinct : List A → Type 0
  IsDistinct [] = Unit
  IsDistinct (x ∷ xs) = (elem x xs ≡ false) × IsDistinct xs

  pub not-In→elem : (a : A) (xs : List A) → (In a xs → ⊥) → elem a xs ≡ false
  not-In→elem a xs h = elim (Bool-cases (elem a xs)) [
    | inl hit ↦ absurd (h (elem→In a xs hit))
    | inr miss ↦ miss
  ]

  dedupe_from-IsDistinct : (seen xs : List A) → IsDistinct (dedupe_from seen xs)
  unfolding dedupe_from
  dedupe_from-IsDistinct seen [] = tt
  dedupe_from-IsDistinct seen (x ∷ xs) = elim (Bool-cases (elem x seen)) [
    | inl old ↦ rw old (dedupe_from-IsDistinct seen xs)
    | inr new ↦ rw new (
      not-In→elem x _
          (λ i. cc (fresh_of_dedupe_from (x ∷ seen) xs x i, In→elem x (x ∷ seen) (inl refl))),
      dedupe_from-IsDistinct (x ∷ seen) xs,
    )
  ]

  pub dedupe-IsDistinct : (xs : List A) → IsDistinct (dedupe xs)
  unfolding dedupe
  dedupe-IsDistinct xs = dedupe_from-IsDistinct [] xs

  pub elem-append : (a : A) (xs ys : List A) → elem a (xs ++ ys) ≡ (elem a xs || elem a ys)
  elem-append a [] ys = refl
  elem-append a (x ∷ xs) ys = ground (arith, elem-append a xs ys)

  pub IsDistinct-append :
      (xs ys : List A)
      → IsDistinct xs
      → IsDistinct ys
      → ((a : A) → In a ys → elem a xs ≡ false)
      → IsDistinct (xs ++ ys)
  IsDistinct-append [] ys p q d = q
  IsDistinct-append (x ∷ xs) ys p q d = (
    not-In→elem x (xs ++ ys) (λ i. elim (In-append_split x xs ys i) [
      | inl l ↦ cc (In→elem x xs l, p.0)
      | inr r ↦ cc (d x r, In→elem x (x ∷ xs) (inl refl))
    ]),
    IsDistinct-append xs ys p.1 q (λ a i. ground (arith, d a i)),
  )

  pub elem_false→not-In : (a : A) (xs : List A) → elem a xs ≡ false → In a xs → ⊥
  elem_false→not-In a xs h i = cc (h, In→elem a xs i)

  pub elem-filter : (f : A → Bool) (a : A) (xs : List A) → elem a (filter f xs) ≡ (elem a xs && f a)
  elem-filter f a [] = refl
  elem-filter f a (x ∷ xs) = elim (Bool-cases (a == x)) [
    | inl same ↦ rw (eq→≡ a x same) (elim (Bool-cases (f x)) [
      | inl fits ↦ rw fits (ground (arith, eq_self x))
      | inr fails ↦ rw fails (elem-filter f x xs ∙ rw fails (ground arith))
    ])
    | inr other ↦ elim (Bool-cases (f x)) [
      | inl fits ↦ rw (fits, other) (elem-filter f a xs)
      | inr fails ↦ rw (fails, other) (elem-filter f a xs)
    ]
  ]

  pub elem-dedupe : (a : A) (xs : List A) → elem a (dedupe xs) ≡ elem a xs
  elem-dedupe a xs = elim (Bool-cases (elem a xs)) [
    | inl hit ↦ In→elem a (dedupe xs) (In-dedupe xs a (elem→In a xs hit)) ∙ rw hit refl
    | inr miss ↦
        not-In→elem a (dedupe xs) (λ i. cc (miss, In→elem a xs (In-of_dedupe xs a i)))
        ∙ rw miss refl
  ]

  pub elem-concat : (a b : A) (l : List A) → elem a l ≡ true → elem a (l ++ b ∷ []) ≡ true
  elem-concat a b l h = rw elem-append (ground (arith, h))

  pub elem-concat_self : (b : A) (l : List A) → elem b (l ++ b ∷ []) ≡ true
  elem-concat_self b l = rw elem-append (ground (arith, eq_self b))

  pub elem-concat_ne :
      (a b : A) (l : List A) → elem a (l ++ b ∷ []) ≡ true → (a ≡ b → ⊥) → elem a l ≡ true
  elem-concat_ne a b l h ne = elim (Bool-cases (elem a l)) [
    | inl there ↦ there
    | inr gone ↦
        let e : elem a (l ++ b ∷ []) ≡ elem a (b ∷ []) = elem-append a l (b ∷ []) ∙ rw gone refl in
        elim (Bool-cases (a == b)) [
          | inl same ↦ absurd (ne (eq→≡ a b same))
          | inr other ↦ ground (arith, e, other)
        ]
  ]
