-- ===== src/Prelude/Lists.antt =====
-- Lists under Boolean tests, measured and indexed by native numbers.
use Prim.Native.Nat.{ℕ, zero, suc, ◌+◌}
use mathlib.Core.Path.{◌≡◌, refl, ap}
use mathlib.Core.Logic.{◌⊎◌, inl, inr}
use mathlib.Core.Bool.{Bool, true, false, ◌&&◌, ◌||◌}
use mathlib.Core.Option.{Option, none, some}
use mathlib.Core.List.{List, [], ◌∷◌, ◌++◌, map}
use native.Mathlib.Omega.{arith}
use army_of_god.Prelude.Tests.{if◌then◌else◌, Bool-cases}

module _ {ℓ} {A : Type ℓ} where
  abbrev pub length : List A → ℕ
  length [] = 0
  length (x ∷ xs) = suc (length xs)

  abbrev pub get_elem? : List A → ℕ → Option A
  get_elem? [] i = none
  get_elem? (x ∷ xs) zero = some x
  get_elem? (x ∷ xs) (suc i) = get_elem? xs i

  abbrev pub take : ℕ → List A → List A
  take zero xs = []
  take (suc n) [] = []
  take (suc n) (x ∷ xs) = x ∷ take n xs

  -- `xs.some(p)`
  abbrev pub any : (A → Bool) → List A → Bool
  any p [] = false
  any p (x ∷ xs) = p x || any p xs

  -- `xs.every(p)`
  abbrev pub all : (A → Bool) → List A → Bool
  all p [] = true
  all p (x ∷ xs) = p x && all p xs

  -- `xs.filter(p)`
  abbrev pub filter : (A → Bool) → List A → List A
  filter p [] = []
  filter p (x ∷ xs) = let rest = filter p xs in if p x then x ∷ rest else rest

  -- `xs.find(p)`
  abbrev pub find : (A → Bool) → List A → Option A
  find p [] = none
  find p (x ∷ xs) = let rest = find p xs in if p x then some x else rest

  -- The first element that fits `p` becomes `f` of it: `const x = xs.find(p); if (x) { ... }`.
  abbrev pub update_first : (A → Bool) → (A → A) → List A → List A
  update_first p f [] = []
  update_first p f (x ∷ xs) = let rest = update_first p f xs in if p x then f x ∷ xs else x ∷ rest

  abbrev pub count_if : (A → Bool) → List A → ℕ
  count_if p [] = 0
  count_if p (x ∷ xs) = (if p x then 1 else 0) + count_if p xs

  pub length-append : (xs ys : List A) → length (xs ++ ys) ≡ length xs + length ys
  length-append [] ys = omega arith
  length-append (x ∷ xs) ys = omega (arith, length-append xs ys)

abbrev pub All {ℓ κ} : {A : Type ℓ} → (A → Type κ) → List A → Type κ
All P [] = Unit
All P (x ∷ xs) = P x × All P xs

-- Where an element stands, by recursion: the tactics take it apart.
abbrev pub In : {A : Type 0} → A → List A → Type 0
In a [] = ⊥
In a (x ∷ xs) = (a ≡ x) ⊎ In a xs

module _ {A : Type 0} where
  pub any→In : (p : A → Bool) (xs : List A) → any p xs ≡ true → (x : A) × In x xs × (p x ≡ true)
  any→In p [] h = cc
  any→In p (x ∷ xs) h = elim (Bool-cases (p x)) [
    | inl hit ↦ (x, inl refl, hit)
    | inr miss ↦ let (y, i, q) = any→In p xs (rw miss at h) in (y, inr i, q)
  ]

  pub In→any : (p : A → Bool) {x : A} (xs : List A) → In x xs → p x ≡ true → any p xs ≡ true
  In→any p [] i q = absurd i
  In→any p {x} (y ∷ ys) (inl e) q = rw (← e) (rw q refl)
  In→any p (y ∷ ys) (inr i) q = ground (arith, In→any p ys i q)

  pub any-false : (p : A → Bool) {x : A} (xs : List A) → any p xs ≡ false → In x xs → p x ≡ false
  any-false p [] h i = absurd i
  any-false p (y ∷ ys) h (inl e) = rw e (ground arith)
  any-false p (y ∷ ys) h (inr i) = any-false p ys (ground arith) i

  pub all→In : (p : A → Bool) {x : A} (xs : List A) → all p xs ≡ true → In x xs → p x ≡ true
  all→In p [] h i = absurd i
  all→In p (y ∷ ys) h (inl e) = rw e (ground arith)
  all→In p (y ∷ ys) h (inr i) = all→In p ys (ground arith) i

  pub In→all : (p : A → Bool) (xs : List A) → ((x : A) → In x xs → p x ≡ true) → all p xs ≡ true
  In→all p [] h = refl
  In→all p (y ∷ ys) h = ground (arith, h y (inl refl), In→all p ys (λ x i. h x (inr i)))

  pub In-filter : (p : A → Bool) {x : A} (xs : List A) → In x (filter p xs) → In x xs × (p x ≡ true)
  In-filter p [] i = absurd i
  In-filter p {x} (y ∷ ys) i = elim (Bool-cases (p y)) [
    | inl hit ↦
        let j : (x ≡ y) ⊎ In x (filter p ys) = rw hit at i in
        elim j [ inl e ↦ (inl e, rw e hit) | inr k ↦ let r = In-filter p ys k in (inr r.0, r.1) ]
    | inr miss ↦ let r = In-filter p ys (rw miss at i) in (inr r.0, r.1)
  ]

  pub In-filter_intro :
      (p : A → Bool) {x : A} (xs : List A) → In x xs → p x ≡ true → In x (filter p xs)
  In-filter_intro p [] i h = absurd i
  In-filter_intro p (y ∷ ys) (inl e) h = rw (rw e at h) (inl e)
  In-filter_intro p (y ∷ ys) (inr i) h = elim (Bool-cases (p y)) [
    | inl hit ↦ rw hit (inr (In-filter_intro p ys i h))
    | inr miss ↦ rw miss (In-filter_intro p ys i h)
  ]

  pub In-append_left : (x : A) (xs ys : List A) → In x xs → In x (xs ++ ys)
  In-append_left x [] ys i = absurd i
  In-append_left x (y ∷ xs) ys (inl e) = inl e
  In-append_left x (y ∷ xs) ys (inr i) = inr (In-append_left x xs ys i)

  pub In-append_right : (x : A) (xs ys : List A) → In x ys → In x (xs ++ ys)
  In-append_right x [] ys i = i
  In-append_right x (y ∷ xs) ys i = inr (In-append_right x xs ys i)

  pub In-append_split : (x : A) (xs ys : List A) → In x (xs ++ ys) → In x xs ⊎ In x ys
  In-append_split x [] ys i = inr i
  In-append_split x (y ∷ xs) ys (inl e) = inl (inl e)
  In-append_split x (y ∷ xs) ys (inr i) = elim (In-append_split x xs ys i) [
    | inl l ↦ inl (inr l)
    | inr r ↦ inr r
  ]

  pub find→In : (p : A → Bool) {x : A} (xs : List A) → find p xs ≡ some x → In x xs × (p x ≡ true)
  find→In p [] h = cc
  find→In p (y ∷ ys) h = elim (Bool-cases (p y)) [
    | inl hit ↦ ground (arith, hit)
    | inr miss ↦ let r = find→In p ys (rw miss at h) in (inr r.0, r.1)
  ]

  pub find-none : (p : A → Bool) {x : A} (xs : List A) → find p xs ≡ none → In x xs → p x ≡ false
  find-none p [] h i = absurd i
  find-none p (y ∷ ys) h (inl e) = rw e (ground arith)
  find-none p (y ∷ ys) h (inr i) = find-none p ys (ground arith) i

  pub In-map : {B : Type 0} (f : A → B) (x : A) (xs : List A) → In x xs → In (f x) (map f xs)
  In-map f x [] i = absurd i
  In-map f x (y ∷ ys) (inl e) = inl (ap f e)
  In-map f x (y ∷ ys) (inr i) = inr (In-map f x ys i)
