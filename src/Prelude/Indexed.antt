-- ===== src/Prelude/Indexed.antt =====
-- Lists at an index, with one element changed, counted and mapped.
use Prim.Native.Nat.{ℕ, zero, suc, ◌<◌, ◌≤◌}
use mathlib.Core.Path.{◌≡◌, refl, ap}
use mathlib.Core.Logic.{◌⊎◌, inl, inr}
use mathlib.Core.Bool.{Bool, true, false}
use mathlib.Core.Option.{some}
use mathlib.Core.List.{List, [], ◌∷◌, ◌++◌, map}
use native.Mathlib.Omega.{arith}
use army_of_god.Prelude.Tests.{Bool-cases}
use army_of_god.Prelude.Lists.{
  length, get_elem?, any, filter, update_first, count_if, find, All, In,
}

module _ {A : Type 0} where
  pub get_elem?→lt : (xs : List A) (i : ℕ) {x : A} → get_elem? xs i ≡ some x → i < length xs
  get_elem?→lt [] i h = cc
  get_elem?→lt (y ∷ ys) zero h = omega arith
  get_elem?→lt (y ∷ ys) (suc i) h = omega (arith, get_elem?→lt ys i h)

  pub lt→get_elem? : (xs : List A) (i : ℕ) → i < length xs → (x : A) × (get_elem? xs i ≡ some x)
  lt→get_elem? [] i h = elim h [ ]
  lt→get_elem? (y ∷ ys) zero h = (y, refl)
  lt→get_elem? (y ∷ ys) (suc i) h = lt→get_elem? ys i (omega arith)

  pub get_elem?→In : (xs : List A) (i : ℕ) {x : A} → get_elem? xs i ≡ some x → In x xs
  get_elem?→In [] i h = cc
  get_elem?→In (y ∷ ys) zero h = inl (ground arith)
  get_elem?→In (y ∷ ys) (suc i) h = inr (get_elem?→In ys i h)

  pub All-append : (P : A → Type 0) (xs ys : List A) → All P xs → All P ys → All P (xs ++ ys)
  All-append P [] ys p q = q
  All-append P (x ∷ xs) ys p q = (p.0, All-append P xs ys p.1 q)

  pub In→All : (P : A → Type 0) (xs : List A) → ((x : A) → In x xs → P x) → All P xs
  In→All P [] h = tt
  In→All P (x ∷ xs) h = (h x (inl refl), In→All P xs (λ y i. h y (inr i)))

  pub All→In : (P : A → Type 0) {x : A} (xs : List A) → All P xs → In x xs → P x
  All→In P [] h i = absurd i
  All→In P (y ∷ ys) h (inl e) = rw e h.0
  All→In P (y ∷ ys) h (inr i) = All→In P ys h.1 i

module _ {A : Type 0} where
  -- A list with one element added: where each element stands.
  pub get_elem?-concat :
      (xs : List A) (x : A) (k : ℕ) (y : A)
      → get_elem? (xs ++ x ∷ []) k ≡ some y
      → (get_elem? xs k ≡ some y) ⊎ ((k ≡ length xs) × (y ≡ x))
  get_elem?-concat [] x zero y h = inr (refl, ground arith)
  get_elem?-concat [] x (suc k) y h = cc
  get_elem?-concat (z ∷ zs) x zero y h = inl h
  get_elem?-concat (z ∷ zs) x (suc k) y h = elim (get_elem?-concat zs x k y h) [
    | inl old ↦ inl old
    | inr (at, new) ↦ inr (ap suc at, new)
  ]

  -- An element of an updated list is old, or the update of an old one that fitted.
  pub get_elem?-update_first :
      (p : A → Bool) (f : A → A) (xs : List A) (k : ℕ) (y : A)
      → get_elem? (update_first p f xs) k ≡ some y
      → (x : A) × (get_elem? xs k ≡ some x) × ((y ≡ x) ⊎ ((p x ≡ true) × (y ≡ f x)))
  get_elem?-update_first p f [] k y h = cc
  get_elem?-update_first p f (x ∷ xs) zero y h = elim (Bool-cases (p x)) [
    | inl hit ↦ (x, refl, inr (hit, ground arith))
    | inr miss ↦ (x, refl, inl (ground arith))
  ]
  get_elem?-update_first p f (x ∷ xs) (suc k) y h = elim (Bool-cases (p x)) [
    | inl hit ↦ (y, rw hit at h, inl refl)
    | inr miss ↦ get_elem?-update_first p f xs k y (rw miss at h)
  ]

  pub length-update_first :
      (p : A → Bool) (f : A → A) (xs : List A) → length (update_first p f xs) ≡ length xs
  length-update_first p f [] = refl
  length-update_first p f (x ∷ xs) = ground (arith, length-update_first p f xs)

  pub update_first_none :
      (p : A → Bool) (f : A → A) (xs : List A) → any p xs ≡ false → update_first p f xs ≡ xs
  update_first_none p f [] h = refl
  update_first_none p f (x ∷ xs) h = ground (arith, update_first_none p f xs)

module _ {A : Type 0} where
  pub count_if_mono :
      (p q : A → Bool) (xs : List A)
      → ((x : A) → q x ≡ true → p x ≡ true)
      → count_if q xs ≤ count_if p xs
  count_if_mono p q [] h = omega arith
  count_if_mono p q (x ∷ xs) h = ground (arith, count_if_mono p q xs h, h x)

  pub count_if_lt :
      (p q : A → Bool) {y : A} (xs : List A)
      → ((x : A) → q x ≡ true → p x ≡ true)
      → In y xs
      → p y ≡ true
      → q y ≡ false
      → count_if q xs < count_if p xs
  count_if_lt p q [] h i hp hq = absurd i
  count_if_lt p q (x ∷ xs) h (inl e) hp hq =
      let hp' : p x ≡ true = rw e at hp in
      let hq' : q x ≡ false = rw e at hq in ground (arith, count_if_mono p q xs h)
  count_if_lt p q (x ∷ xs) h (inr i) hp hq = ground (arith, count_if_lt p q xs h i hp hq, h x)

  pub count_if-le-length : (p : A → Bool) (xs : List A) → count_if p xs ≤ length xs
  count_if-le-length p [] = omega arith
  count_if-le-length p (x ∷ xs) = ground (arith, count_if-le-length p xs)

module _ {A : Type 0} where
  pub filter_empty :
      (p : A → Bool) {x : A} (xs : List A) → length (filter p xs) ≡ 0 → In x xs → p x ≡ false
  filter_empty p [] h i = absurd i
  filter_empty p (y ∷ ys) h (inl e) = rw e (ground (arith, h))
  filter_empty p (y ∷ ys) h (inr i) = filter_empty p ys (ground (arith, h)) i

  pub empty_filter :
      (p : A → Bool) (xs : List A) → ((x : A) → In x xs → p x ≡ false) → length (filter p xs) ≡ 0
  empty_filter p [] h = refl
  empty_filter p (y ∷ ys) h = ground (arith, h y (inl refl), empty_filter p ys (λ x i. h x (inr i)))

  pub In-of_map :
      {B : Type 0} (f : A → B) (y : B) (xs : List A)
      → In y (map f xs)
      → (x : A) × In x xs × (y ≡ f x)
  In-of_map f y [] i = absurd i
  In-of_map f y (x ∷ xs) (inl e) = (x, inl refl, e)
  In-of_map f y (x ∷ xs) (inr i) = let (z, j, e) = In-of_map f y xs i in (z, inr j, e)

  pub length-map : {B : Type 0} (f : A → B) (xs : List A) → length (map f xs) ≡ length xs
  length-map f [] = refl
  length-map f (x ∷ xs) = ap suc (length-map f xs)

  -- What `find` gives after the update of what it gave before.
  pub find-update_first :
      (p : A → Bool) (f : A → A) (xs : List A) (x : A)
      → find p xs ≡ some x
      → p (f x) ≡ true
      → find p (update_first p f xs) ≡ some (f x)
  find-update_first p f [] x h k = cc
  find-update_first p f (y ∷ ys) x h k = elim (Bool-cases (p y)) [
    | inl hit ↦ let same : y ≡ x = ground (arith, h, hit) in rw (hit, same) (rw k refl)
    | inr miss ↦ rw miss (rw miss (find-update_first p f ys x (rw miss at h) k))
  ]
