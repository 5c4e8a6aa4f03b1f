-- ===== src/Prelude/Missing.antt =====
-- How many of the numbers below a bound a list lacks: the measure of a loop over indices.
use Prim.Native.Nat.{ℕ, zero, suc, ◌+◌, ◌<◌, ◌≤◌}
use mathlib.Core.Path.{◌≡◌, refl}
use mathlib.Core.Logic.{inl, inr}
use mathlib.Core.Bool.{true, false}
use mathlib.Core.List.{List, [], ◌∷◌}
use native.Mathlib.Omega.{arith}
use army_of_god.Prelude.Tests.{if◌then◌else◌, Bool-cases}
use army_of_god.Prelude.Classes.{◌==◌, nat_eq}
use army_of_god.Prelude.Lists.{length, All}
use army_of_god.Prelude.Sets.{elem, IsDistinct}

pub missing : ℕ → List ℕ → ℕ
missing zero d = 0
missing (suc n) d = (if elem n d then 0 else 1) + missing n d

missing-nil : (n : ℕ) → missing n [] ≡ n
unfolding missing
missing-nil zero = refl
missing-nil (suc n) = omega (arith, missing-nil n)

missing_above : (n x : ℕ) (d : List ℕ) → n ≤ x → missing n (x ∷ d) ≡ missing n d
unfolding missing
missing_above zero x d h = refl
missing_above (suc n) x d h = ground (arith, missing_above n x d)

missing-cons :
    (n x : ℕ) (d : List ℕ) → x < n → elem x d ≡ false → missing n (x ∷ d) + 1 ≡ missing n d
unfolding missing
missing-cons zero x d h fresh = absurd (omega arith)
missing-cons (suc n) x d h fresh = elim (Bool-cases (n == x)) [
  | inl same ↦ let e : n ≡ x = ground arith in ground (arith, missing_above n x d)
  | inr other ↦ ground (arith, missing-cons n x d)
]

-- Distinct numbers below `n` and those that are missing make up `n`.
pub length-add-missing :
    (n : ℕ) (d : List ℕ) → IsDistinct d → All (λ i. i < n) d → length d + missing n d ≡ n
length-add-missing n [] p q = omega (arith, missing-nil n)
length-add-missing n (x ∷ d) p q =
    omega (arith, length-add-missing n d p.1 q.1, missing-cons n x d q.0 p.0)

-- Nothing is missing exactly when every number below `n` is there.
pub none_missing : (n : ℕ) (d : List ℕ) (i : ℕ) → missing n d ≡ 0 → i < n → elem i d ≡ true
unfolding missing
none_missing zero d i h lt = absurd (omega arith)
none_missing (suc n) d i h lt = elim (Bool-cases (n == i)) [
  | inl same ↦ let e : n ≡ i = ground arith in rw (← e) (ground arith)
  | inr other ↦ ground (arith, none_missing n d i)
]

-- The least missing number.
pub record Least (n : ℕ) (d : List ℕ) : Type 0 where
  pub at : ℕ
  pub bound : at < n
  pub absent : elem at d ≡ false
  pub below : (j : ℕ) → j < at → elem j d ≡ true

widen : {n : ℕ} {d : List ℕ} → Least n d → Least (suc n) d
widen l = record { at = l.at; bound = omega (arith, l.bound); absent = l.absent; below = l.below }

pub Least-missing : (n : ℕ) (d : List ℕ) → 0 < missing n d → Least n d
unfolding missing
Least-missing zero d h = absurd (omega arith)
Least-missing (suc n) d h = elim (Bool-cases (elem n d)) [
  | inl there ↦
      let some_below : 0 < 0 + missing n d = rw there at h in
      widen (Least-missing n d (omega arith))
  | inr gone ↦
      elim (missing n d) as (λ m. missing n d ≡ m → Least (suc n) d) [
        | zero ↦ λ e. record {
          at = n;
          bound = omega arith;
          absent = gone;
          below = λ j. none_missing n d j e;
        }
        | suc m ↦ λ e. widen (Least-missing n d (omega arith))
      ]
        refl
]
