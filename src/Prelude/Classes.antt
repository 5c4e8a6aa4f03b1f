-- ===== src/Prelude/Classes.antt =====
-- Decidable equality as an interface: `===` of the source on numbers, strings and texts.
use Prim.Native.Nat.{ℕ}
use Prim.Native.String.{String}
use mathlib.Core.Path.{◌≡◌, refl}
use mathlib.Core.Logic.{◌≢◌}
use mathlib.Core.Bool.{Bool, true, false}
use text.Mathlib.Text.{◌==◌ as same_string}
use text.Mathlib.TextEquality.{eq_iff as same_string_iff}
use army_of_god.Prelude.Tests.{nat_beq, nat_beq_iff}

-- A test that holds of equal values and of no others.
pub record Eq {ℓ} (A : Type ℓ) : Type ℓ where
  pub test : A → A → Bool
  pub sound : (x y : A) → test x y ≡ true → x ≡ y
  pub on_equal : (x : A) → test x x ≡ true

infix 50 ◌==◌
abbrev pub ◌==◌ {ℓ} : {A : Type ℓ} ⦃eq : Eq A⦄ → A → A → Bool
◌==◌ ⦃eq⦄ x y = eq.test x y

module _ {ℓ} {A : Type ℓ} ⦃eq : Eq A⦄ where
  pub eq→≡ : (x y : A) → (x == y) ≡ true → x ≡ y
  eq→≡ x y = eq.sound x y

  pub eq_self : (x : A) → (x == x) ≡ true
  eq_self x = eq.on_equal x

  pub eq_false→≢ : (x y : A) → (x == y) ≡ false → x ≢ y
  eq_false→≢ x y h p = cc (h, p, eq.on_equal y)

instance abbrev pub nat_eq : Eq ℕ
nat_eq = record {
  test = nat_beq;
  sound = λ x y. (nat_beq_iff x y).0;
  on_equal = λ x. (nat_beq_iff x x).1 refl;
}

instance abbrev pub string_eq : Eq String
string_eq = record {
  test = same_string;
  sound = λ x y. (same_string_iff x y).0;
  on_equal = λ x. (same_string_iff x x).1 refl;
}
