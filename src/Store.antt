-- ===== src/Store.antt =====
-- apps/server/src/store.ts: `JsonStore.mutate` over a state `S`, and errors as values.
pub mod Atomic
use army_of_god.Prelude.{◌≡◌, refl, Bool, true, false, List, [], ◌∷◌, if◌then◌else◌}

-- What a mutation gives: a value, or what it throws.
pub data Result {ℓ κ} (E : Type ℓ) (A : Type κ) : Type (ℓ ⊔ κ) where
  ok : A → Result E A
  err : E → Result E A

infixl 5 ◌>>=◌ ◌>>◌
abbrev pub ◌>>=◌ {ℓ κ μ} :
    {E : Type ℓ} {A : Type κ} {B : Type μ} → Result E A → (A → Result E B) → Result E B
ok a >>= f = f a
err e >>= f = err e

abbrev pub ◌>>◌ {ℓ μ} : {E : Type ℓ} {B : Type μ} → Result E (Unit {0}) → Result E B → Result E B
m >> k = m >>= λ _. k

abbrev pub require {ℓ} : {E : Type ℓ} → Bool → E → Result E (Unit {0})
require true e = ok tt
require false e = err e

-- A chain that gives a value has given one at each step.
pub bind_ok {ℓ κ μ} :
    {E : Type ℓ} {A : Type κ} {B : Type μ} (m : Result E A) (f : A → Result E B) (b : B)
    → (m >>= f) ≡ ok b
    → (a : A) × (m ≡ ok a) × (f a ≡ ok b)
bind_ok (ok a) f b h = (a, refl, h)
bind_ok (err e) f b h = cc

-- What `mutate` rejects with: the mutation's own error, or the write of the file.
pub data MutateError (E : Type 0) : Type 0 where
  thrown : E → MutateError E
  not_persisted : MutateError E

module _ {S E A : Type 0} where
  -- The mutation works on a clone, the clone is persisted, and only then does it become the data.
  commit : Bool → S → Result E (A × S) → Result (MutateError E) A × S
  commit persisted old (err e) = (err (thrown e), old)
  commit persisted old (ok (a, next)) = if persisted then (ok a, next) else (err not_persisted, old)

  unfoldable pub mutate : Bool → (S → Result E (A × S)) → S → Result (MutateError E) A × S
  unfolding commit
  mutate persisted mutation s = commit persisted s (mutation s)

  -- The queue: one mutation after another, whatever became of the one before.
  unfoldable pub run_queue : List (Bool × (S → Result E (A × S))) → S → S
  unfolding mutate
  run_queue [] s = s
  run_queue ((persisted, m) ∷ ms) s = run_queue ms (mutate persisted m s).1
