-- ===== src/Prelude/Maps.antt =====
-- Association lists: `Map` of the source, in the order in which the keys were added.
use Prim.Native.Nat.{suc, ◌≤◌}
use mathlib.Core.Path.{◌≡◌, refl}
use mathlib.Core.Logic.{◌≢◌, inl, inr}
use mathlib.Core.Bool.{true, false, ◌||◌}
use mathlib.Core.Option.{Option, none, some}
use mathlib.Core.List.{List, [], ◌∷◌}
use native.Mathlib.Omega.{arith}
use army_of_god.Prelude.Tests.{if◌then◌else◌, Bool-cases}
use army_of_god.Prelude.Classes.{Eq, ◌==◌, eq→≡, eq_self}
use army_of_god.Prelude.Lists.{length, In}
use army_of_god.Prelude.Sets.{elem, IsDistinct}

module _ {K V : Type 0} ⦃eq : Eq K⦄ where
  -- `map.get(key)`
  abbrev pub lookup : K → List (K × V) → Option V
  lookup k [] = none
  lookup k ((l, v) ∷ rest) = let later = lookup k rest in if k == l then some v else later

  -- `map.set(key, value)`: a known key keeps its place.
  abbrev pub put : K → V → List (K × V) → List (K × V)
  put k v [] = (k, v) ∷ []
  put k v ((l, w) ∷ rest) =
      let later = (l, w) ∷ put k v rest in if k == l then (l, v) ∷ rest else later

  -- `map.keys()`
  abbrev pub keys : List (K × V) → List K
  keys [] = []
  keys ((l, v) ∷ rest) = l ∷ keys rest

  pub In→keys : (k : K) (v : V) (m : List (K × V)) → In (k, v) m → elem k (keys m) ≡ true
  In→keys k v [] i = absurd i
  In→keys k v ((l, w) ∷ m) (inl e) = let same : k ≡ l = cc in rw same (ground (arith, eq_self l))
  In→keys k v ((l, w) ∷ m) (inr i) = ground (arith, In→keys k v m i)

  pub lookup→In : (k : K) (v : V) (m : List (K × V)) → lookup k m ≡ some v → In (k, v) m
  lookup→In k v [] h = cc
  lookup→In k v ((l, w) ∷ m) h = elim (Bool-cases (k == l)) [
    | inl same ↦ inl (cc (eq→≡ k l same, rw same at h))
    | inr other ↦ inr (lookup→In k v m (rw other at h))
  ]

  pub In→lookup :
      (k : K) (v : V) (m : List (K × V)) → IsDistinct (keys m) → In (k, v) m → lookup k m ≡ some v
  In→lookup k v [] d i = absurd i
  In→lookup k v ((l, w) ∷ m) d (inl e) =
      let same : k ≡ l = cc in let value : v ≡ w = cc in rw same (rw (eq_self l) (rw value refl))
  In→lookup k v ((l, w) ∷ m) d (inr i) = elim (Bool-cases (k == l)) [
    | inl same ↦ absurd (cc (d.0, eq→≡ k l same, In→keys k v m i))
    | inr other ↦ rw other (In→lookup k v m d.1 i)
  ]

  pub lookup_none→keys : (k : K) (m : List (K × V)) → lookup k m ≡ none → elem k (keys m) ≡ false
  lookup_none→keys k [] h = refl
  lookup_none→keys k ((l, w) ∷ m) h = elim (Bool-cases (k == l)) [
    | inl same ↦ absurd (cc (rw same at h))
    | inr other ↦ rw other (lookup_none→keys k m (rw other at h))
  ]

  pub keys→lookup :
      (k : K) (m : List (K × V)) → elem k (keys m) ≡ true → (v : V) × (lookup k m ≡ some v)
  keys→lookup k [] h = cc
  keys→lookup k ((l, w) ∷ m) h = elim (Bool-cases (k == l)) [
    | inl same ↦ (w, rw same refl)
    | inr other ↦ let (v, e) = keys→lookup k m (rw other at h) in (v, rw other e)
  ]

  pub keys-put :
      (j k : K) (v : V) (m : List (K × V))
      → elem j (keys (put k v m)) ≡ ((j == k) || elem j (keys m))
  keys-put j k v [] = ground arith
  keys-put j k v ((l, w) ∷ m) = elim (Bool-cases (k == l)) [
    | inl same ↦ rw same (rw (eq→≡ k l same) (ground arith))
    | inr other ↦ rw other (ground (arith, keys-put j k v m))
  ]

  pub lookup-put_self : (k : K) (v : V) (m : List (K × V)) → lookup k (put k v m) ≡ some v
  lookup-put_self k v [] = rw (eq_self k) refl
  lookup-put_self k v ((l, w) ∷ m) = elim (Bool-cases (k == l)) [
    | inl same ↦ rw same (rw same refl)
    | inr other ↦ rw other (rw other (lookup-put_self k v m))
  ]

  pub lookup-put_other :
      (j k : K) (v : V) (m : List (K × V)) → j ≢ k → lookup j (put k v m) ≡ lookup j m
  lookup-put_other j k v [] ne = elim (Bool-cases (j == k)) [
    | inl same ↦ absurd (ne (eq→≡ j k same))
    | inr other ↦ rw other refl
  ]
  lookup-put_other j k v ((l, w) ∷ m) ne = elim (Bool-cases (k == l)) [
    | inl same ↦ elim (Bool-cases (j == l)) [
      | inl hit ↦ absurd (ne (cc (eq→≡ j l hit, eq→≡ k l same)))
      | inr miss ↦ rw same (rw miss refl)
    ]
    | inr other ↦ rw other (ground (arith, lookup-put_other j k v m ne))
  ]

  pub put-IsDistinct :
      (k : K) (v : V) (m : List (K × V)) → IsDistinct (keys m) → IsDistinct (keys (put k v m))
  put-IsDistinct k v [] d = (refl, tt)
  put-IsDistinct k v ((l, w) ∷ m) d = elim (Bool-cases (k == l)) [
    | inl same ↦ rw same d
    | inr other ↦ rw other (
      elim (Bool-cases (l == k)) [
        | inl back ↦ absurd (cc (other, eq→≡ l k back, eq_self k))
        | inr apart ↦ ground (arith, keys-put l k v m, d.0)
      ],
      put-IsDistinct k v m d.1,
    )
  ]

  pub length-put : (k : K) (v : V) (m : List (K × V)) → length (put k v m) ≤ suc (length m)
  length-put k v [] = omega arith
  length-put k v ((l, w) ∷ m) = elim (Bool-cases (k == l)) [
    | inl same ↦ rw same (omega arith)
    | inr other ↦ rw other (omega (arith, length-put k v m))
  ]

  pub length-le-put : (k : K) (v : V) (m : List (K × V)) → length m ≤ length (put k v m)
  length-le-put k v [] = omega arith
  length-le-put k v ((l, w) ∷ m) = elim (Bool-cases (k == l)) [
    | inl same ↦ rw same (omega arith)
    | inr other ↦ rw other (omega (arith, length-le-put k v m))
  ]
