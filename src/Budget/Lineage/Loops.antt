-- ===== src/Budget/Lineage/Loops.antt =====
-- The two loops of `contractLineage` (budget.ts), against closure of the lineage.
use Prim.Native.String.{String}
use army_of_god.Prelude.{
  ℕ, zero, suc, ◌<◌, ◌≡◌, refl, ◌∙◌, ap, inl, inr, true, false, not, some, List, [], ◌∷◌, ◌++◌, map,
  arith, length, elem, In, elem-append, elem-concat, elem-concat_self, IsDistinct, eq→≡, eq_self,
  string_eq, Bool-cases, Option-cases, count_if-le-length,
}
use army_of_god.Records.{TaskContract, truthy_id}
use army_of_god.Budget.Lineage.{
  previous, backwards, joins, one_pass, grows, forwards, contract_lineage,
}
use army_of_god.Budget.Lineage.Closed.{
  IsForward, IsBackward, IsClosed, IsWalked, outside, outside-lt, backwards-IsBackward, same_entry,
}

module _ {F : Type 0} where
  one_pass-keeps :
      (es : List (TaskContract F)) (l : List String) (a : String)
      → elem a l ≡ true
      → elem a (one_pass es l) ≡ true
  unfolding one_pass
  one_pass-keeps [] l a h = h
  one_pass-keeps (e ∷ es) l a h = elim (Bool-cases (joins l e)) [
    | inl adds ↦ rw adds (one_pass-keeps es (l ++ e.id ∷ []) a (elem-concat a e.id l h))
    | inr skips ↦ rw skips (one_pass-keeps es l a h)
  ]

  pub joins_parts :
      (l : List String) (e : TaskContract F)
      → joins l e ≡ true
      → (q : String) × (truthy_id e.supersedes ≡ some q) × (elem q l ≡ true) × (elem e.id l ≡ false)
  joins_parts l e h = elim (Option-cases (truthy_id e.supersedes)) [
    | inl first ↦ ground (arith, first)
    | inr (q, sup) ↦ (q, sup, ground (arith, sup), ground (arith, sup))
  ]

  -- A pass that may add something adds something.
  one_pass-adds :
      (es : List (TaskContract F)) (l : List String)
      → grows es l ≡ true
      → (e : TaskContract F) × In e es × (elem e.id l ≡ false) × (elem e.id (one_pass es l) ≡ true)
  unfolding one_pass grows
  one_pass-adds [] l h = cc
  one_pass-adds (e ∷ es) l h = elim (Bool-cases (joins l e)) [
    | inl adds ↦ (
      e,
      inl refl,
      (joins_parts l e adds).3,
      rw adds (one_pass-keeps es (l ++ e.id ∷ []) e.id (elem-concat_self e.id l)),
    )
    | inr skips ↦
        let (x, i, gone, there) = one_pass-adds es l (rw skips at h) in
        (x, inr i, gone, rw skips there)
  ]

  not_grows-IsForward :
      (es : List (TaskContract F)) (l : List String)
      → grows es l ≡ false
      → IsForward es (λ a. elem a l)
  unfolding grows
  not_grows-IsForward [] l h e q i sup there = absurd i
  not_grows-IsForward (x ∷ es) l h e q (inl same) sup there =
      let stays : joins l x ≡ false = ground (arith, h) in
      let stays' : joins l e ≡ false = rw same stays in ground (arith, stays', sup, there)
  not_grows-IsForward (x ∷ es) l h e q (inr i) sup there =
      not_grows-IsForward es l (ground (arith, h)) e q i sup there

  -- An entry that joins replaces a version that is in: one more id keeps the set closed backward.
  add-IsBackward :
      (all : List (TaskContract F)) (e : TaskContract F) (l : List String)
      → IsDistinct (map (λ x. x.id) all)
      → In e all
      → joins l e ≡ true
      → IsBackward all (λ a. elem a l)
      → IsBackward all (λ a. elem a (l ++ e.id ∷ []))
  add-IsBackward all e l d i adds back x p ix ip sup there =
      let (q, sup_e, there_q, gone) = joins_parts l e adds in
      elim (Bool-cases (elem x.id l)) [
        | inl old ↦ elem-concat p.id e.id l (back x p ix ip sup old)
        | inr new ↦
            let id : x.id ≡ e.id = new_is x.id e.id l there new in
            let here = same_entry all x e d ix i id in
            let at : q ≡ p.id =
              ground
                (arith, sup, sup_e, ap (λ (y : TaskContract F). truthy_id y.supersedes) here) in
            elem-concat p.id e.id l (rw at at there_q)
      ]
    where
      new_is :
          (a b : String) (l : List String) → elem a (l ++ b ∷ []) ≡ true → elem a l ≡ false → a ≡ b
      new_is a b l h gone =
          let e : elem a (l ++ b ∷ []) ≡ elem a (b ∷ []) =
            elem-append a l (b ∷ []) ∙ rw gone refl in
          eq→≡ a b (ground (arith, e))

  one_pass-IsBackward :
      (all es : List (TaskContract F)) (l : List String)
      → IsDistinct (map (λ x. x.id) all)
      → ((e : TaskContract F) → In e es → In e all)
      → IsBackward all (λ a. elem a l)
      → IsBackward all (λ a. elem a (one_pass es l))
  unfolding one_pass
  one_pass-IsBackward all [] l d sub back = back
  one_pass-IsBackward all (e ∷ es) l d sub back = elim (Bool-cases (joins l e)) [
    | inl adds ↦ rw adds (
        one_pass-IsBackward all es (l ++ e.id ∷ []) d (λ x i. sub x (inr i))
          (add-IsBackward all e l d (sub e (inl refl)) adds back))
    | inr skips ↦ rw skips (one_pass-IsBackward all es l d (λ x i. sub x (inr i)) back)
  ]

  forwards-IsClosed :
      (fuel : ℕ) (all : List (TaskContract F)) (l : List String)
      → IsDistinct (map (λ x. x.id) all)
      → outside all l < fuel
      → IsBackward all (λ a. elem a l)
      → IsClosed all (forwards fuel all l)
  unfolding forwards
  forwards-IsClosed zero all l d enough back = elim enough [ ]
  forwards-IsClosed (suc fuel) all l d enough back = elim (Bool-cases (grows all l)) [
    | inl more ↦
        let (e, i, gone, there) = one_pass-adds all l more in
        let shrinks = outside-lt all e l (one_pass all l) (one_pass-keeps all l) i gone there in
        rw more (
          forwards-IsClosed fuel all (one_pass all l) d (omega arith)
            (one_pass-IsBackward all all l d (λ x i. i) back))
    | inr finished ↦
        rw finished (record { forward = not_grows-IsForward all l finished; backward = back })
  ]

  forwards-keeps :
      (fuel : ℕ) (all : List (TaskContract F)) (l : List String) (a : String)
      → elem a l ≡ true
      → elem a (forwards fuel all l) ≡ true
  unfolding forwards
  forwards-keeps zero all l a h = h
  forwards-keeps (suc fuel) all l a h = elim (Bool-cases (grows all l)) [
    | inl more ↦ rw more (forwards-keeps fuel all (one_pass all l) a (one_pass-keeps all l a h))
    | inr finished ↦ rw finished h
  ]

  backwards-keeps :
      (fuel : ℕ) (all : List (TaskContract F)) (c : TaskContract F) (l : List String) (a : String)
      → elem a l ≡ true
      → elem a (backwards fuel all c l) ≡ true
  unfolding backwards
  backwards-keeps zero all c l a h = h
  backwards-keeps (suc fuel) all c l a h = elim (Option-cases (previous all c)) [
    | inl first ↦ rw (first, backwards) h
    | inr (p, prev) ↦ elim (Bool-cases (elem p.id l)) [
      | inl seen ↦ rw (prev, backwards, seen) h
      | inr new ↦
          rw (prev, backwards, new)
            (backwards-keeps fuel all p (l ++ p.id ∷ []) a (elem-concat a p.id l h))
    ]
  ]

  -- Where ids are distinct, the lineage of a known contract holds it and is closed both ways: every
  -- known version that a version of it replaced, and every version that replaced one, is in it.
  pub contract_lineage-IsClosed :
      (contract : TaskContract F) (all : List (TaskContract F))
      → IsDistinct (map (λ x. x.id) all)
      → In contract all
      → (elem contract.id (contract_lineage contract all) ≡ true)
        × IsClosed all (contract_lineage contract all)
  unfolding contract_lineage
  contract_lineage-IsClosed contract all d i =
      let start = contract.id ∷ [] in
      let fuel = suc (length all) in
      let self : elem contract.id start ≡ true = ground (arith, eq_self contract.id) in
      let w : IsWalked all contract start = record {
        known = i;
        present = self;
        settled =
            λ e p ie ip sup there ne. absurd (ne (eq→≡ e.id contract.id (ground (arith, there))));
      } in
      let walked = backwards fuel all contract start in
      (
        forwards-keeps fuel all walked contract.id
            (backwards-keeps fuel all contract start contract.id self),
        forwards-IsClosed fuel all walked d
            (omega (arith, count_if-le-length (λ (e : TaskContract F). not (elem e.id walked)) all))
            (backwards-IsBackward fuel all contract start d
              (omega
                (arith, count_if-le-length (λ (e : TaskContract F). not (elem e.id start)) all))
              w),
      )
