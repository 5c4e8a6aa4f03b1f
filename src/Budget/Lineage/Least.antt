-- ===== src/Budget/Lineage/Least.antt =====
-- The two loops of `contractLineage` (budget.ts), against any closed set.
use Prim.Native.String.{String}
use army_of_god.Prelude.{
  ℕ, zero, suc, ◌≡◌, refl, ◌∙◌, inl, inr, Bool, true, List, [], ◌∷◌, ◌++◌, arith, length, elem, In,
  elem-append, eq→≡, string_eq, Bool-cases, Option-cases,
}
use army_of_god.Records.{TaskContract}
use army_of_god.Budget.Lineage.{
  previous, backwards, joins, one_pass, grows, forwards, contract_lineage,
}
use army_of_god.Budget.Lineage.Closed.{IsForward, IsBackward, previous_sound}
use army_of_god.Budget.Lineage.Loops.{joins_parts}

module _ {F : Type 0} where
  module _ (all : List (TaskContract F)) (P : String → Bool) where
    concat_within :
        (l : List String) (b : String)
        → ((a : String) → elem a l ≡ true → P a ≡ true)
        → P b ≡ true
        → (a : String) → elem a (l ++ b ∷ []) ≡ true
        → P a ≡ true
    concat_within l b sub pb a h = elim (Bool-cases (elem a l)) [
      | inl old ↦ sub a old
      | inr new ↦
          let e : elem a (l ++ b ∷ []) ≡ elem a (b ∷ []) = elem-append a l (b ∷ []) ∙ rw new refl in
          rw (eq→≡ a b (ground (arith, e))) pb
    ]

    backwards_within :
        (fuel : ℕ) (c : TaskContract F) (l : List String)
        → IsBackward all P
        → In c all
        → P c.id ≡ true
        → ((a : String) → elem a l ≡ true → P a ≡ true)
        → (a : String) → elem a (backwards fuel all c l) ≡ true
        → P a ≡ true
    unfolding backwards
    backwards_within zero c l back i pc sub = sub
    backwards_within (suc fuel) c l back i pc sub = elim (Option-cases (previous all c)) [
      | inl first ↦ rw (first, backwards) sub
      | inr (p, prev) ↦
          let (there, sup) = previous_sound all c p prev in
          let pp = back c p i there sup pc in
          elim (Bool-cases (elem p.id l)) [
            | inl seen ↦ rw (prev, backwards, seen) sub
            | inr new ↦
                rw (prev, backwards, new)
                  (backwards_within fuel p (l ++ p.id ∷ []) back there pp
                    (concat_within l p.id sub pp))
          ]
    ]

    one_pass_within :
        (es : List (TaskContract F)) (l : List String)
        → IsForward all P
        → ((e : TaskContract F) → In e es → In e all)
        → ((a : String) → elem a l ≡ true → P a ≡ true)
        → (a : String) → elem a (one_pass es l) ≡ true
        → P a ≡ true
    unfolding one_pass
    one_pass_within [] l fwd inside sub = sub
    one_pass_within (e ∷ es) l fwd inside sub = elim (Bool-cases (joins l e)) [
      | inl adds ↦
          let (q, sup, there, gone) = joins_parts l e adds in
          let pe = fwd e q (inside e (inl refl)) sup (sub q there) in
          rw adds (
            one_pass_within es (l ++ e.id ∷ []) fwd (λ x i. inside x (inr i))
              (concat_within l e.id sub pe))
      | inr skips ↦ rw skips (one_pass_within es l fwd (λ x i. inside x (inr i)) sub)
    ]

    forwards_within :
        (fuel : ℕ) (l : List String)
        → IsForward all P
        → ((a : String) → elem a l ≡ true → P a ≡ true)
        → (a : String) → elem a (forwards fuel all l) ≡ true
        → P a ≡ true
    unfolding forwards
    forwards_within zero l fwd sub = sub
    forwards_within (suc fuel) l fwd sub = elim (Bool-cases (grows all l)) [
      | inl more ↦
          rw more
            (forwards_within fuel (one_pass all l) fwd (one_pass_within all l fwd (λ x i. i) sub))
      | inr finished ↦ rw finished sub
    ]

    -- Every closed set that holds a known contract holds its lineage.
    pub contract_lineage_least :
        (contract : TaskContract F)
        → In contract all
        → IsForward all P
        → IsBackward all P
        → P contract.id ≡ true
        → (a : String) → elem a (contract_lineage contract all) ≡ true
        → P a ≡ true
    unfolding contract_lineage
    contract_lineage_least contract i fwd back pc = forwards_within (suc (length all)) _ fwd (
        backwards_within (suc (length all)) contract (contract.id ∷ []) back i pc
          (λ a h. rw (eq→≡ a contract.id (ground (arith, h))) pc))
