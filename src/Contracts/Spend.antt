-- ===== src/Contracts/Spend.antt =====
-- What a new version of a contract (service.ts) inherits of the budget: budget.ts on the store after
-- the mutation.
use Prim.Native.String.{String}
use mathlib.Core.Path.{subst}
use army_of_god.Prelude.{
  ◌≡◌, refl, sym, ap, inl, inr, Bool, true, false, Option, none, some, List, [], ◌∷◌, ◌++◌, map,
  arith, elem, In, update_first, ◌==◌, string_eq, Bool-cases, IsDistinct, IsDistinct-append,
  In-append_left, In-append_right,
}
use army_of_god.Records.{TaskBudget, BudgetUsage, TaskContract, truthy_id}
use army_of_god.Records.Runs.{AgentRun}
use army_of_god.Budget.{usage_for_contract, empty_usage, check_budget}
use army_of_god.Budget.Fits.{Fits, check_budget-Fits}
use army_of_god.Budget.Lineage.{contract_lineage}
use army_of_god.Budget.Lineage.Closed.{IsForward, IsBackward}
use army_of_god.Budget.Lineage.Loops.{contract_lineage-IsClosed}
use army_of_god.Budget.Lineage.Least.{contract_lineage_least}
use army_of_god.Budget.Usage.{Covers, usage_from-Covers}
use army_of_god.Contracts.{deprecate, install_version}

Fits-mono : (o : Option TaskBudget) (u v : BudgetUsage) → Covers v u → Fits o v → Fits o u
Fits-mono none u v c h = tt
Fits-mono (some b) u v c h = (
  λ n e. omega (arith, h.0 n e, c.runs),
  λ n e. omega (arith, h.1 n e, c.total),
  λ n e. omega (arith, h.2 n e, c.largest),
)

module _ {F : Type 0} where
  -- A version with the links of `e`.
  abbrev pub SameLinks : TaskContract F → TaskContract F → Type 0
  SameLinks e f = (f.id ≡ e.id) × (f.supersedes ≡ e.supersedes)

  ids-update :
      (id : String) (cs : List (TaskContract F))
      → map (λ c. c.id) (update_first (λ c. c.id == id) deprecate cs) ≡ map (λ c. c.id) cs
  ids-update id [] = refl
  ids-update id (c ∷ cs) = elim (Bool-cases (c.id == id)) [
    | inl hit ↦ rw hit refl
    | inr miss ↦ rw (miss, ids-update id cs) refl
  ]

  pub kept_links :
      (id : String) (cs : List (TaskContract F)) (e : TaskContract F)
      → In e cs
      → (f : TaskContract F) × In f (update_first (λ c. c.id == id) deprecate cs) × SameLinks e f
  kept_links id [] e i = absurd i
  kept_links id (c ∷ cs) e (inl same) = elim (Bool-cases (c.id == id)) [
    | inl hit ↦
        rw hit
          (deprecate c, inl refl, (ap (λ x. x.id) (sym same), ap (λ x. x.supersedes) (sym same)))
    | inr miss ↦
        rw miss (c, inl refl, (ap (λ x. x.id) (sym same), ap (λ x. x.supersedes) (sym same)))
  ]
  kept_links id (c ∷ cs) e (inr i) = elim (Bool-cases (c.id == id)) [
    | inl hit ↦ rw hit (e, inr i, (refl, refl))
    | inr miss ↦ let (f, j, l) = kept_links id cs e i in rw miss (f, inr j, l)
  ]

  map-append_ids :
      (cs : List (TaskContract F)) (next : TaskContract F)
      → map (λ c. c.id) (cs ++ next ∷ []) ≡ map (λ c. c.id) cs ++ next.id ∷ []
  map-append_ids [] next = refl
  map-append_ids (c ∷ cs) next = rw (map-append_ids cs next) refl

  pub ids-install :
      (id : String) (next : TaskContract F) (cs : List (TaskContract F))
      → map (λ c. c.id) (install_version id next cs) ≡ map (λ c. c.id) cs ++ next.id ∷ []
  unfolding install_version
  ids-install id next cs =
      rw (map-append_ids (update_first (λ c. c.id == id) deprecate cs) next, ids-update id cs) refl

  -- The version gets an id of its own.
  pub install_version-IsDistinct :
      (id : String) (next : TaskContract F) (cs : List (TaskContract F))
      → IsDistinct (map (λ c. c.id) cs)
      → elem next.id (map (λ c. c.id) cs) ≡ false
      → IsDistinct (map (λ c. c.id) (install_version id next cs))
  install_version-IsDistinct id next cs d fresh = rw (ids-install id next cs) (
      IsDistinct-append (map (λ c. c.id) cs) (next.id ∷ []) d (refl, tt)
        (λ a i. elim i [ inl e ↦ rw e fresh | inr n ↦ absurd n ]))

  module _ (current next : TaskContract F) (contracts : List (TaskContract F)) where
    abbrev installed : List (TaskContract F)
    installed = install_version current.id next contracts

    old_links :
        (e : TaskContract F)
        → In e contracts
        → (f : TaskContract F) × In f installed × SameLinks e f
    unfolding install_version
    old_links e i =
        let (f, j, l) = kept_links current.id contracts e i in
        (
          f,
          In-append_left f (update_first (λ c. c.id == current.id) deprecate contracts) (next ∷ [])
              j,
          l,
        )

    new-In : In next installed
    unfolding install_version
    new-In =
        In-append_right next (update_first (λ c. c.id == current.id) deprecate contracts)
          (next ∷ []) (inl refl)

    old-IsForward : (P : String → Bool) → IsForward installed P → IsForward contracts P
    old-IsForward P fwd e q i sup h =
        let (f, j, (same, links)) = old_links e i in rw same at (fwd f q j (rw links sup) h)

    old-IsBackward : (P : String → Bool) → IsBackward installed P → IsBackward contracts P
    old-IsBackward P back e p ie ip sup h =
        let (f, jf, (same_f, links_f)) = old_links e ie in
        let (g, jg, (same_g, links_g)) = old_links p ip in
        rw same_g at (back f g jf jg (rw (links_f, same_g) sup) (rw same_f h))

    -- Once the mutation has put a version beside the one that it supersedes, under an id of its own,
    -- the lineage of the new version has consumed at least what the lineage of the old one had: a
    -- new version never starts with a fresh allowance.
    pub install_version-Covers :
        (runs : List (AgentRun F))
        → IsDistinct (map (λ c. c.id) contracts)
        → In current contracts
        → elem next.id (map (λ c. c.id) contracts) ≡ false
        → truthy_id next.supersedes ≡ some current.id
        → Covers
            (usage_for_contract next (install_version current.id next contracts) runs)
            (usage_for_contract current contracts runs)
    unfolding usage_for_contract
    install_version-Covers runs d i fresh sup =
        let (self, closed) =
          contract_lineage-IsClosed next installed
            (install_version-IsDistinct current.id next contracts d fresh) new-In in
        let P = λ (a : String). elem a (contract_lineage next installed) in
        let (f, j, (same, links)) = old_links current i in
        let here : P current.id ≡ true =
          rw same at (closed.backward next f new-In j (rw same sup) self) in
        usage_from-Covers (contract_lineage current contracts) (contract_lineage next installed)
          empty_usage empty_usage runs
          (contract_lineage_least contracts P current i (old-IsForward P closed.forward)
            (old-IsBackward P closed.backward) here)
          (omega arith)

  -- A new version with the budget of the one that it supersedes is refused a run wherever that one
  -- was: where the new version may start a run, so might the old one have.
  pub check_budget-install_version :
      (current next : TaskContract F) (contracts : List (TaskContract F)) (runs : List (AgentRun F))
      → IsDistinct (map (λ c. c.id) contracts)
      → In current contracts
      → elem next.id (map (λ c. c.id) contracts) ≡ false
      → truthy_id next.supersedes ≡ some current.id
      → next.budget ≡ current.budget
      → (check_budget next (install_version current.id next contracts) runs).refusal ≡ none
      → (check_budget current contracts runs).refusal ≡ none
  check_budget-install_version current next contracts runs d i fresh sup same ok =
      let room = (check_budget-Fits next (install_version current.id next contracts) runs).0 ok in
      let covers = install_version-Covers current next contracts runs d i fresh sup in
      (check_budget-Fits current contracts runs).1 (
        Fits-mono current.budget _
          (usage_for_contract next (install_version current.id next contracts) runs) covers
          (subst
            (λ o. Fits o (usage_for_contract next (install_version current.id next contracts) runs))
            same room))
