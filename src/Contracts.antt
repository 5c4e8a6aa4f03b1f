-- ===== src/Contracts.antt =====
-- apps/server/src/codify/service.ts: new versions of a contract. A version is prepared from a
-- snapshot of the store (`prepare_…`) and committed by a later mutation (`install_version`).
pub mod Justified
pub mod Versions
pub mod Spend
use Prim.Native.String.{String}
use army_of_god.Prelude.{
  ℕ, ◌+◌, Bool, true, false, ◌&&◌, ◌||◌, not, Option, none, some, List, [], ◌∷◌, ◌++◌, map, length,
  any, take, filter, find, elem, update_first, nat_beq, ◌==◌, if◌then◌else◌, string_eq,
}
use army_of_god.Text.{Text, text_eq, trim}
use army_of_god.Store.{Result, ok, err, ◌>>=◌, ◌>>◌, require}
use army_of_god.Records.{
  CapabilityScope, TaskBudget, TaskContract, ContractStatus, active, deprecated, is_active,
  DenialEvent,
}
use army_of_god.Budget.{BudgetInput, normalize_budget}
use army_of_god.Scope.{normalize_scope, check_narrowing, NarrowingCheck}

-- `budget`: `undefined` keeps it, `null` clears it.
pub data BudgetChange : Type 0 where
  keep clear : BudgetChange
  change : BudgetInput → BudgetChange

pub record Revision : Type 0 where
  pub scope : Option CapabilityScope
  pub budget : BudgetChange

-- The `HttpError`s: 404, 409 and 400, the last with what it names.
pub data ContractError : Type 0 where
  contract_not_found not_active nothing_to_change : ContractError
  proposal_not_found already_decided empty_rule : ContractError
  no_evidence : List Text → ContractError

abbrev pub asks_nothing : Revision → Bool
asks_nothing r = elim r.scope [ some s ↦ false | none ↦ elim r.budget [ keep ↦ true | _ ↦ false ] ]

abbrev scope_or : Option CapabilityScope → CapabilityScope → CapabilityScope
scope_or none current = current
scope_or (some s) current = s

pub next_budget : BudgetChange → Option TaskBudget → Option TaskBudget
next_budget keep current = current
next_budget clear current = none
next_budget (change b) current = normalize_budget (some b)

module _ (lower : Text → Text) where
  -- The targets that denials on this contract name, in lower case.
  pub denied_targets : String → List DenialEvent → List Text
  denied_targets id events =
      map (λ e. lower e.target)
        (filter (λ e. elim e.contract_id [ none ↦ false | some c ↦ c == id ]) events)

  -- What the edit adds and no denial names.
  pub unjustified : NarrowingCheck → List Text → List Text
  unjustified n denied =
      filter (λ d. not (elem d denied)) n.widened_domains
      ++ (filter (λ p. not (elem (lower p) denied)) n.widened_paths
          ++ filter (λ v. not (elem (lower v) denied)) n.widened_secrets)

  pub check_evidence : NarrowingCheck → List Text → Result ContractError (Unit {0})
  unfolding unjustified
  check_evidence n denied =
      if n.good
      then ok tt
      else if nat_beq (length (unjustified n denied)) 0
      then ok tt
      else err (no_evidence (unjustified n denied))

module _ {F : Type 0} (lower : Text → Text) where
  -- The scope that a revision asks for.
  abbrev pub requested_scope : Revision → TaskContract F → CapabilityScope
  requested_scope r current = normalize_scope lower (scope_or r.scope current.scope)

  abbrev pub next_version : String → String → String → Revision → TaskContract F → TaskContract F
  next_version now new_id user r current = record current {
    id = new_id;
    version = current.version + 1;
    scope = requested_scope r current;
    budget = next_budget r.budget current.budget;
    status = active;
    created_by = user;
    created_at = now;
    supersedes = some current.id;
  }

  -- `reviseContract` up to its mutation, on the contract that `getContract` finds.
  unfoldable pub revise_current :
      String
      → String
      → String
      → Revision
      → List DenialEvent
      → TaskContract F
      → Result ContractError (TaskContract F)
  unfolding denied_targets check_evidence next_budget
  revise_current now new_id user r events current = do
    require (is_active current.status) not_active
    require (not (asks_nothing r)) nothing_to_change
    check_evidence lower
        (check_narrowing lower (normalize_scope lower current.scope) (requested_scope r current))
        (denied_targets lower current.id events)
    ok (next_version now new_id user r current)

  abbrev or_missing : Option (TaskContract F) → Result ContractError (TaskContract F)
  or_missing none = err contract_not_found
  or_missing (some c) = ok c

  unfoldable pub prepare_revision :
      String
      → String
      → String
      → String
      → Revision
      → List DenialEvent
      → List (TaskContract F)
      → Result ContractError (TaskContract F)
  prepare_revision now new_id user id r events contracts = do
    current ← or_missing (find (λ c. c.id == id) contracts)
    revise_current now new_id user r events current

module _ {F : Type 0} where
  abbrev pub deprecate : TaskContract F → TaskContract F
  deprecate c = record c { status = deprecated }

  -- The mutation: the version `id` is deprecated where it is found, and the new one is added.
  unfoldable pub install_version :
      String → TaskContract F → List (TaskContract F) → List (TaskContract F)
  install_version id next contracts =
      update_first (λ c. c.id == id) deprecate contracts ++ next ∷ []

pub data ProposalStatus : Type 0 where
  pending applied rejected : ProposalStatus

pub record RefinementProposal : Type 0 where
  pub id : String
  pub contract_id : String
  pub contract_version : ℕ
  pub exemplars : List Text
  pub exemplar_run_ids : List String
  pub occurrences : ℕ
  pub distinct_users : ℕ
  pub proposed_rule : Text
  pub review_note : Option Text
  pub status : ProposalStatus
  pub created_at : String
  pub updated_at : String

abbrev is_pending : ProposalStatus → Bool
is_pending pending = true
is_pending _ = false

abbrev text_or : Option Text → Text → Text
text_or none t = t
text_or (some t) _ = t

-- `(editedRule ?? proposal.proposedRule).trim().slice(0, 300)`
abbrev pub rule_of : Option Text → RefinementProposal → Text
rule_of edited p = take 300 (trim (text_or edited p.proposed_rule))

module _ {F : Type 0} where
  abbrev refined : String → String → String → Text → TaskContract F → TaskContract F
  refined now new_id user rule current = record current {
    id = new_id;
    version = current.version + 1;
    refinements = current.refinements ++ rule ∷ [];
    status = active;
    created_by = user;
    created_at = now;
    supersedes = some current.id;
  }

  abbrev refine_with :
      String
      → String
      → String
      → Option Text
      → RefinementProposal
      → Option (TaskContract F)
      → Result ContractError (TaskContract F)
  refine_with now new_id user edited p none = err contract_not_found
  refine_with now new_id user edited p (some current) = do
    require (is_active current.status) not_active
    require (not (rule_of edited p == [])) empty_rule
    ok (refined now new_id user (rule_of edited p) current)

  abbrev refine_found :
      String
      → String
      → String
      → Option Text
      → Option RefinementProposal
      → List (TaskContract F)
      → Result ContractError (TaskContract F)
  refine_found now new_id user edited none contracts = err proposal_not_found
  refine_found now new_id user edited (some p) contracts = do
    require (is_pending p.status) already_decided
    refine_with now new_id user edited p (find (λ c. c.id == p.contract_id) contracts)

  -- `applyRefinement` up to its mutation.
  unfoldable pub prepare_refinement :
      String
      → String
      → String
      → String
      → Option Text
      → List RefinementProposal
      → List (TaskContract F)
      → Result ContractError (TaskContract F)
  prepare_refinement now new_id user id edited proposals contracts =
      refine_found now new_id user edited (find (λ p. p.id == id) proposals) contracts

-- The proposal's part of the mutation.
unfoldable pub mark_applied : String → String → List RefinementProposal → List RefinementProposal
mark_applied now id proposals =
    update_first (λ p. p.id == id) (λ p. record p { status = applied; updated_at = now }) proposals
