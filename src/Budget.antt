-- ===== src/Budget.antt =====
-- apps/server/src/codify/budget.ts: what a contract's lineage has consumed, and whether one more run
-- may start.
pub mod Lineage
pub mod Usage
pub mod Fits
pub mod Counted
pub mod Admission
use Prim.Native.String.{String}
use army_of_god.Prelude.{
  ℕ, zero, suc, ◌+◌, Bool, true, false, ◌||◌, Option, none, some, List, [], ◌∷◌, elem, ltb, leb,
  ◌==◌, if◌then◌else◌, string_eq,
}
use army_of_god.Records.{TaskBudget, BudgetUsage, TaskContract, truthy_id}
use army_of_god.Records.Runs.{AgentRun, RunUsage, Reported, absent, not_finite, not_positive, count}
use army_of_god.Budget.Lineage.{contract_lineage}

counted : Reported → ℕ
counted (count n) = n
counted _ = 0

usage_tokens : Option RunUsage → ℕ
unfolding counted
usage_tokens none = 0
usage_tokens (some u) = counted u.input_tokens + counted u.output_tokens

abbrev pub empty_usage : BudgetUsage
empty_usage = record { total_tokens = 0; runs = 0; max_run_tokens = 0 }

abbrev pub in_lineage : List String → Option String → Bool
in_lineage lineage none = false
in_lineage lineage (some id) = elem id lineage

module _ {F : Type 0} where
  pub run_tokens : AgentRun F → ℕ
  unfolding usage_tokens
  run_tokens run = usage_tokens run.usage

  -- `run.codify?.contractId`, where it is there and not empty.
  abbrev pub governing : AgentRun F → Option String
  governing run = elim run.codify [ none ↦ none | some c ↦ truthy_id c.contract_id ]

  abbrev pub governed_by : List String → AgentRun F → Bool
  governed_by lineage run = in_lineage lineage (governing run)

  pub add_run : BudgetUsage → AgentRun F → BudgetUsage
  unfolding run_tokens
  add_run u run = record {
    total_tokens = u.total_tokens + run_tokens run;
    runs = u.runs + 1;
    max_run_tokens =
        if ltb u.max_run_tokens (run_tokens run) then run_tokens run else u.max_run_tokens;
  }

  -- The loop over the runs, from the usage so far.
  pub usage_from : List String → BudgetUsage → List (AgentRun F) → BudgetUsage
  unfolding add_run
  usage_from lineage u [] = u
  usage_from lineage u (run ∷ runs) =
      usage_from lineage (if governed_by lineage run then add_run u run else u) runs

  unfoldable pub usage_for_contract :
      TaskContract F → List (TaskContract F) → List (AgentRun F) → BudgetUsage
  unfolding usage_from
  usage_for_contract contract contracts runs =
      usage_from (contract_lineage contract contracts) empty_usage runs

-- Which limit fired, with the observed value and the limit.
pub data Refusal : Type 0 where
  run_limit token_budget run_ceiling : ℕ → ℕ → Refusal

abbrev reached : Option ℕ → ℕ → Bool
reached none used = false
reached (some limit) used = leb limit used

abbrev passed : Option ℕ → ℕ → Bool
passed none used = false
passed (some limit) used = ltb limit used

abbrev limit_of : Option ℕ → ℕ
limit_of none = 0
limit_of (some n) = n

-- The three ceilings in the code's order; `none` admits the run.
unfoldable pub check_limits : TaskBudget → BudgetUsage → Option Refusal
check_limits b u =
    if reached b.max_runs u.runs
    then some (run_limit u.runs (limit_of b.max_runs))
    else if reached b.max_total_tokens u.total_tokens
    then some (token_budget u.total_tokens (limit_of b.max_total_tokens))
    else if passed b.max_tokens_per_run u.max_run_tokens
    then some (run_ceiling u.max_run_tokens (limit_of b.max_tokens_per_run))
    else none

pub record BudgetDecision : Type 0 where
  pub refusal : Option Refusal
  pub usage : BudgetUsage
  pub budget : Option TaskBudget

abbrev decide : Option TaskBudget → BudgetUsage → BudgetDecision
decide none u = record { refusal = none; usage = u; budget = none }
decide (some b) u = record { refusal = check_limits b u; usage = u; budget = some b }

unfoldable pub check_budget :
    {F : Type 0} → TaskContract F → List (TaskContract F) → List (AgentRun F) → BudgetDecision
check_budget contract contracts runs =
    decide contract.budget (usage_for_contract contract contracts runs)

-- The budget that a reviewer submits, field by field as `normalizeBudget` tests it.
pub record BudgetInput : Type 0 where
  pub max_total_tokens : Reported
  pub max_runs : Reported
  pub max_tokens_per_run : Reported

abbrev positive : Reported → Option ℕ
positive (count (suc n)) = some (suc n)
positive _ = none

abbrev limited : Option ℕ → Bool
limited none = false
limited (some n) = true

abbrev any_limit : TaskBudget → Option TaskBudget
any_limit b =
    if limited b.max_total_tokens || limited b.max_runs || limited b.max_tokens_per_run
    then some b
    else none

unfoldable pub normalize_budget : Option BudgetInput → Option TaskBudget
normalize_budget none = none
normalize_budget (some b) = any_limit (record {
  max_total_tokens = positive b.max_total_tokens;
  max_runs = positive b.max_runs;
  max_tokens_per_run = positive b.max_tokens_per_run;
})
