-- ===== src/Budget/Fits.antt =====
-- The branches of `checkBudget` of budget.ts over the usage that it has summed.
use army_of_god.Prelude.{ℕ, ◌≤◌, ◌<◌, ◌≡◌, refl, ◌↔◌, false, Option, none, some, List, arith}
use army_of_god.Records.{BudgetUsage, TaskBudget, TaskContract}
use army_of_god.Records.Runs.{AgentRun}
use army_of_god.Budget.{usage_for_contract, check_limits, check_budget, decide, reached, passed}

-- Every limit that is set leaves room for one more run, by the usage.
abbrev pub Fits : Option TaskBudget → BudgetUsage → Type 0
Fits none u = Unit
Fits (some b) u =
    ((n : ℕ) → b.max_runs ≡ some n → u.runs < n)
    × ((n : ℕ) → b.max_total_tokens ≡ some n → u.total_tokens < n)
    × ((n : ℕ) → b.max_tokens_per_run ≡ some n → u.max_run_tokens ≤ n)

reached-false : (o : Option ℕ) (used : ℕ) → reached o used ≡ false → (n : ℕ) → o ≡ some n → used < n
reached-false none used h n e = cc
reached-false (some m) used h n e = ground arith

passed-false : (o : Option ℕ) (used : ℕ) → passed o used ≡ false → (n : ℕ) → o ≡ some n → used ≤ n
passed-false none used h n e = cc
passed-false (some m) used h n e = ground arith

not_reached : (o : Option ℕ) (used : ℕ) → ((n : ℕ) → o ≡ some n → used < n) → reached o used ≡ false
not_reached none used h = refl
not_reached (some m) used h = ground (arith, h m refl)

not_passed : (o : Option ℕ) (used : ℕ) → ((n : ℕ) → o ≡ some n → used ≤ n) → passed o used ≡ false
not_passed none used h = refl
not_passed (some m) used h = ground (arith, h m refl)

limits_iff : (b : TaskBudget) (u : BudgetUsage) → (check_limits b u ≡ none) ↔ Fits (some b) u
unfolding check_limits
limits_iff b u = (
  λ h. (
    reached-false b.max_runs u.runs (ground arith),
    reached-false b.max_total_tokens u.total_tokens (ground arith),
    passed-false b.max_tokens_per_run u.max_run_tokens (ground arith),
  ),
  λ r.
      rw
        (
          not_reached b.max_runs u.runs r.0,
          not_reached b.max_total_tokens u.total_tokens r.1,
          not_passed b.max_tokens_per_run u.max_run_tokens r.2,
        )
        refl,
)

decide_iff : (o : Option TaskBudget) (u : BudgetUsage) → ((decide o u).refusal ≡ none) ↔ Fits o u
decide_iff none u = (λ _. tt, λ _. refl)
decide_iff (some b) u = limits_iff b u

pub check_budget-Fits :
    {F : Type 0} (contract : TaskContract F) (contracts : List (TaskContract F))
    (runs : List (AgentRun F))
    → ((check_budget contract contracts runs).refusal ≡ none)
      ↔ Fits contract.budget (usage_for_contract contract contracts runs)
unfolding check_budget
check_budget-Fits contract contracts runs =
    decide_iff contract.budget (usage_for_contract contract contracts runs)
