-- ===== src/Budget/Usage.antt =====
-- `usageForContract` of budget.ts over a longer lineage.
use Prim.Native.String.{String}
use army_of_god.Prelude.{
  ◌≤◌, ◌≡◌, inl, inr, true, Option, none, some, List, [], ◌∷◌, arith, elem, string_eq, Bool-cases,
}
use army_of_god.Records.{BudgetUsage}
use army_of_god.Records.Runs.{AgentRun}
use army_of_god.Budget.{in_lineage, governing, governed_by, add_run, usage_from}

-- `v` has consumed at least what `u` has.
pub record Covers (v u : BudgetUsage) : Type 0 where
  pub runs : u.runs ≤ v.runs
  pub total : u.total_tokens ≤ v.total_tokens
  pub largest : u.max_run_tokens ≤ v.max_run_tokens

in_lineage_mono :
    (l m : List String) (o : Option String)
    → ((a : String) → elem a l ≡ true → elem a m ≡ true)
    → in_lineage l o ≡ true
    → in_lineage m o ≡ true
in_lineage_mono l m none sub h = cc
in_lineage_mono l m (some id) sub h = sub id h

module _ {F : Type 0} where
  add_run-Covers :
      (u v : BudgetUsage) (run : AgentRun F) → Covers v u → Covers (add_run v run) (add_run u run)
  unfolding add_run
  add_run-Covers u v run c = ground arith

  add_run_grows : (u v : BudgetUsage) (run : AgentRun F) → Covers v u → Covers (add_run v run) u
  unfolding add_run
  add_run_grows u v run c = ground arith

  pub usage_from-Covers :
      (l m : List String) (u v : BudgetUsage) (runs : List (AgentRun F))
      → ((a : String) → elem a l ≡ true → elem a m ≡ true)
      → Covers v u
      → Covers (usage_from m v runs) (usage_from l u runs)
  unfolding usage_from
  usage_from-Covers l m u v [] sub c = c
  usage_from-Covers l m u v (run ∷ runs) sub c = elim (Bool-cases (governed_by l run)) [
    | inl ours ↦
        rw (ours, in_lineage_mono l m (governing run) sub ours)
          (usage_from-Covers l m (add_run u run) (add_run v run) runs sub
            (add_run-Covers u v run c))
    | inr not_ours ↦ elim (Bool-cases (governed_by m run)) [
      | inl theirs ↦
          rw (not_ours, theirs)
            (usage_from-Covers l m u (add_run v run) runs sub (add_run_grows u v run c))
      | inr neither ↦ rw (not_ours, neither) (usage_from-Covers l m u v runs sub c)
    ]
  ]
