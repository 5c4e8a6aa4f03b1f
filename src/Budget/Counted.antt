-- ===== src/Budget/Counted.antt =====
-- What a contract's runs are, said of the runs alone, and the usage of budget.ts against that.
use Prim.Native.String.{String}
use army_of_god.Prelude.{
  ℕ, ◌+◌, ◌≤◌, ◌≡◌, refl, ◌∙◌, ◌↔◌, inl, inr, Bool, true, false, ◌&&◌, not, Option, none, some,
  List, [], ◌∷◌, ◌++◌, arith, count_if, elem, In, ◌==◌, if◌then◌else◌, string_eq, Bool-cases,
}
use army_of_god.Records.{truthy_id, BudgetUsage}
use army_of_god.Records.Runs.{
  AgentRun, RunUsage, RunCodifySummary, Reported, count, absent, not_finite, not_positive,
}
use army_of_god.Budget.{
  governed_by, counted, usage_tokens, run_tokens, add_run, usage_from, in_lineage,
}

-- A count that was reported, and nothing for anything else.
abbrev pub tokens_reported : Reported → ℕ
tokens_reported (count n) = n
tokens_reported absent = 0
tokens_reported not_finite = 0
tokens_reported not_positive = 0

-- A contract id that is there, is not empty, and stands in the lineage.
abbrev pub names_lineage : List String → Option String → Bool
names_lineage lineage none = false
names_lineage lineage (some id) = not (id == "") && elem id lineage

truthy-names :
    (l : List String) (o : Option String) → in_lineage l (truthy_id o) ≡ names_lineage l o
truthy-names l none = refl
truthy-names l (some id) = elim (Bool-cases (id == "")) [
  | inl empty ↦ rw empty refl
  | inr there ↦ rw there refl
]

counted-tokens_reported : (r : Reported) → counted r ≡ tokens_reported r
unfolding counted
counted-tokens_reported absent = refl
counted-tokens_reported not_finite = refl
counted-tokens_reported not_positive = refl
counted-tokens_reported (count n) = refl

module _ {F : Type 0} where
  -- A contract of the lineage is recorded for the run, whatever became of the run.
  abbrev pub is_under : List String → AgentRun F → Bool
  is_under lineage run = elim run.codify [
    | none ↦ false
    | some c ↦ names_lineage lineage c.contract_id
  ]

  -- What the run consumed: its input and its output.
  abbrev pub tokens_of : AgentRun F → ℕ
  tokens_of run = elim run.usage [
    | none ↦ 0
    | some u ↦ tokens_reported u.input_tokens + tokens_reported u.output_tokens
  ]

  -- How many runs stand under the lineage, and what they consumed together.
  abbrev pub runs_under : List String → List (AgentRun F) → ℕ
  runs_under lineage runs = count_if (is_under lineage) runs

  abbrev pub tokens_under : List String → List (AgentRun F) → ℕ
  tokens_under lineage [] = 0
  tokens_under lineage (run ∷ runs) =
      (if is_under lineage run then tokens_of run else 0) + tokens_under lineage runs

  governed-is_under : (l : List String) (run : AgentRun F) → governed_by l run ≡ is_under l run
  governed-is_under l run = by_record run.codify
    where
      by_record :
          (o : Option (RunCodifySummary F))
          → in_lineage l (elim o [ none ↦ none | some c ↦ truthy_id c.contract_id ])
            ≡ elim o [ none ↦ false | some c ↦ names_lineage l c.contract_id ]
      by_record none = refl
      by_record (some c) = truthy-names l c.contract_id

  -- What `usageForContract` finds is the number of the runs, their sum, and their largest.
  pub record IsCounted (l : List String) (u v : BudgetUsage) (runs : List (AgentRun F))
      : Type 0 where
    pub number : v.runs ≡ u.runs + runs_under l runs
    pub total : v.total_tokens ≡ u.total_tokens + tokens_under l runs
    pub largest :
        (n : ℕ)
        → (v.max_run_tokens ≤ n) ↔ (
            (u.max_run_tokens ≤ n)
            × ((run : AgentRun F) → In run runs → is_under l run ≡ true → tokens_of run ≤ n))

  run_tokens-tokens_of : (run : AgentRun F) → run_tokens run ≡ tokens_of run
  unfolding run_tokens usage_tokens
  run_tokens-tokens_of run = by_usage run.usage
    where
      by_usage :
          (o : Option RunUsage)
          → usage_tokens o ≡ elim o [
            | none ↦ 0
            | some u ↦ tokens_reported u.input_tokens + tokens_reported u.output_tokens
          ]
      by_usage none = refl
      by_usage (some u) =
          omega
            (arith, counted-tokens_reported u.input_tokens, counted-tokens_reported u.output_tokens)

  one_added :
      (l : List String) (u v : BudgetUsage) (run : AgentRun F) (runs : List (AgentRun F))
      → is_under l run ≡ true
      → IsCounted l (add_run u run) v runs
      → IsCounted l u v (run ∷ runs)
  unfolding add_run
  one_added l u v run runs ours c = record {
    number = rw ours (omega (arith, c.number));
    total = rw ours (omega (arith, c.total, run_tokens-tokens_of run));
    largest = λ n. (
      λ h.
          let (low, all_low) = (c.largest n).0 h in
          (
            ground (arith, low),
            λ r i under. elim i [
              | inl e ↦ rw e (ground (arith, low, run_tokens-tokens_of run))
              | inr j ↦ all_low r j under
            ],
          ),
      λ h. (c.largest n).1 (
        ground (arith, h.0, h.1 run (inl refl) ours, run_tokens-tokens_of run),
        λ r i under. h.1 r (inr i) under,
      ),
    );
  }

  one_passed_over :
      (l : List String) (u v : BudgetUsage) (run : AgentRun F) (runs : List (AgentRun F))
      → is_under l run ≡ false
      → IsCounted l u v runs
      → IsCounted l u v (run ∷ runs)
  one_passed_over l u v run runs other c = record {
    number = rw other (omega (arith, c.number));
    total = rw other (omega (arith, c.total));
    largest = λ n. (
      λ h.
          let (low, all_low) = (c.largest n).0 h in
          (
            low,
            λ r i under. elim i [
              | inl e ↦ absurd (cc (rw e at under, other))
              | inr j ↦ all_low r j under
            ],
          ),
      λ h. (c.largest n).1 (h.0, λ r i under. h.1 r (inr i) under),
    );
  }

  pub usage_from-IsCounted :
      (l : List String) (u : BudgetUsage) (runs : List (AgentRun F))
      → IsCounted l u (usage_from l u runs) runs
  unfolding usage_from
  usage_from-IsCounted l u [] = record {
    number = omega arith;
    total = omega arith;
    largest = λ n. (λ h. (h, λ r i under. absurd i), λ h. h.0);
  }
  usage_from-IsCounted l u (run ∷ runs) = elim (Bool-cases (is_under l run)) [
    | inl ours ↦
        let same = governed-is_under l run ∙ ours in
        rw same (
          one_added l u (usage_from l (add_run u run) runs) run runs ours
            (usage_from-IsCounted l (add_run u run) runs))
    | inr other ↦
        let same = governed-is_under l run ∙ other in
        rw same
          (one_passed_over l u (usage_from l u runs) run runs other (usage_from-IsCounted l u runs))
  ]

  pub runs_under-concat :
      (l : List String) (runs : List (AgentRun F)) (run : AgentRun F)
      → is_under l run ≡ true
      → runs_under l (runs ++ run ∷ []) ≡ runs_under l runs + 1
  runs_under-concat l [] run h = rw h refl
  runs_under-concat l (r ∷ runs) run h = omega (arith, runs_under-concat l runs run h)
