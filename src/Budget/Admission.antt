-- ===== src/Budget/Admission.antt =====
-- `checkBudget` of budget.ts over the runs of a contract, turns that are admitted one after another,
-- and two turns that are checked before either is recorded.
use Prim.Native.String.{String}
use mathlib.Core.Path.{subst}
use army_of_god.Prelude.{
  ℕ, ◌+◌, ◌≤◌, ◌<◌, ◌≡◌, ◌≢◌, refl, sym, ◌↔◌, inl, inr, true, false, Option, none, some, List, [],
  ◌∷◌, arith, any, find, In, ◌==◌, string_eq, Option-cases, All,
}
use army_of_god.Store.{Result, ok, err}
use army_of_god.Records.{BudgetUsage, TaskBudget, TaskContract}
use army_of_god.Records.Runs.{AgentRun, Agent, Message}
use army_of_god.Runs.{Desk, RunError, admit, open_for, is_stopped}
use army_of_god.Runs.Open.{admit-runs, admit_free}
use army_of_god.Budget.{usage_for_contract, empty_usage, check_budget}
use army_of_god.Budget.Lineage.{contract_lineage}
use army_of_god.Budget.Fits.{Fits, check_budget-Fits}
use army_of_god.Budget.Counted.{
  is_under, tokens_of, runs_under, tokens_under, IsCounted, usage_from-IsCounted, runs_under-concat,
}

-- Every limit that is set leaves room: for one run more in number, and in tokens, and no run of the
-- lineage passed the ceiling for one run.
abbrev pub HasRoom : {F : Type 0} → Option TaskBudget → List String → List (AgentRun F) → Type 0
HasRoom none lineage runs = Unit
HasRoom {F} (some b) lineage runs =
    ((n : ℕ) → b.max_runs ≡ some n → runs_under lineage runs < n)
    × ((n : ℕ) → b.max_total_tokens ≡ some n → tokens_under lineage runs < n)
    × ((n : ℕ)
        → b.max_tokens_per_run ≡ some n
        → (run : AgentRun F) → In run runs
        → is_under lineage run ≡ true
        → tokens_of run ≤ n)

-- What `sendMessage` has built for a turn when its mutation comes.
pub record Turn (F : Type 0) : Type 0 where
  pub now : String
  pub user : String
  pub run : AgentRun F
  pub message : Message

Fits-HasRoom :
    {F : Type 0} (o : Option TaskBudget) (lineage : List String) (u : BudgetUsage)
    (runs : List (AgentRun F))
    → IsCounted lineage empty_usage u runs
    → Fits o u ↔ HasRoom o lineage runs
Fits-HasRoom none lineage u runs c = (λ h. tt, λ h. tt)
Fits-HasRoom (some b) lineage u runs c = (
  λ h. (
    λ n e. omega (arith, h.0 n e, c.number),
    λ n e. omega (arith, h.1 n e, c.total),
    λ n e. ((c.largest n).0 (h.2 n e)).1,
  ),
  λ h. (
    λ n e. omega (arith, h.0 n e, c.number),
    λ n e. omega (arith, h.1 n e, c.total),
    λ n e. (c.largest n).1 (omega arith, h.2 n e),
  ),
)

module _ {F : Type 0} (contract : TaskContract F) (contracts : List (TaskContract F)) where
  abbrev lineage : List String
  lineage = contract_lineage contract contracts

  -- A run is admitted exactly when fewer runs than the run limit stand under the contract's lineage,
  -- whatever became of them, their tokens together are below the token limit, and none of them
  -- passed the ceiling for one run; a limit that is not set asks for nothing.
  pub check_budget_iff :
      (runs : List (AgentRun F))
      → ((check_budget contract contracts runs).refusal ≡ none)
        ↔ HasRoom contract.budget lineage runs
  unfolding usage_for_contract
  check_budget_iff runs =
      let fits = check_budget-Fits contract contracts runs in
      let usage = usage_for_contract contract contracts runs in
      let room =
        Fits-HasRoom contract.budget lineage usage runs
          (usage_from-IsCounted lineage empty_usage runs) in
      (λ h. room.0 (fits.0 h), λ r. fits.1 (room.1 r))

  -- The run is recorded under the lineage.
  abbrev pub IsUnder : AgentRun F → Type 0
  IsUnder run = is_under lineage run ≡ true

  -- A turn that was built, and the mutation of `sendMessage` for it where the budget admits it.
  abbrev recorded : Result RunError (Desk F) → Desk F → Desk F
  recorded (ok d') d = d'
  recorded (err e) d = d

  abbrev admit_one : Turn F → Desk F → Desk F
  admit_one t d = elim (check_budget contract contracts d.runs).refusal [
    | none ↦ recorded (admit t.now t.user t.run t.message d) d
    | some refusal ↦ d
  ]

  -- Turns that are checked and recorded one after another.
  unfoldable pub admit_each : List (Turn F) → Desk F → Desk F
  admit_each [] d = d
  admit_each (t ∷ more) d = admit_each more (admit_one t d)

  recorded_runs-le :
      (n : ℕ) (t : Turn F) (d : Desk F) (r : Result RunError (Desk F))
      → admit t.now t.user t.run t.message d ≡ r
      → IsUnder t.run
      → runs_under lineage d.runs < n
      → runs_under lineage (recorded r d).runs ≤ n
  recorded_runs-le n t d (ok d') e g h =
      rw (admit-runs t.now t.user t.run t.message d d' e)
        (omega (arith, runs_under-concat lineage d.runs t.run g, h))
  recorded_runs-le n t d (err failure) e g h = omega (arith, h)

  admit_one-le :
      (n : ℕ) (b : TaskBudget) (t : Turn F) (d : Desk F)
      → contract.budget ≡ some b
      → b.max_runs ≡ some n
      → IsUnder t.run
      → runs_under lineage d.runs ≤ n
      → runs_under lineage (admit_one t d).runs ≤ n
  admit_one-le n b t d has limit g h =
      elim (Option-cases (check_budget contract contracts d.runs).refusal) [
        | inl passes ↦
            let room =
              subst (λ o. HasRoom o lineage d.runs) has ((check_budget_iff d.runs).0 passes) in
            rw (passes, admit_one)
              (recorded_runs-le n t d (admit t.now t.user t.run t.message d) refl g
                (room.0 n limit))
        | inr (refusal, refused) ↦ rw (refused, admit_one) h
      ]

  -- However many turns ask for a run under the lineage of a contract with a limit of `n` runs, each
  -- checked and then recorded by the mutation of `sendMessage` before the next one is checked: where
  -- at most `n` runs stand under the lineage at first, never more than `n` do, whatever became of
  -- them.
  pub admit_each-le :
      (n : ℕ) (b : TaskBudget) (asked : List (Turn F)) (d : Desk F)
      → contract.budget ≡ some b
      → b.max_runs ≡ some n
      → All (λ t. IsUnder t.run) asked
      → runs_under lineage d.runs ≤ n
      → runs_under lineage (admit_each asked d).runs ≤ n
  unfolding admit_each
  admit_each-le n b [] d has limit g h = h
  admit_each-le n b (t ∷ more) d has limit g h =
      admit_each-le n b more (admit_one t d) has limit g.1 (admit_one-le n b t d has limit g.0 h)

  -- Where the run limit `n + 1` is the only one, `n` runs stand under the lineage, and the mutation
  -- of `sendMessage` has recorded one more under it: the check passed before that and would refuse
  -- now, but where the Agent of a second run under the lineage is there, not stopped, and has no open
  -- run of that turn's user, the mutation records the second run as well, and the lineage has one run
  -- more than its limit.
  pub two_checks_pass :
      (n : ℕ) (b : TaskBudget) (d d1 : Desk F) (first second : AgentRun F)
      (now later user other : String) (said answered : Message) (agent : Agent)
      → contract.budget ≡ some b
      → b.max_runs ≡ some (n + 1)
      → b.max_total_tokens ≡ none
      → b.max_tokens_per_run ≡ none
      → runs_under lineage d.runs ≡ n
      → IsUnder first
      → IsUnder second
      → admit now user first said d ≡ ok d1
      → find (λ a. a.id == second.agent_id) d1.agents ≡ some agent
      → is_stopped agent.status ≡ false
      → any (open_for second.agent_id other) d1.runs ≡ false
      → ((check_budget contract contracts d.runs).refusal ≡ none)
        × ((check_budget contract contracts d1.runs).refusal ≢ none)
        × ((d2 : Desk F) × (admit later other second answered d1 ≡ ok d2)
            × (runs_under lineage d2.runs ≡ (n + 1) + 1))
  two_checks_pass n b d d1 first second now later user other said answered agent has limit no_total
        no_ceiling used g1 g2 once there up free =
      let more : runs_under lineage d1.runs ≡ n + 1 =
        rw (admit-runs now user first said d d1 once)
          (omega (arith, runs_under-concat lineage d.runs first g1, used)) in
      let (d2, twice) = admit_free later other second answered d1 agent there up free in
      (
        (check_budget_iff d.runs).1 (
            subst (λ o. HasRoom o lineage d.runs) (sym has)
              (
                λ m e. ground (arith, limit, used),
                λ m e. cc (e, no_total),
                λ m e. cc (e, no_ceiling),
              )),
        λ passes.
            let room =
              subst (λ o. HasRoom o lineage d1.runs) has ((check_budget_iff d1.runs).0 passes) in
            omega (arith, room.0 (n + 1) limit, more),
        (
          d2,
          twice,
          rw (admit-runs later other second answered d1 d2 twice)
              (omega (arith, runs_under-concat lineage d1.runs second g2, more)),
        ),
      )
