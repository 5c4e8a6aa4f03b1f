-- ===== src/Examples/Budgets.antt =====
-- Budgets over the two versions of a contract, with a limit of two runs.
use Prim.Native.String.{String}
use army_of_god.Prelude.{
  ◌≤◌, ℕ, ◌≡◌, ◌≢◌, ◌↔◌, refl, inl, inr, Bool, true, none, some, [], ◌∷◌, arith, elem, string_eq,
}
use army_of_god.Budget.{usage_for_contract, check_budget, check_limits}
use army_of_god.Budget.Lineage.{contract_lineage}
use army_of_god.Budget.Lineage.Closed.{IsForward, IsBackward, IsClosed}
use army_of_god.Budget.Lineage.Loops.{contract_lineage-IsClosed}
use army_of_god.Budget.Lineage.Least.{contract_lineage_least}
use army_of_god.Budget.Admission.{
  HasRoom, IsUnder, Turn, check_budget_iff, admit_each, admit_each-le, two_checks_pass,
}
use army_of_god.Budget.Counted.{runs_under}
use army_of_god.Store.{ok}
use army_of_god.Records.Runs.{AgentRun, RunStatus, ready, busy}
use army_of_god.Runs.{Desk, admit}
use army_of_god.Examples.Desks.{shared, said}
use army_of_god.Examples.Records.{two_runs, contracts, new_version, run_under}

lineage_of_new : contract_lineage new_version contracts ≡ "v2" ∷ "v1" ∷ []
unfolding contract_lineage
lineage_of_new = refl

abbrev versions : String → Bool
versions a = elem a ("v1" ∷ "v2" ∷ [])

versions-IsForward : IsForward contracts versions
versions-IsForward e q (inl i) sup h = cc
versions-IsForward e q (inr (inl i)) sup h = cc
versions-IsForward e q (inr (inr (inl i))) sup h = cc
versions-IsForward e q (inr (inr (inr i))) sup h = absurd i

versions-IsBackward : IsBackward contracts versions
versions-IsBackward e p i (inl j) sup h = cc
versions-IsBackward e p i (inr (inl j)) sup h = cc
versions-IsBackward e p (inl i) (inr (inr (inl j))) sup h = cc
versions-IsBackward e p (inr (inl i)) (inr (inr (inl j))) sup h = cc
versions-IsBackward e p (inr (inr (inl i))) (inr (inr (inl j))) sup h = cc
versions-IsBackward e p (inl i) (inr (inr (inr j))) sup h = absurd j
versions-IsBackward e p (inr (inl i)) (inr (inr (inr j))) sup h = absurd j
versions-IsBackward e p (inr (inr (inl i))) (inr (inr (inr j))) sup h = absurd j
versions-IsBackward e p (inr (inr (inr i))) (inr (inr j)) sup h = absurd i

contract_lineage-IsClosed_example :
    (elem "v2" (contract_lineage new_version contracts) ≡ true)
    × IsClosed contracts (contract_lineage new_version contracts)
contract_lineage-IsClosed_example =
    contract_lineage-IsClosed new_version contracts (refl, (refl, (refl, tt))) (inr (inl refl))

v1_in_lineage : elem "v1" (contract_lineage new_version contracts) ≡ true
unfolding contract_lineage
v1_in_lineage = refl

contract_lineage_least_example : versions "v1" ≡ true
contract_lineage_least_example =
    contract_lineage_least contracts versions new_version (inr (inl refl)) versions-IsForward
      versions-IsBackward refl "v1" v1_in_lineage

check_budget_iff_example :
    ((check_budget new_version contracts (run_under "v1" ∷ [])).refusal ≡ none)
    ↔ HasRoom (some two_runs) (contract_lineage new_version contracts) (run_under "v1" ∷ [])
check_budget_iff_example = check_budget_iff new_version contracts (run_under "v1" ∷ [])

one_run : runs_under (contract_lineage new_version contracts) (run_under "v1" ∷ []) ≡ 1
unfolding contract_lineage
one_run = refl

abbrev one_left : Desk ℕ
one_left = record { agents = shared ready ∷ []; runs = run_under "v1" ∷ []; messages = [] }

abbrev asked : String → AgentRun ℕ
asked who = record (run_under "v2") { status = RunStatus.queued; user_id = some who }

abbrev one_more : Desk ℕ
one_more = record {
  agents = record (shared busy) { updated_at = "t1" } ∷ [];
  runs = run_under "v1" ∷ asked "u" ∷ [];
  messages = said "u" ∷ [];
}

first_recorded : admit "t1" "u" (asked "u") (said "u") one_left ≡ ok one_more
unfolding admit
first_recorded = refl

asked-IsUnder : (who : String) → IsUnder new_version contracts (asked who)
unfolding contract_lineage
asked-IsUnder who = refl

abbrev no_runs : Desk ℕ
no_runs = record { agents = shared ready ∷ []; runs = []; messages = [] }

abbrev turn : String → Turn ℕ
turn who = record { now = "t1"; user = who; run = asked who; message = said who }

-- Two runs are admitted, and the third one is refused.
two_admitted :
    runs_under
      (contract_lineage new_version contracts)
      (admit_each new_version contracts (turn "u" ∷ turn "v" ∷ turn "w" ∷ []) no_runs).runs
    ≡ 2
unfolding admit_each admit check_budget check_limits usage_for_contract contract_lineage
two_admitted = refl

admit_each-le_example :
    runs_under
      (contract_lineage new_version contracts)
      (admit_each new_version contracts (turn "u" ∷ turn "v" ∷ turn "w" ∷ []) no_runs).runs
    ≤ 2
admit_each-le_example =
    admit_each-le new_version contracts 2 two_runs (turn "u" ∷ turn "v" ∷ turn "w" ∷ []) no_runs
      refl refl (asked-IsUnder "u", (asked-IsUnder "v", (asked-IsUnder "w", tt))) (omega arith)

two_checks_pass_example :
    ((check_budget new_version contracts one_left.runs).refusal ≡ none)
    × ((check_budget new_version contracts one_more.runs).refusal ≢ none)
    × ((d2 : Desk ℕ) × (admit "t2" "v" (asked "v") (said "v") one_more ≡ ok d2)
        × (runs_under (contract_lineage new_version contracts) d2.runs ≡ 3))
two_checks_pass_example =
    two_checks_pass new_version contracts 1 two_runs one_left one_more (asked "u") (asked "v") "t1"
      "t2" "u" "v" (said "u") (said "v") (record (shared busy) { updated_at = "t1" }) refl refl refl
      refl one_run (asked-IsUnder "u") (asked-IsUnder "v") first_recorded refl refl refl
