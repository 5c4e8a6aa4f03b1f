-- ===== src/Examples/Drives.antt =====
-- A session of two Agents that is driven through its plan of two steps.
use army_of_god.Prelude.{ℕ, ◌≡◌, ◌⊎◌, refl, false, Option, none, some, List, [], ◌∷◌, arith, dedupe}
use army_of_god.Text.{Text}
use army_of_god.Records.{TaskContract, active}
use army_of_god.Records.Runs.{Agent, ready}
use army_of_god.Matching.{MatchCandidate, MatchThresholds, best_match, contract_exemplars}
use army_of_god.Planner.{ready_steps}
use army_of_god.Session.{CoordinationSession, is_active, pending_steps, should_stop}
use army_of_god.Session.Turns.{
  TurnOutcome, OutcomeStatus, claim_session, settle_session, settle_fields,
}
use army_of_god.Session.Steps.{Reach, here}
use army_of_god.Session.Order.{planned_caller}
use army_of_god.Session.Selection.{
  SelectionResult, SelectionReason, select_participant, plan_instruction,
}
use army_of_god.Session.Selection.Fit.{IsFit, select_participant-IsFit}
use army_of_god.Session.Driver.{
  Event, starts, settles, select_for, broke_off, rejected, plan_wave, advance_session,
  run_session_to_completion,
}
use army_of_god.Session.Driver.Waves.{advance_session-Reach}
use army_of_god.Session.Driver.Rounds.{IsDone, run_session_to_completion-IsDone}
use army_of_god.Examples.Records.{contract_named}
use army_of_god.Examples.Routes.{counts}
use army_of_god.Examples.Sessions.{planned, planned-IsCreated}
use army_of_god.Examples.Desks.{shared, in_order}

abbrev agents : List Agent
agents = record (shared ready) { id = "a" } ∷ record (shared ready) { id = "b" } ∷ []

abbrev contracts : List (TaskContract ℕ)
contracts = contract_named "v1" "b" none active ∷ []

abbrev thresholds : MatchThresholds ℕ
thresholds = record { fingerprint = 1; containment = 1; semantic = 1 }

abbrev candidate : Text → MatchCandidate
candidate t = record { fingerprint = t; canonical_form = t; embedding = none }

abbrev choose : CoordinationSession → Text → Option (SelectionResult ℕ)
choose = select_for counts in_order thresholds candidate agents contracts

abbrev sentence : SelectionReason ℕ → Text
sentence r = []

abbrev success : TurnOutcome
success = record {
  status = OutcomeStatus.completed;
  run_id = some "r";
  output = some (111 ∷ []);
  error = none;
  state = none;
}

-- One step a round: the second depends on the first.
abbrev schedule : ℕ → List Event
schedule k = starts "t1" 0 ∷ settles "t2" k success ∷ []

both_steps_ran :
    is_active (run_session_to_completion sentence agents choose schedule planned).1.status ≡ false
unfolding run_session_to_completion plan_wave should_stop dedupe pending_steps ready_steps
    select_for select_participant best_match contract_exemplars plan_instruction claim_session
    settle_session settle_fields
both_steps_ran = refl

select_participant-IsFit_example :
    (r : SelectionResult ℕ) × (select_participant counts in_order thresholds planned
        (candidate (1 ∷ []))
        agents
        contracts
      ≡ some r)
    × IsFit counts in_order thresholds (candidate (1 ∷ [])) contracts planned agents r
select_participant-IsFit_example =
    select_participant-IsFit counts in_order thresholds (candidate (1 ∷ [])) contracts planned
      agents refl

advance_session-Reach_example :
    Reach planned_caller planned
      (advance_session sentence agents choose (schedule 0) planned).session
advance_session-Reach_example =
    advance_session-Reach planned planned planned-IsCreated here sentence agents choose _ _ refl
      (schedule 0)

run_session_to_completion-IsDone_example :
    Reach planned_caller planned
      (run_session_to_completion sentence agents choose schedule planned).1
    × ((((run_session_to_completion sentence agents choose schedule planned).0 ≡ broke_off)
          × IsDone sentence agents choose schedule planned
              (run_session_to_completion sentence agents choose schedule planned).1)
        ⊎ ((run_session_to_completion sentence agents choose schedule planned).0 ≡ rejected))
run_session_to_completion-IsDone_example =
    run_session_to_completion-IsDone sentence agents choose planned planned-IsCreated _ _ refl
      schedule planned here (omega arith)
