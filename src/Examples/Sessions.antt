-- ===== src/Examples/Sessions.antt =====
-- A session of two participants with a plan of two steps, from its creation to its end, and a
-- session without a plan.
use Prim.Native.String.{String}
use army_of_god.Prelude.{
  ℕ, ◌≤◌, ◌≡◌, refl, inl, inr, false, Option, none, some, List, [], ◌∷◌, arith, In, length, dedupe,
}
use army_of_god.Store.{ok}
use army_of_god.Planner.{PlannedStep, ready_steps}
use army_of_god.Session.{
  CoordinationSession, SessionStatus, is_active, steps_of, completed_steps, plan_steps,
  pending_steps, should_stop,
}
use army_of_god.Session.Turns.{
  TurnClaim, TurnOutcome, OutcomeStatus, claim_session, settle_session, push_turn, stop_session,
  settle_fields,
}
use army_of_god.Session.Sound.{IsSound}
use army_of_god.Session.Steps.{
  SessionInput, create_session, any_caller, claim, settle, halt, Reach, here, next, IsCreated,
  Reach-IsSound, Reach-Frozen,
}
use army_of_god.Session.Ceiling.{goal_caller, length-turns-le-max_turns}
use army_of_god.Session.Order.{planned_caller, Released, turn-waited, length-turns-le-plan}

abbrev pub agents : List String
agents = "a" ∷ "b" ∷ "c" ∷ []

abbrev pub two_steps : List PlannedStep
two_steps =
    record { text = 97 ∷ []; depends_on = [] } ∷ record { text = 98 ∷ []; depends_on = 0 ∷ [] } ∷ []

abbrev pub input : Option (List PlannedStep) → SessionInput
input plan = record {
  topic = [];
  goal = 98 ∷ [];
  participant_agent_ids = "a" ∷ "b" ∷ "a" ∷ [];
  max_turns = 3;
  created_by = "u";
  state = none;
  plan = plan;
  fallback_agent_id = none;
}

abbrev pub created : Option (List PlannedStep) → CoordinationSession
created plan = record {
  id = "s";
  topic = [];
  goal = 98 ∷ [];
  created_by = "u";
  participant_agent_ids = "a" ∷ "b" ∷ [];
  plan = plan;
  fallback_agent_id = none;
  turns = [];
  state = [];
  max_turns = 3;
  status = SessionStatus.active;
  stop_reason = none;
  created_at = "t0";
  updated_at = "t0";
}

abbrev pub planned : CoordinationSession
planned = created (some two_steps)

abbrev free : CoordinationSession
free = created none

pub planned-IsCreated : IsCreated planned
unfolding create_session dedupe
planned-IsCreated = record {
  now = "t0";
  id = "s";
  agents = agents;
  input = input (some two_steps);
  made = refl;
}

free-IsCreated : IsCreated free
unfolding create_session dedupe
free-IsCreated = record { now = "t0"; id = "s"; agents = agents; input = input none; made = refl }

abbrev turn_of : Option ℕ → TurnClaim
turn_of step = record {
  step_index = step;
  agent_id = "a";
  agent_name = [];
  contract_id = none;
  contract_name = none;
  selection = [];
  instruction = [];
}

abbrev done : TurnOutcome
done = record {
  status = OutcomeStatus.completed;
  run_id = some "r";
  output = none;
  error = none;
  state = none;
}

abbrev first_claimed : CoordinationSession
first_claimed = push_turn "t1" (turn_of (some 0)) planned

first_claim : claim_session "t1" (turn_of (some 0)) planned ≡ ok first_claimed
unfolding claim_session
first_claim = refl

first_pending : In 0 (pending_steps planned)
unfolding pending_steps ready_steps
first_pending = inl refl

abbrev first_settled : CoordinationSession
first_settled = settle_session "t2" 0 done first_claimed

abbrev second_claimed : CoordinationSession
second_claimed = push_turn "t3" (turn_of (some 1)) first_settled

second_claim : claim_session "t3" (turn_of (some 1)) first_settled ≡ ok second_claimed
unfolding claim_session settle_session should_stop dedupe settle_fields pending_steps ready_steps
second_claim = refl

second_pending : In 1 (pending_steps first_settled)
unfolding settle_session should_stop dedupe settle_fields pending_steps ready_steps
second_pending = inl refl

planned_run : Reach planned_caller planned second_claimed
planned_run =
    next
      (next (next here (claim "t1" (turn_of (some 0)) (0, refl, first_pending) first_claim))
        (settle "t2" 0 done refl refl))
      (claim "t3" (turn_of (some 1)) (1, refl, second_pending) second_claim)

free_claimed : claim_session "t1" (turn_of none) free ≡ ok (push_turn "t1" (turn_of none) free)
unfolding claim_session
free_claimed = refl

free_run : Reach goal_caller free (push_turn "t1" (turn_of none) free)
free_run = next here (claim "t1" (turn_of none) refl free_claimed)

any_run : Reach any_caller planned (stop_session "t3" [] first_claimed)
any_run = next (next here (claim "t1" (turn_of (some 0)) tt first_claim)) (halt "t3" [] refl)

abbrev halted : CoordinationSession
halted = stop_session "t3" [] first_claimed

halted_inactive : is_active halted.status ≡ false
unfolding stop_session
halted_inactive = refl

late_run : Reach any_caller halted (settle_session "t4" 0 done halted)
late_run = next here (settle "t4" 0 done tt refl)

Reach-IsSound_example : IsSound halted.turns
Reach-IsSound_example = Reach-IsSound any_caller planned halted planned-IsCreated any_run

Reach-Frozen_example :
    (is_active (settle_session "t4" 0 done halted).status ≡ false)
    × (length (settle_session "t4" 0 done halted).turns ≡ length halted.turns)
Reach-Frozen_example =
    Reach-Frozen any_caller halted (settle_session "t4" 0 done halted) halted_inactive late_run

length-turns-le-max_turns_example : length (push_turn "t1" (turn_of none) free).turns ≤ 3
length-turns-le-max_turns_example =
    length-turns-le-max_turns free (push_turn "t1" (turn_of none) free) free-IsCreated (omega arith)
      free_run

second_step_taken : In 1 (steps_of second_claimed.turns)
unfolding settle_session should_stop dedupe settle_fields pending_steps ready_steps
second_step_taken = inr (inl refl)

turn-waited_example : Released (plan_steps planned) (completed_steps second_claimed.turns) 1
turn-waited_example =
    turn-waited planned second_claimed 1 planned-IsCreated planned_run second_step_taken

length-turns-le-plan_example : length second_claimed.turns ≤ length (plan_steps planned)
length-turns-le-plan_example =
    length-turns-le-plan planned second_claimed planned-IsCreated planned_run
