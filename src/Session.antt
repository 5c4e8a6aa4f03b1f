-- ===== src/Session.antt =====
-- apps/server/src/codify/coordination.ts: coordination sessions, their stop rules, and the claim and
-- the settlement of a turn.
pub mod Turns
pub mod Sound
pub mod Steps
pub mod Ceiling
pub mod Order
pub mod Selection
pub mod Driver
pub mod Split
use Prim.Native.String.{String}
use army_of_god.Prelude.{
  ℕ, zero, suc, Bool, true, false, ◌&&◌, ◌||◌, not, Option, none, some, List, [], ◌∷◌, ◌++◌, length,
  any, all, filter, find, elem, dedupe, ltb, leb, nat_beq, ◌==◌, if◌then◌else◌, nat_eq, string_eq,
}
use army_of_god.Planner.{PlannedStep, ready_steps}

pub data SessionStatus : Type 0 where
  active completed stopped failed : SessionStatus

pub data TurnStatus : Type 0 where
  claimed completed failed : TurnStatus

abbrev pub is_claimed : TurnStatus → Bool
is_claimed claimed = true
is_claimed _ = false

abbrev pub is_completed : TurnStatus → Bool
is_completed completed = true
is_completed _ = false

abbrev pub is_failed : TurnStatus → Bool
is_failed failed = true
is_failed _ = false

-- The sentences of `StopDecision.reason`, one constructor each, with what they interpolate.
pub data StopReason : Type 0 where
  -- An administrative stop's own text.
  administrative : List ℕ → StopReason
  not_active goal_met plan_ran plan_blocked none_given : StopReason
  turn_ceiling two_failures : ℕ → StopReason

-- Texts that are read or cut are lists of code units; identifiers and timestamps are strings.
pub record SessionTurn : Type 0 where
  pub index : ℕ
  pub step_index : Option ℕ
  pub claimed_at : String
  pub agent_id : String
  pub agent_name : List ℕ
  pub contract_id : Option String
  pub contract_name : Option String
  pub selection : List ℕ
  pub instruction : List ℕ
  pub run_id : Option String
  pub output : Option (List ℕ)
  pub error : Option (List ℕ)
  pub status : TurnStatus
  pub completed_at : Option String

pub record CoordinationSession : Type 0 where
  pub id : String
  pub topic : List ℕ
  pub goal : List ℕ
  pub created_by : String
  pub participant_agent_ids : List String
  pub plan : Option (List PlannedStep)
  pub fallback_agent_id : Option String
  pub turns : List SessionTurn
  pub state : List (String × String)
  pub max_turns : ℕ
  pub status : SessionStatus
  pub stop_reason : Option StopReason
  pub created_at : String
  pub updated_at : String

abbrev pub steps_of : List SessionTurn → List ℕ
steps_of [] = []
steps_of (t ∷ ts) = elim t.step_index [ none ↦ steps_of ts | some i ↦ i ∷ steps_of ts ]

-- The steps whose turn is completed, and those that a turn has taken.
abbrev pub completed_steps : List SessionTurn → List ℕ
completed_steps ts = steps_of (filter (λ t. is_completed t.status) ts)

-- `session.plan`, where a missing plan and an empty one are treated alike.
abbrev pub plan_steps : CoordinationSession → List PlannedStep
plan_steps s = elim s.plan [ none ↦ [] | some steps ↦ steps ]

unfoldable pub pending_steps : CoordinationSession → List ℕ
pending_steps s =
    filter (λ i. not (elem i (steps_of s.turns)))
      (ready_steps (plan_steps s) (completed_steps s.turns))

pub record StopDecision : Type 0 where
  pub stop : Bool
  pub status : SessionStatus
  pub reason : StopReason

-- `turns.slice(-2)`
last_two : List SessionTurn → List SessionTurn
last_two (a ∷ b ∷ c ∷ ts) = last_two (b ∷ c ∷ ts)
last_two ts = ts

-- `session.state.done === "true"`
marked_done : List (String × String) → Bool
marked_done [] = false
marked_done ((k, v) ∷ rest) =
    let later = marked_done rest in if k == "done" then v == "true" else later

two_consecutive_failures : List SessionTurn → Bool
unfolding last_two
two_consecutive_failures ts =
    nat_beq (length (last_two ts)) 2 && all (λ t. is_failed t.status) (last_two ts)

abbrev decide_stop : SessionStatus → StopReason → StopDecision
decide_stop status reason = record { stop = true; status = status; reason = reason }

abbrev go_on : StopDecision
go_on = record { stop = false; status = SessionStatus.active; reason = none_given }

-- The rules of a plan-backed session.
pub plan_stop : CoordinationSession → StopDecision
plan_stop s =
    let settled = dedupe (steps_of (filter (λ t. not (is_claimed t.status)) s.turns)) in
    if leb (length (plan_steps s)) (length settled)
    then decide_stop
        (if any (λ t. is_failed t.status) s.turns
          then SessionStatus.failed
          else SessionStatus.completed)
        plan_ran
    else if not (any (λ t. is_claimed t.status) s.turns) && nat_beq (length (pending_steps s)) 0
    then decide_stop SessionStatus.failed plan_blocked
    else go_on

-- The rules of an active session, in the code's order.
active_stop : CoordinationSession → StopDecision
unfolding plan_stop two_consecutive_failures marked_done
active_stop s =
    if leb s.max_turns (length s.turns)
    then decide_stop SessionStatus.stopped (turn_ceiling s.max_turns)
    else if two_consecutive_failures s.turns
    then decide_stop SessionStatus.failed
        (two_failures (length (filter (λ t. is_failed t.status) s.turns)))
    else if marked_done s.state
    then decide_stop SessionStatus.completed goal_met
    else if nat_beq (length (plan_steps s)) 0
    then go_on
    else plan_stop s

abbrev stop_reason_or : Option StopReason → StopReason
stop_reason_or none = not_active
stop_reason_or (some r) = r

abbrev pub is_active : SessionStatus → Bool
is_active SessionStatus.active = true
is_active _ = false

unfoldable pub should_stop : CoordinationSession → StopDecision
unfolding active_stop
should_stop s =
    if is_active s.status
    then active_stop s
    else decide_stop s.status (stop_reason_or s.stop_reason)
