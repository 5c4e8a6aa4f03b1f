-- ===== src/Session/Turns.antt =====
-- apps/server/src/codify/coordination.ts: `claimTurn`, `settleTurn`; service.ts: `stopSession`.
-- Each is the mutation that the store commits; `now` is the time that the code reads.
use Prim.Native.String.{String}
use army_of_god.Prelude.{
  ℕ, Bool, ◌&&◌, not, Option, none, some, List, [], ◌∷◌, ◌++◌, length, any, find, elem,
  update_first, ◌==◌, if◌then◌else◌, nat_beq, nat_eq, string_eq,
}
use army_of_god.Store.{Result, ok, err, ◌>>=◌, ◌>>◌, require}
use army_of_god.Session.{
  SessionTurn, TurnStatus, claimed, is_claimed, CoordinationSession, SessionStatus, is_active,
  administrative, should_stop, steps_of,
}

-- `Omit<SessionTurn, "index" | "claimedAt" | "status">`
pub record TurnClaim : Type 0 where
  pub step_index : Option ℕ
  pub agent_id : String
  pub agent_name : List ℕ
  pub contract_id : Option String
  pub contract_name : Option String
  pub selection : List ℕ
  pub instruction : List ℕ

-- The messages that `claimTurn` throws.
pub data ClaimError : Type 0 where
  session_not_found session_not_active turn_in_flight agent_in_flight : ClaimError
  step_claimed : ℕ → ClaimError

-- The Agent has a claimed turn.
abbrev pub holds_claim : String → List SessionTurn → Bool
holds_claim agent ts = any (λ t. is_claimed t.status && t.agent_id == agent) ts

free_slot : Option ℕ → String → List SessionTurn → Result ClaimError (Unit {0})
free_slot none agent ts = require (not (any (λ t. is_claimed t.status) ts)) turn_in_flight
free_slot (some i) agent ts = do
  require (not (elem i (steps_of ts))) (step_claimed i)
  require (not (holds_claim agent ts)) agent_in_flight

abbrev pub claimed_turn : String → TurnClaim → ℕ → SessionTurn
claimed_turn now turn index = record {
  index = index;
  step_index = turn.step_index;
  claimed_at = now;
  agent_id = turn.agent_id;
  agent_name = turn.agent_name;
  contract_id = turn.contract_id;
  contract_name = turn.contract_name;
  selection = turn.selection;
  instruction = turn.instruction;
  run_id = none;
  output = none;
  error = none;
  status = claimed;
  completed_at = none;
}

abbrev pub push_turn : String → TurnClaim → CoordinationSession → CoordinationSession
push_turn now turn s = record s {
  turns = s.turns ++ claimed_turn now turn (length s.turns) ∷ [];
  updated_at = now;
}

-- The claim on the session that was found.
unfoldable pub claim_session :
    String → TurnClaim → CoordinationSession → Result ClaimError CoordinationSession
unfolding free_slot
claim_session now turn s = do
  require (is_active s.status) session_not_active
  free_slot turn.step_index turn.agent_id s.turns
  ok (push_turn now turn s)

-- `claimTurn`: the new turn, and the sessions with it.
abbrev claim_found :
    String
    → String
    → TurnClaim
    → List CoordinationSession
    → Option CoordinationSession
    → Result ClaimError (SessionTurn × List CoordinationSession)
claim_found now id turn sessions none = err session_not_found
claim_found now id turn sessions (some s) = do
  s' ← claim_session now turn s
  ok (claimed_turn now turn (length s.turns), update_first (λ x. x.id == id) (λ _. s') sessions)

unfoldable pub claim_turn :
    String
    → String
    → TurnClaim
    → List CoordinationSession
    → Result ClaimError (SessionTurn × List CoordinationSession)
claim_turn now id turn sessions = claim_found now id turn sessions (find (λ x. x.id == id) sessions)

pub data OutcomeStatus : Type 0 where
  completed failed : OutcomeStatus

abbrev pub turn_status : OutcomeStatus → TurnStatus
turn_status completed = TurnStatus.completed
turn_status failed = TurnStatus.failed

pub record TurnOutcome : Type 0 where
  pub status : OutcomeStatus
  pub run_id : Option String
  pub output : Option (List ℕ)
  pub error : Option (List ℕ)
  pub state : Option (List (String × String))

-- `if (value) field = value`, where an empty text counts as false.
abbrev keep_text : Option (List ℕ) → Option (List ℕ) → Option (List ℕ)
keep_text none old = old
keep_text (some []) old = old
keep_text (some (c ∷ cs)) old = some (c ∷ cs)

abbrev keep_id : Option String → Option String → Option String
keep_id none old = old
keep_id (some v) old = if v == "" then old else some v

unfoldable pub settle_fields : String → TurnOutcome → SessionTurn → SessionTurn
settle_fields now o t = record t {
  status = turn_status o.status;
  completed_at = some now;
  run_id = keep_id o.run_id t.run_id;
  output = keep_text o.output t.output;
  error = keep_text o.error t.error;
}

-- `{ ...state, ...given }`: a key that is there keeps its place.
abbrev set_key : String → String → List (String × String) → List (String × String)
set_key k v [] = (k, v) ∷ []
set_key k v ((j, w) ∷ rest) =
    let later = (j, w) ∷ set_key k v rest in if j == k then (k, v) ∷ rest else later

abbrev merge_state :
    Option (List (String × String)) → List (String × String) → List (String × String)
merge_state none old = old
merge_state (some []) old = old
merge_state (some ((k, v) ∷ given)) old = merge_state (some given) (set_key k v old)

unfoldable pub settled_session :
    String → ℕ → TurnOutcome → CoordinationSession → CoordinationSession
settled_session now index o s = record s {
  turns = update_first (λ t. nat_beq t.index index) (settle_fields now o) s.turns;
  state = merge_state o.state s.state;
  updated_at = now;
}

-- The stop rules are applied to the session with the turn settled.
unfoldable pub close_if_stopped : CoordinationSession → CoordinationSession
close_if_stopped s =
    let d = should_stop s in
    if d.stop then record s { status = d.status; stop_reason = some d.reason } else s

-- `settleTurn` on the session that was found: nothing happens where the turn is not there.
unfoldable pub settle_session : String → ℕ → TurnOutcome → CoordinationSession → CoordinationSession
unfolding close_if_stopped settled_session
settle_session now index o s =
    if any (λ t. nat_beq t.index index) s.turns
    then close_if_stopped (settled_session now index o s)
    else s

unfoldable pub settle_turn :
    String → String → ℕ → TurnOutcome → List CoordinationSession → List CoordinationSession
settle_turn now id index o sessions =
    update_first (λ x. x.id == id) (settle_session now index o) sessions

-- `stopSession`, unconditional.
unfoldable pub stop_session : String → List ℕ → CoordinationSession → CoordinationSession
stop_session now reason s = record s {
  status = SessionStatus.stopped;
  stop_reason = some (administrative reason);
  updated_at = now;
}
