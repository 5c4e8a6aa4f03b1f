-- ===== src/Session/Driver.antt =====
-- How a plan-backed session is driven: service.ts `selectFor`, `planWave`; agent-service.ts
-- `advanceSession`, `runSessionTurn`, `runSessionToCompletion`. The turns of a wave run at once: an
-- `Event` is one call that a turn makes, or an administrator, and a schedule is any sequence of them.
pub mod Later
pub mod Waves
pub mod Rounds
use Prim.Native.String.{String}
use army_of_god.Prelude.{
  ℕ, zero, suc, Bool, true, false, ◌||◌, not, Option, none, some, List, [], ◌∷◌, map, length,
  filter, find, elem, get_elem?, nat_beq, nat_eq, ◌==◌, if◌then◌else◌, string_eq,
}
use army_of_god.Text.{Text}
use army_of_god.Store.{Result, ok, err}
use army_of_god.Records.{TaskContract}
use army_of_god.Records.Runs.{Agent}
use army_of_god.Matching.{Scoring, MatchCandidate, MatchThresholds}
use army_of_god.Planner.{PlannedStep}
use army_of_god.Session.{
  CoordinationSession, SessionTurn, is_claimed, is_active, should_stop, plan_steps, pending_steps,
}
use army_of_god.Session.Turns.{
  TurnClaim, ClaimError, claim_session, TurnOutcome, settle_session, stop_session,
}
use army_of_god.Session.Selection.{
  SelectionResult, SelectionReason, select_participant, plan_instruction, build_instruction,
}

module _ {F : Type 0} (s : Scoring F) (not_after : String → String → Bool)
    (thresholds : MatchThresholds F) where
  -- `selectFor`, on what the store holds then; `candidate_of` is the fingerprint, the canonical form
  -- and the embedding of an instruction.
  unfoldable pub select_for :
      (Text → MatchCandidate)
      → List Agent
      → List (TaskContract F)
      → CoordinationSession
      → Text
      → Option (SelectionResult F)
  select_for candidate_of agents contracts session instruction =
      select_participant s not_after thresholds session (candidate_of instruction) agents contracts

-- What `planWave` returns for one step, but for the session.
pub record WaveStep (F : Type 0) : Type 0 where
  pub selection : SelectionResult F
  pub instruction : Text
  pub step_index : Option ℕ

-- The Agents that have a claimed turn.
abbrev busy_agents : List SessionTurn → List String
busy_agents turns = map (λ t. t.agent_id) (filter (λ t. is_claimed t.status) turns)

module _ {F : Type 0} (select : CoordinationSession → Text → Option (SelectionResult F)) where
  abbrev step_of : CoordinationSession → ℕ → SelectionResult F → WaveStep F
  step_of s i r = record { selection = r; instruction = plan_instruction s i; step_index = some i }

  -- The loop over the pending steps: one step for each Agent.
  pub wave_from : CoordinationSession → List String → List ℕ → List (WaveStep F)
  wave_from s busy [] = []
  wave_from s busy (i ∷ is) = elim (select s (plan_instruction s i)) [
    | none ↦ wave_from s busy is
    | some r ↦ elim (elem r.agent_id busy) [
      | true ↦ wave_from s busy is
      | false ↦ step_of s i r ∷ wave_from s (r.agent_id ∷ busy) is
    ]
  ]

  abbrev goal_wave : CoordinationSession → List (WaveStep F)
  goal_wave s = elim (select s (build_instruction s)) [
    | none ↦ []
    | some r ↦ record { selection = r; instruction = build_instruction s; step_index = none } ∷ []
  ]

  abbrev planned_wave : CoordinationSession → List PlannedStep → List (WaveStep F)
  unfolding wave_from
  planned_wave s [] = goal_wave s
  planned_wave s (p ∷ ps) = wave_from s (busy_agents s.turns) (pending_steps s)

  -- `planWave`
  unfoldable pub plan_wave : CoordinationSession → List (WaveStep F)
  unfolding wave_from
  plan_wave s = if (should_stop s).stop then [] else planned_wave s (plan_steps s)

-- A wave in progress: the turns that are not claimed yet, the indices of those that run.
pub record Wave (F : Type 0) : Type 0 where
  pub waiting : List (WaveStep F)
  pub running : List ℕ
  pub session : CoordinationSession
  -- A turn threw: its Agent is gone.
  pub thrown : Bool

-- A turn that waits is claimed, by its place; a turn that runs is settled; an administrator stops.
pub data Event : Type 0 where
  starts : String → ℕ → Event
  settles : String → ℕ → TurnOutcome → Event
  stops : String → List ℕ → Event

abbrev remove_at : {A : Type 0} → ℕ → List A → List A
remove_at n [] = []
remove_at zero (x ∷ xs) = xs
remove_at (suc n) (x ∷ xs) = x ∷ remove_at n xs

-- How the loop ends: by its break, with the error of a round, or when the guard is used up.
pub data LoopEnd : Type 0 where
  broke_off rejected ran_out : LoopEnd

-- `sentence` is the text of a reason, `agents` are those in the store.
module _ {F : Type 0} (sentence : SelectionReason F → Text) (agents : List Agent) where
  abbrev turn_claim : WaveStep F → Agent → TurnClaim
  turn_claim st a = record {
    step_index = st.step_index;
    agent_id = a.id;
    agent_name = a.name;
    contract_id = elim st.selection.contract [ none ↦ none | some c ↦ some c.id ];
    contract_name = elim st.selection.contract [ none ↦ none | some c ↦ some c.name ];
    selection = sentence st.selection.reason;
    instruction = st.instruction;
  }

  abbrev pub attempt : WaveStep F → Wave F → Result ClaimError CoordinationSession → Wave F
  attempt st w (ok s) = record {
    waiting = w.waiting;
    running = length w.session.turns ∷ w.running;
    session = s;
    thrown = w.thrown;
  }
  attempt st w (err e) = w

  -- `runSessionTurn` up to its claim: an Agent that is gone and a claim that is refused end the turn.
  abbrev pub begin : String → WaveStep F → Wave F → Option Agent → Wave F
  begin now st w none = record w { thrown = true }
  begin now st w (some a) = attempt st w (claim_session now (turn_claim st a) w.session)

  abbrev pub launched : String → WaveStep F → Wave F → Wave F
  launched now st w = begin now st w (find (λ a. a.id == st.selection.agent_id) agents)

  pub run_event : Event → Wave F → Wave F
  run_event (starts now n) w = elim (get_elem? w.waiting n) [
    | none ↦ w
    | some st ↦ launched now st (record w { waiting = remove_at n w.waiting })
  ]
  run_event (settles now index outcome) w = elim (elem index w.running) [
    | true ↦ record {
      waiting = w.waiting;
      running = filter (λ j. not (nat_beq j index)) w.running;
      session = settle_session now index outcome w.session;
      thrown = w.thrown;
    }
    | false ↦ w
  ]
  run_event (stops now reason) w = record w { session = stop_session now reason w.session }

  pub run_events : List Event → Wave F → Wave F
  unfolding run_event
  run_events [] w = w
  run_events (e ∷ es) w = run_events es (run_event e w)

  module _ (select : CoordinationSession → Text → Option (SelectionResult F)) where
    -- `advanceSession`, on the calls that its wave makes in their order: it rejects where `thrown` is.
    unfoldable pub advance_session : List Event → CoordinationSession → Wave F
    unfolding run_events
    advance_session events s =
        run_events events
          (record { waiting = plan_wave select s; running = []; session = s; thrown = false })

    abbrev round_ended : CoordinationSession → CoordinationSession → Bool
    round_ended before s =
        not (is_active s.status) || nat_beq (length s.turns) (length before.turns)

    -- The loop of `runSessionToCompletion` for so many rounds, round `k` with the calls `schedule k`:
    -- how it ended, and the session.
    pub rounds : (ℕ → List Event) → ℕ → ℕ → CoordinationSession → LoopEnd × CoordinationSession
    unfolding advance_session
    rounds schedule k zero s = (ran_out, s)
    rounds schedule k (suc fuel) s =
        let after = advance_session (schedule k) s in
        elim after.thrown [
          | true ↦ (rejected, after.session)
          | false ↦ elim (round_ended s after.session) [
            | true ↦ (broke_off, after.session)
            | false ↦ rounds schedule (suc k) fuel after.session
          ]
        ]

    -- `runSessionToCompletion`: the guard counts from 0 to the session's ceiling.
    unfoldable pub run_session_to_completion :
        (ℕ → List Event) → CoordinationSession → LoopEnd × CoordinationSession
    unfolding rounds
    run_session_to_completion schedule s = rounds schedule 0 (suc s.max_turns) s
