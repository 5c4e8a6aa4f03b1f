-- ===== src/Session/Split.antt =====
-- `coordinatePrompt` of apps/server/src/agent-service.ts: the session for a request that was split.
use Prim.Native.String.{String}
use army_of_god.Prelude.{
  ℕ, ◌*◌, ◌≤◌, ◌≡◌, ◌&&◌, not, Option, none, some, List, ◌∷◌, arith, map, length, filter, any,
  dedupe, ltb, leb, ◌==◌, if◌then◌else◌, string_eq, Bool-cases, inl, inr,
}
use army_of_god.Text.{Text, codes}
use army_of_god.Records.{TaskContract, is_active}
use army_of_god.Records.Runs.{Agent}
use army_of_god.Runs.{is_stopped}
use army_of_god.Planner.{PlannedStep}
use army_of_god.Session.Steps.{SessionInput}

-- `splitPrompt`, on the steps that the planner gives.
abbrev pub split_prompt : List PlannedStep → Option (List PlannedStep)
split_prompt steps = if ltb 1 (length steps) then some steps else none

abbrev not_above : ℕ → ℕ → ℕ
not_above n m = if leb n m then n else m

module _ {F : Type 0} where
  -- The Agents that hold an active contract.
  abbrev specialists : List (TaskContract F) → List String
  specialists contracts =
      map (λ c. c.agent_id) (filter (λ c. is_active c.status && not (c.agent_id == "")) contracts)

  abbrev participants_for : String → List Agent → List (TaskContract F) → List String
  participants_for addressed agents contracts =
      addressed
      ∷ filter (λ id. any (λ a. a.id == id && not (is_stopped a.status)) agents)
          (specialists contracts)

  abbrev session_for :
      String
      → Text
      → String
      → List Agent
      → List (TaskContract F)
      → Option (List PlannedStep)
      → Option SessionInput
  session_for addressed prompt user agents contracts none = none
  session_for addressed prompt user agents contracts (some plan) =
      let participants = participants_for addressed agents contracts in
      if ltb (length (dedupe participants)) 2
      then none
      else some (record {
        topic = codes "Split request";
        goal = prompt;
        participant_agent_ids = participants;
        max_turns = not_above (length plan * 2) 12;
        created_by = user;
        state = none;
        plan = some plan;
        fallback_agent_id = some addressed;
      })

  -- `coordinatePrompt` up to its `createSession`.
  unfoldable pub coordinate_prompt :
      String
      → Text
      → String
      → List Agent
      → List (TaskContract F)
      → List PlannedStep
      → Option SessionInput
  coordinate_prompt addressed prompt user agents contracts steps =
      session_for addressed prompt user agents contracts (split_prompt steps)

  -- The ceiling of such a session has room for every step of a plan of at most twelve.
  pub coordinate_prompt-fits :
      (addressed : String) (prompt : Text) (user : String) (agents : List Agent)
      (contracts : List (TaskContract F)) (steps : List PlannedStep) (input : SessionInput)
      → coordinate_prompt addressed prompt user agents contracts steps ≡ some input
      → length steps ≤ 12
      → length steps ≤ input.max_turns
  unfolding coordinate_prompt
  coordinate_prompt-fits addressed prompt user agents contracts steps input h few =
      elim (Bool-cases (ltb 1 (length steps))) [
        | inl several ↦
            elim (Bool-cases
              (ltb (length (dedupe (participants_for addressed agents contracts))) 2)) [
                | inl alone ↦ absurd (cc (rw (several, alone) at h))
                | inr together ↦
                    let ceiling : not_above (length steps * 2) 12 ≡ input.max_turns =
                      cc (rw (several, together) at h) in
                    ground (arith, ceiling, few)
              ]
        | inr single ↦ absurd (cc (rw single at h))
      ]
