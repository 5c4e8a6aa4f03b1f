-- ===== src/Agents.antt =====
-- apps/server/src/agent-service.ts: Agents, their transcripts and threads. `not_after` says that
-- `localeCompare` does not put the first timestamp after the second. `seen` is the snapshot that a
-- call reads before its mutation.
pub mod Private
pub mod Threads
pub mod Deleted
use Prim.Native.String.{String}
use army_of_god.Prelude.{
  ℕ, ◌-◌, Bool, true, false, ◌&&◌, ◌||◌, not, Option, none, some, List, [], ◌∷◌, ◌++◌, map, length,
  filter, find, elem, lookup, ◌==◌, if◌then◌else◌, string_eq, sort_by,
}
use army_of_god.Text.{Text, trim}
use army_of_god.Store.{Result, ok, err, ◌>>=◌, ◌>>◌, require}
use army_of_god.Records.{TaskContract, RouteOutcome, routed, truthy_id}
use army_of_god.Records.Runs.{
  Agent, AgentStatus, ready, Message, MessageRole, assistant, AgentRun, RunCodifySummary, RunStatus,
  completed,
}
use army_of_god.Runs.{Desk, is_busy, on_agent, same_user}
use army_of_god.Contracts.{deprecate}

pub data AgentError : Type 0 where
  agent_not_found agent_busy run_not_found : AgentError

pub record CreateAgentInput : Type 0 where
  pub name : Text
  pub description : Option Text
  pub instructions : Option Text

pub record UpdateAgentInput : Type 0 where
  pub name : Option Text
  pub description : Option Text
  pub instructions : Option Text

abbrev trimmed_or : Option Text → Text → Text
trimmed_or none old = old
trimmed_or (some t) old = trim t

-- `createAgent`, with the new id and the path of its workspace.
unfoldable pub create_agent : String → String → String → CreateAgentInput → List Agent → List Agent
create_agent now id path input agents =
    agents
    ++ record {
      id = id;
      name = trim input.name;
      description = trimmed_or input.description [];
      instructions = trimmed_or input.instructions [];
      status = ready;
      workspace_path = path;
      codex_thread_id = none;
      codex_threads = none;
      last_error = none;
      created_at = now;
      updated_at = now;
    }
      ∷ []

abbrev pub get_agent : String → List Agent → Result AgentError Agent
get_agent id agents = elim (find (λ a. a.id == id) agents) [
  | none ↦ err agent_not_found
  | some a ↦ ok a
]

-- `applyBriefToAgent`
unfoldable pub apply_brief : String → String → Text → List Agent → Result AgentError (List Agent)
apply_brief now id instructions agents = do
  agent ← get_agent id agents
  ok (on_agent id (λ a. record a { instructions = trim instructions; updated_at = now }) agents)

abbrev edited : String → UpdateAgentInput → Agent → Agent
edited now input a = record a {
  name = trimmed_or input.name a.name;
  description = trimmed_or input.description a.description;
  instructions = trimmed_or input.instructions a.instructions;
  last_error = none;
  updated_at = now;
}

-- `updateAgent`: the guard counts on the snapshot and again in the mutation.
unfoldable pub update_agent :
    String → String → UpdateAgentInput → List Agent → List Agent → Result AgentError (List Agent)
update_agent now id input seen agents = do
  before ← get_agent id seen
  require (not (is_busy before.status)) agent_busy
  agent ← get_agent id agents
  require (not (is_busy agent.status)) agent_busy
  ok (on_agent id (edited now input) agents)

module _ {F : Type 0} where
  -- The mutation of `deleteAgent`, with the contracts.
  unfoldable pub remove_agent :
      String → Desk F × List (TaskContract F) → Desk F × List (TaskContract F)
  remove_agent id (d, contracts) = (
    record {
      agents = filter (λ a. not (a.id == id)) d.agents;
      messages = filter (λ m. not (m.agent_id == id)) d.messages;
      runs = filter (λ r. not (r.agent_id == id)) d.runs;
    },
    map (λ c. if c.agent_id == id then deprecate c else c) contracts,
  )

  -- `deleteAgent`, but for the files of the workspace.
  unfoldable pub delete_agent :
      String
      → List Agent
      → Desk F × List (TaskContract F)
      → Result AgentError (Desk F × List (TaskContract F))
  unfolding remove_agent
  delete_agent id seen s = do agent ← get_agent id seen; ok (remove_agent id s)

-- `decision?.decision === "routed"`
abbrev pub starts_fresh : Option RouteOutcome → Bool
starts_fresh (some routed) = true
starts_fresh _ = false

abbrev own_thread : Agent → String → Option String
own_thread agent user = elim agent.codex_threads [
  | none ↦ agent.codex_thread_id
  | some threads ↦ truthy_id (lookup user threads)
]

-- `resumeThread`; an empty thread counts as none.
unfoldable pub resume_thread : Agent → String → Option RouteOutcome → Option String
resume_thread agent user decision = if starts_fresh decision then none else own_thread agent user

-- `userId === undefined || message.userId === undefined || message.userId === userId`
abbrev pub may_see : Option String → Option String → Bool
may_see none owner = true
may_see (some user) none = true
may_see (some user) (some owner) = owner == user

-- `ownedByCaller`: the runs of the messages that carry this principal.
abbrev owned_by : String → List Message → List String
owned_by user messages =
    map (λ m. m.run_id) (filter (λ m. same_user user m.user_id && not (m.run_id == "")) messages)

abbrev has_completed : RunStatus → Bool
has_completed completed = true
has_completed _ = false

abbrev version_or_one : Option ℕ → ℕ
version_or_one none = 1
version_or_one (some v) = v

module _ (not_after : String → String → Bool) where
  -- `getMessages`
  unfoldable pub get_messages :
      String → Option String → List Agent → List Message → Result AgentError (List Message)
  get_messages agent_id user agents messages = do
    agent ← get_agent agent_id agents
    ok (
        sort_by (λ a b. not_after a.created_at b.created_at)
          (filter (λ m. m.agent_id == agent_id && may_see user m.user_id) messages))

  abbrev is_reply : MessageRole → Bool
  is_reply assistant = true
  is_reply _ = false

  abbrev answered : String → String → Message → Bool
  answered conversation user m =
      m.agent_id == conversation
      && is_reply m.role
      && may_see (some user) m.user_id
      && elim m.executed_by_agent_id [ none ↦ false | some id ↦ true ]

  abbrev first_responder : List Agent → List Message → Option Agent
  first_responder agents [] = none
  first_responder agents (previous ∷ rest) = elim (truthy_id previous.executed_by_agent_id) [
    | none ↦ none
    | some id ↦ find (λ a. a.id == id) agents
  ]

  -- `lastResponder`
  unfoldable pub last_responder : String → String → List Agent → List Message → Option Agent
  last_responder conversation user agents messages = first_responder agents (
      sort_by (λ a b. not_after b.created_at a.created_at)
        (filter (answered conversation user) messages))

  module _ {F : Type 0} where
    -- `getRun`
    unfoldable pub get_run : String → List (AgentRun F) → Result AgentError (AgentRun F)
    get_run id runs = elim (find (λ r. r.id == id) runs) [
      | none ↦ err run_not_found
      | some r ↦ ok r
    ]

    abbrev delegated_from : String → Option (RunCodifySummary F) → Bool
    delegated_from agent_id none = false
    delegated_from agent_id (some c) = same_user agent_id c.delegated_from_agent_id

    abbrev of_agent : String → AgentRun F → Bool
    of_agent agent_id r = r.agent_id == agent_id || elim r.conversation_agent_id [
      | none ↦ delegated_from agent_id r.codify
      | some c ↦ c == agent_id
    ]

    abbrev pub run_of_caller : Option String → List Message → AgentRun F → Bool
    run_of_caller none messages r = true
    run_of_caller (some user) messages r = elim r.user_id [
      | none ↦ elem r.id (owned_by user messages)
      | some owner ↦ owner == user
    ]

    -- `getRuns`
    unfoldable pub get_runs :
        String → Option String → Desk F → Result AgentError (List (AgentRun F))
    get_runs agent_id user d = do
      agent ← get_agent agent_id d.agents
      ok (
          sort_by (λ a b. not_after b.created_at a.created_at)
            (filter (run_of_caller user d.messages) (filter (of_agent agent_id) d.runs)))

    -- `item.codify?.contractId`, where it is not empty.
    abbrev credited_contract : AgentRun F → Option String
    credited_contract r = elim r.codify [ none ↦ none | some c ↦ truthy_id c.contract_id ]

    abbrev may_be_corrected : String → String → AgentRun F → Bool
    may_be_corrected agent_id run_id r =
        r.agent_id == agent_id
        && not (r.id == run_id)
        && has_completed r.status
        && elim (credited_contract r) [ none ↦ false | some c ↦ true ]

    abbrev contract_of_first : List (AgentRun F) → Option (String × ℕ)
    contract_of_first [] = none
    contract_of_first (previous ∷ rest) = elim previous.codify [
      | none ↦ none
      | some c ↦ elim (truthy_id c.contract_id) [
        | none ↦ none
        | some id ↦ some (id, version_or_one c.contract_version)
      ]
    ]

    -- `captureFeedback`: the contract and the version that a correction is credited to.
    unfoldable pub feedback_target : String → String → List (AgentRun F) → Option (String × ℕ)
    feedback_target agent_id run_id runs = contract_of_first (
        sort_by (λ a b. not_after b.created_at a.created_at)
          (filter (may_be_corrected agent_id run_id) runs))

-- `delete stored.codexThreads[userId]`, or the shared thread of an older store.
abbrev pub without_thread : String → Agent → Agent
without_thread user a = elim a.codex_threads [
  | none ↦ record a { codex_thread_id = none }
  | some threads ↦ record a { codex_threads = some (filter (λ p. not (p.0 == user)) threads) }
]

abbrev pub stamped : String → String → Message → Bool
stamped agent_id user m = m.agent_id == agent_id && same_user user m.user_id

module _ {F : Type 0} where
  -- The mutation of `resetSession`, with the number of messages that it clears.
  unfoldable pub reset_session :
      String → String → List Agent → Desk F → Result AgentError (ℕ × Desk F)
  reset_session agent_id user seen d = do
    before ← get_agent agent_id seen
    require (not (is_busy before.status)) agent_busy
    stored ← get_agent agent_id d.agents
    ok (
      length d.messages - length (filter (λ m. not (stamped agent_id user m)) d.messages),
      record d {
        agents = on_agent agent_id (without_thread user) d.agents;
        messages = filter (λ m. not (stamped agent_id user m)) d.messages;
      },
    )
