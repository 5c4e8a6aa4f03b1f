-- ===== src/Runs.antt =====
-- apps/server/src/agent-service.ts: the life of a run, by the mutations that `sendMessage`,
-- `executeRun`, `initialize` and `setStatus` commit.
pub mod Open
use Prim.Native.String.{String}
use army_of_god.Prelude.{
  ℕ, Bool, true, false, ◌&&◌, ◌||◌, not, Option, none, some, List, [], ◌∷◌, ◌++◌, map, any, find,
  update_first, ◌==◌, if◌then◌else◌, string_eq, put,
}
use army_of_god.Store.{Result, ok, err, ◌>>=◌, ◌>>◌, require}
use army_of_god.Records.Runs.{
  AgentStatus, ready, busy, stopped, error, RunStatus, running, completed, failed, cancelled,
  is_open, Agent, Message, MessageRole, assistant, RunUsage, AgentRun,
}

-- The collections of the store that a run changes.
pub record Desk (F : Type 0) : Type 0 where
  pub agents : List Agent
  pub runs : List (AgentRun F)
  pub messages : List Message

pub data RunError : Type 0 where
  agent_not_found agent_stopped run_in_flight run_active : RunError

abbrev pub is_busy : AgentStatus → Bool
is_busy busy = true
is_busy _ = false

abbrev pub is_stopped : AgentStatus → Bool
is_stopped stopped = true
is_stopped _ = false

abbrev is_ready : AgentStatus → Bool
is_ready ready = true
is_ready _ = false

abbrev pub same_user : String → Option String → Bool
same_user user none = false
same_user user (some u) = u == user

abbrev pub on_agent : String → (Agent → Agent) → List Agent → List Agent
on_agent id f agents = update_first (λ a. a.id == id) f agents

-- What the runner returns, and what `executeRun` knows of the turn.
pub record Finish : Type 0 where
  pub run_id : String
  pub agent_id : String
  pub user_id : String
  pub conversation_agent_id : String
  pub message_id : String
  pub output : List ℕ
  pub usage : Option RunUsage
  pub thread_id : Option String

abbrev pub threads_or : Option (List (String × String)) → List (String × String)
threads_or none = []
threads_or (some ts) = ts

-- `{ ...(threads ?? {}), [user]: thread }`
abbrev pub next_threads :
    String → Option String → Option (List (String × String)) → Option (List (String × String))
next_threads user none old = old
next_threads user (some thread) old =
    if thread == "" then old else some (put user thread (threads_or old))

abbrev reply : String → Finish → Message
reply now o = record {
  id = o.message_id;
  agent_id = o.conversation_agent_id;
  run_id = o.run_id;
  role = assistant;
  content = o.output;
  created_at = now;
  user_id = some o.user_id;
  executed_by_agent_id = if o.agent_id == o.conversation_agent_id then none else some o.agent_id;
}

abbrev freed : String → Agent → Agent
freed now a = if is_busy a.status then record a { status = ready; updated_at = now } else a

module _ {F : Type 0} where
  -- An open run of this person on this Agent.
  abbrev pub open_for : String → String → AgentRun F → Bool
  open_for agent_id user run =
      run.agent_id == agent_id && same_user user run.user_id && is_open run.status

  abbrev pub on_run : String → (AgentRun F → AgentRun F) → List (AgentRun F) → List (AgentRun F)
  on_run id f runs = update_first (λ r. r.id == id) f runs

  abbrev admit_found :
      String → String → AgentRun F → Message → Desk F → Option Agent → Result RunError (Desk F)
  admit_found now user run message d none = err agent_not_found
  admit_found now user run message d (some agent) = do
    require (not (is_stopped agent.status)) agent_stopped
    require (not (any (open_for run.agent_id user) d.runs)) run_in_flight
    ok (record {
      agents =
          on_agent run.agent_id
            (λ a. record a { status = busy; last_error = none; updated_at = now }) d.agents;
      runs = d.runs ++ run ∷ [];
      messages = d.messages ++ message ∷ [];
    })

  -- The mutation at the end of `sendMessage`; `run` and `message` are the records that it has built.
  unfoldable pub admit : String → String → AgentRun F → Message → Desk F → Result RunError (Desk F)
  admit now user run message d =
      admit_found now user run message d (find (λ a. a.id == run.agent_id) d.agents)

  abbrev pub started_run : String → AgentRun F → AgentRun F
  started_run now r = record r { status = running; started_at = some now }

  -- The first mutation of `executeRun`.
  unfoldable pub start : String → String → Desk F → Desk F
  start now run_id d = record d { runs = on_run run_id (started_run now) d.runs }

  -- Another run of the Agent is open.
  abbrev pub still_open : String → String → List (AgentRun F) → Bool
  still_open agent_id run_id runs =
      any (λ r. r.agent_id == agent_id && not (r.id == run_id) && is_open r.status) runs

  abbrev pub ended_run : String → Finish → AgentRun F → AgentRun F
  ended_run now o r = record r {
    status = completed;
    output = some o.output;
    usage = o.usage;
    completed_at = some now;
  }

  abbrev pub answered_agent : String → Finish → Desk F → Agent → Agent
  answered_agent now o d a = record a {
    status = if still_open o.agent_id o.run_id d.runs then busy else ready;
    codex_thread_id = o.thread_id;
    codex_threads = next_threads o.user_id o.thread_id a.codex_threads;
    last_error = none;
    updated_at = now;
  }

  abbrev pub succeed_found : String → Finish → Desk F → Option (AgentRun F) → Option Agent → Desk F
  succeed_found now o d none agent = d
  succeed_found now o d (some run) none = d
  succeed_found now o d (some run) (some agent) = record {
    agents = on_agent o.agent_id (answered_agent now o d) d.agents;
    runs = on_run o.run_id (ended_run now o) d.runs;
    messages = d.messages ++ reply now o ∷ [];
  }

  -- The mutation of `executeRun` where the runner returned.
  unfoldable pub succeed : String → Finish → Desk F → Desk F
  succeed now o d =
      succeed_found now o d (find (λ r. r.id == o.run_id) d.runs)
        (find (λ a. a.id == o.agent_id) d.agents)

  abbrev pub lost_run : String → Bool → String → AgentRun F → AgentRun F
  lost_run now was_cancelled text r = record r {
    status = if was_cancelled then cancelled else failed;
    error = some text;
    completed_at = some now;
  }

  -- The mutation of `executeRun` where the runner failed with this text, or was cancelled.
  unfoldable pub fail : String → String → String → Bool → String → Desk F → Desk F
  fail now run_id agent_id was_cancelled text d = record d {
    agents =
        on_agent agent_id
          (λ a. record a {
            status =
                if is_stopped a.status then a.status else (if was_cancelled then ready else error);
            last_error = if was_cancelled then none else some text;
            updated_at = now;
          })
          d.agents;
    runs = on_run run_id (lost_run now was_cancelled text) d.runs;
  }

  abbrev reaped : String → AgentRun F → AgentRun F
  reaped now r =
      if is_open r.status
      then record r {
        status = cancelled;
        error = some "Server restarted while this run was active";
        completed_at = some now;
      }
      else r

  -- The mutation of `initialize`.
  unfoldable pub recover : String → Desk F → Desk F
  recover now d = record d { agents = map (freed now) d.agents; runs = map (reaped now) d.runs }

  abbrev set_found : String → AgentStatus → Desk F → Option Agent → Result RunError (Desk F)
  set_found now status d none = err agent_not_found
  set_found now status d (some agent) = do
    require (not (is_ready status && is_busy agent.status)) run_active
    ok (record d {
      agents =
          on_agent agent.id
            (λ a. record a {
              status = status;
              last_error = if is_ready status then none else a.last_error;
              updated_at = now;
            })
            d.agents;
    })

  unfoldable pub set_status : String → String → AgentStatus → Desk F → Result RunError (Desk F)
  set_status now id status d = set_found now status d (find (λ a. a.id == id) d.agents)
