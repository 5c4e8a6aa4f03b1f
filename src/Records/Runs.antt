-- ===== src/Records/Runs.antt =====
-- apps/server/src/types.ts: Agents, messages and runs.
use Prim.Native.String.{String}
use army_of_god.Prelude.{ℕ, Bool, true, false, Option, List}
use army_of_god.Records.{RouteOutcome, BrokerMode, CapabilityScope, MatchChannel}

pub data AgentStatus : Type 0 where
  ready busy stopped error : AgentStatus

pub data RunStatus : Type 0 where
  queued running completed failed cancelled : RunStatus

pub data MessageRole : Type 0 where
  user assistant : MessageRole

-- A run that was admitted and has not ended.
abbrev pub is_open : RunStatus → Bool
is_open queued = true
is_open running = true
is_open _ = false

pub record Agent : Type 0 where
  pub id : String
  pub name : List ℕ
  pub description : List ℕ
  pub instructions : List ℕ
  pub status : AgentStatus
  pub workspace_path : String
  pub codex_thread_id : Option String
  -- One thread for each principal; `none` where the store has no such table yet.
  pub codex_threads : Option (List (String × String))
  pub last_error : Option String
  pub created_at : String
  pub updated_at : String

pub record Message : Type 0 where
  pub id : String
  pub agent_id : String
  pub run_id : String
  pub role : MessageRole
  pub content : List ℕ
  pub created_at : String
  pub user_id : Option String
  pub executed_by_agent_id : Option String

-- A number of `RunUsage` as the Runtime reports it: missing, or a value that is no finite number, or
-- one that is not above zero, or a count.
pub data Reported : Type 0 where
  absent not_finite not_positive : Reported
  count : ℕ → Reported

pub record RunUsage : Type 0 where
  pub input_tokens : Reported
  pub cached_input_tokens : Reported
  pub output_tokens : Reported

pub record RunCodifySummary (F : Type 0) : Type 0 where
  pub decision : RouteOutcome
  pub broker_mode : BrokerMode
  pub contract_id : Option String
  pub contract_version : Option ℕ
  pub contract_name : Option String
  pub score : Option F
  pub match_channel : Option MatchChannel
  pub scope : Option CapabilityScope
  pub denials : ℕ
  -- The kind and the target of each denial.
  pub denied_targets : Option (List (String × List ℕ))
  pub domains_reached : List (List ℕ)
  pub delegated_from_agent_id : Option String
  pub delegated_from_agent_name : Option String
  pub delegated_to_agent_id : Option String
  pub delegated_to_agent_name : Option String

pub record AgentRun (F : Type 0) : Type 0 where
  pub id : String
  pub conversation_agent_id : Option String
  pub agent_id : String
  pub user_id : Option String
  pub status : RunStatus
  pub prompt : List ℕ
  pub output : Option (List ℕ)
  pub error : Option String
  pub usage : Option RunUsage
  pub started_at : Option String
  pub completed_at : Option String
  pub created_at : String
  pub codify : Option (RunCodifySummary F)
