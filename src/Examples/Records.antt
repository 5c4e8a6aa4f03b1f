-- ===== src/Examples/Records.antt =====
-- The contracts and the runs that the other examples use. Numbers of the matcher are counts here.
use Prim.Native.String.{String}
use army_of_god.Prelude.{ℕ, Option, none, some, List, [], ◌∷◌}
use army_of_god.Records.{
  Mode, CapabilityScope, TaskBudget, TaskContract, ContractStatus, active, deprecated, enforce,
  routed,
}
use army_of_god.Records.Runs.{AgentRun, RunStatus, absent, count}

abbrev pub small_scope : CapabilityScope
small_scope = record {
  paths = record { path = 97 ∷ []; mode = Mode.ro } ∷ [];
  domains = (120 ∷ []) ∷ [];
  secrets = [];
}

abbrev pub two_runs : TaskBudget
two_runs = record { max_total_tokens = none; max_runs = some 2; max_tokens_per_run = none }

abbrev pub contract_named : String → String → Option String → ContractStatus → TaskContract ℕ
contract_named id agent_id supersedes status = record {
  id = id;
  version = 1;
  name = "task";
  agent_id = agent_id;
  match_fingerprints = (102 ∷ []) ∷ [];
  match_canonical_forms = none;
  match_embeddings = none;
  match_threshold = 5;
  containment_threshold = none;
  semantic_threshold = none;
  system_prompt = [];
  refinements = [];
  scope = small_scope;
  budget = some two_runs;
  status = status;
  review_note = none;
  created_by = "u";
  created_at = "t";
  supersedes = supersedes;
}

-- The first version is superseded by the second.
abbrev pub old_version : TaskContract ℕ
old_version = contract_named "v1" "agent" none deprecated

abbrev pub new_version : TaskContract ℕ
new_version = contract_named "v2" "agent" (some "v1") active

abbrev pub other : TaskContract ℕ
other = contract_named "w" "another" none active

abbrev pub contracts : List (TaskContract ℕ)
contracts = old_version ∷ new_version ∷ other ∷ []

-- A run of eight tokens under a contract.
abbrev pub run_under : String → AgentRun ℕ
run_under contract_id = record {
  id = "r";
  conversation_agent_id = none;
  agent_id = "agent";
  user_id = none;
  status = RunStatus.completed;
  prompt = [];
  output = none;
  error = none;
  usage =
      some
        (record { input_tokens = count 5; cached_input_tokens = absent; output_tokens = count 3 });
  started_at = none;
  completed_at = none;
  created_at = "t";
  codify = some (record {
    decision = routed;
    broker_mode = enforce;
    contract_id = some contract_id;
    contract_version = some 1;
    contract_name = none;
    score = none;
    match_channel = none;
    scope = none;
    denials = 0;
    denied_targets = none;
    domains_reached = [];
    delegated_from_agent_id = none;
    delegated_from_agent_name = none;
    delegated_to_agent_id = none;
    delegated_to_agent_name = none;
  });
}
