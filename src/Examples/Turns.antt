-- ===== src/Examples/Turns.antt =====
-- Two persons with a run each on one Agent, and a second run of one of them.
use Prim.Native.String.{String}
use army_of_god.Prelude.{ℕ, ◌≡◌, refl, none, some, [], ◌∷◌, arith}
use army_of_god.Store.{ok, err}
use army_of_god.Records.Runs.{AgentStatus, RunStatus, MessageRole, Agent, Message, AgentRun}
use army_of_god.Runs.{Desk, run_in_flight, admit}
use army_of_god.Runs.Open.{IsExclusive, admitted, RunReach, at_once, later, RunReach-IsExclusive}

abbrev the_agent : AgentStatus → String → Agent
the_agent status now = record {
  id = "agent";
  name = [];
  description = [];
  instructions = [];
  status = status;
  workspace_path = "";
  codex_thread_id = none;
  codex_threads = none;
  last_error = none;
  created_at = "t0";
  updated_at = now;
}

abbrev run_of : String → String → AgentRun ℕ
run_of id user = record {
  id = id;
  conversation_agent_id = none;
  agent_id = "agent";
  user_id = some user;
  status = RunStatus.queued;
  prompt = [];
  output = none;
  error = none;
  usage = none;
  started_at = none;
  completed_at = none;
  created_at = "t";
  codify = none;
}

abbrev prompt_of : String → Message
prompt_of id = record {
  id = id;
  agent_id = "agent";
  run_id = id;
  role = MessageRole.user;
  content = [];
  created_at = "t";
  user_id = none;
  executed_by_agent_id = none;
}

abbrev quiet : Desk ℕ
quiet = record { agents = the_agent AgentStatus.ready "t0" ∷ []; runs = []; messages = [] }

abbrev one_run : Desk ℕ
one_run = record {
  agents = the_agent AgentStatus.busy "t1" ∷ [];
  runs = run_of "r" "u" ∷ [];
  messages = prompt_of "r" ∷ [];
}

abbrev two_runs : Desk ℕ
two_runs = record {
  agents = the_agent AgentStatus.busy "t2" ∷ [];
  runs = run_of "r" "u" ∷ run_of "s" "v" ∷ [];
  messages = prompt_of "r" ∷ prompt_of "s" ∷ [];
}

first_admitted : admit "t1" "u" (run_of "r" "u") (prompt_of "r") quiet ≡ ok one_run
unfolding admit
first_admitted = refl

second_admitted : admit "t2" "v" (run_of "s" "v") (prompt_of "s") one_run ≡ ok two_runs
unfolding admit
second_admitted = refl

third_refused : admit "t3" "v" (run_of "q" "v") (prompt_of "q") two_runs ≡ err run_in_flight
unfolding admit
third_refused = refl

quiet-IsExclusive : IsExclusive quiet
quiet-IsExclusive agent user = omega arith

both_reached : RunReach quiet two_runs
both_reached =
    later (later at_once (admitted "t1" "u" (run_of "r" "u") (prompt_of "r") refl first_admitted))
      (admitted "t2" "v" (run_of "s" "v") (prompt_of "s") refl second_admitted)

RunReach-IsExclusive_example : IsExclusive two_runs
RunReach-IsExclusive_example = RunReach-IsExclusive quiet two_runs both_reached quiet-IsExclusive
