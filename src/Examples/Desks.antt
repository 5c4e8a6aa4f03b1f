-- ===== src/Examples/Desks.antt =====
-- An Agent with the threads of two principals: a turn, a reset and a deletion.
use Prim.Native.String.{String}
use army_of_god.Prelude.{
  ℕ, ◌≡◌, ◌≢◌, refl, Bool, true, none, some, List, [], ◌∷◌, find, ◌==◌, string_eq, sort_by,
}
use army_of_god.Store.{ok}
use army_of_god.Records.{active, deprecated}
use army_of_god.Records.Runs.{Agent, AgentStatus, ready, busy, Message, user, AgentRun, running}
use army_of_god.Runs.{Desk, Finish, succeed}
use army_of_god.Agents.{resume_thread, reset_session, delete_agent, get_messages}
use army_of_god.Agents.Threads.{resume_thread-succeed}
use army_of_god.Agents.Private.{IsReset, reset_session-IsReset}
use army_of_god.Agents.Deleted.{IsDeleted, delete_agent-IsDeleted}
use army_of_god.Examples.Records.{contract_named}

abbrev pub in_order : String → String → Bool
in_order a b = true

abbrev pub shared : AgentStatus → Agent
shared status = record {
  id = "agent";
  name = [];
  description = [];
  instructions = [];
  status = status;
  workspace_path = "";
  codex_thread_id = none;
  codex_threads = some (("u", "thread1") ∷ ("v", "thread2") ∷ []);
  last_error = none;
  created_at = "t0";
  updated_at = "t0";
}

abbrev the_run : AgentRun ℕ
the_run = record {
  id = "r";
  conversation_agent_id = none;
  agent_id = "agent";
  user_id = some "u";
  status = running;
  prompt = [];
  output = none;
  error = none;
  usage = none;
  started_at = none;
  completed_at = none;
  created_at = "t";
  codify = none;
}

abbrev pub said : String → Message
said who = record {
  id = "m";
  agent_id = "agent";
  run_id = "r";
  role = user;
  content = [];
  created_at = "t";
  user_id = some who;
  executed_by_agent_id = none;
}

abbrev desk : AgentStatus → Desk ℕ
desk status = record {
  agents = shared status ∷ [];
  runs = the_run ∷ [];
  messages = said "u" ∷ said "v" ∷ [];
}

abbrev finish : Finish
finish = record {
  run_id = "r";
  agent_id = "agent";
  user_id = "u";
  conversation_agent_id = "agent";
  message_id = "m2";
  output = [];
  usage = none;
  thread_id = some "thread3";
}

resume_thread-succeed_example :
    (next : Agent) × (find (λ a. a.id == "agent") (succeed "t1" finish (desk busy)).agents
      ≡ some next)
    × (resume_thread next "u" none ≡ some "thread3")
    × ((other : String) (threads : List (String × String))
        → other ≢ "u"
        → (shared busy).codex_threads ≡ some threads
        → resume_thread next other none ≡ resume_thread (shared busy) other none)
resume_thread-succeed_example =
    resume_thread-succeed "t1" finish (desk busy) (shared busy) the_run "thread3" none refl refl
      refl refl refl

abbrev after_reset : Desk ℕ
after_reset = record (desk ready) {
  agents = record (shared ready) { codex_threads = some (("v", "thread2") ∷ []) } ∷ [];
  messages = said "v" ∷ [];
}

was_reset : reset_session "agent" "u" (shared ready ∷ []) (desk ready) ≡ ok (1, after_reset)
unfolding reset_session
was_reset = refl

reset_session-IsReset_example : IsReset in_order "agent" "u" (desk ready) after_reset 1
reset_session-IsReset_example =
    reset_session-IsReset in_order "agent" "u" (shared ready ∷ []) (desk ready) after_reset 1
      was_reset

abbrev empty_desk : Desk ℕ
empty_desk = record { agents = []; runs = []; messages = [] }

was_deleted :
    delete_agent "agent"
      (shared ready ∷ [])
      (desk ready, contract_named "v1" "agent" none active ∷ [])
    ≡ ok (empty_desk, contract_named "v1" "agent" none deprecated ∷ [])
unfolding delete_agent
was_deleted = refl

delete_agent-IsDeleted_example :
    IsDeleted "agent"
      (desk ready)
      empty_desk
      (contract_named "v1" "agent" none active ∷ [])
      (contract_named "v1" "agent" none deprecated ∷ [])
delete_agent-IsDeleted_example =
    delete_agent-IsDeleted "agent" (shared ready ∷ []) (desk ready) empty_desk
      (contract_named "v1" "agent" none active ∷ [])
      (contract_named "v1" "agent" none deprecated ∷ []) was_deleted

one_transcript :
    get_messages in_order "agent" (some "v") (desk ready).agents (desk ready).messages
    ≡ ok (said "v" ∷ [])
unfolding get_messages sort_by
one_transcript = refl
