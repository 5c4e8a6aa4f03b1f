-- ===== src/Agents/Threads.antt =====
-- The threads of an Agent's principals (apps/server/src/agent-service.ts `executeRun`, `resumeThread`).
use Prim.Native.String.{String}
use mathlib.Core.Path.{subst}
use army_of_god.Prelude.{
  ◌≡◌, ◌≢◌, refl, sym, false, Option, some, List, find, ◌==◌, string_eq, put, lookup-put_self,
  lookup-put_other, find-update_first, find→In,
}
use army_of_god.Records.{RouteOutcome}
use army_of_god.Records.Runs.{Agent, AgentRun}
use army_of_god.Runs.{
  Desk, Finish, succeed, succeed_found, answered_agent, next_threads, threads_or,
}
use army_of_god.Agents.{resume_thread, starts_fresh}

next_threads_lem :
    (user thread : String) (id : Option String) (old : Option (List (String × String)))
    → id ≡ some thread
    → (thread == "") ≡ false
    → next_threads user id old ≡ some (put user thread (threads_or old))
next_threads_lem user thread id old e set = rw e (rw set refl)

-- After a run that ended with a thread, a turn of the same principal that no contract is routed to
-- resumes that thread, and where the Agent already kept a thread for each principal, every other
-- principal's turn resumes the thread that it would have resumed before.
pub resume_thread-succeed :
    {F : Type 0} (now : String) (o : Finish) (d : Desk F) (agent : Agent) (run : AgentRun F)
    (thread : String) (decision : Option RouteOutcome)
    → find (λ r. r.id == o.run_id) d.runs ≡ some run
    → find (λ a. a.id == o.agent_id) d.agents ≡ some agent
    → o.thread_id ≡ some thread
    → (thread == "") ≡ false
    → starts_fresh decision ≡ false
    → (next : Agent) × (find (λ a. a.id == o.agent_id) (succeed now o d).agents ≡ some next)
      × (resume_thread next o.user_id decision ≡ some thread)
      × ((other : String) (threads : List (String × String))
          → other ≢ o.user_id
          → agent.codex_threads ≡ some threads
          → resume_thread next other decision ≡ resume_thread agent other decision)
unfolding succeed resume_thread
resume_thread-succeed {F} now o d agent run thread decision has_run has_agent ended thread_set
      resumes =
    let table =
      next_threads_lem o.user_id thread o.thread_id agent.codex_threads ended thread_set in
    let updated =
      find-update_first (λ (a : Agent). a.id == o.agent_id) (answered_agent now o d) d.agents agent
        has_agent (find→In (λ (a : Agent). a.id == o.agent_id) d.agents has_agent).1 in
    (
      answered_agent now o d agent,
      subst
          (λ (r : Option (AgentRun F)).
            find (λ a. a.id == o.agent_id)
              (succeed_found now o d r (find (λ a. a.id == o.agent_id) d.agents)).agents
            ≡ some (answered_agent now o d agent))
          (sym has_run)
          (subst
            (λ (a : Option Agent).
              find (λ a. a.id == o.agent_id) (succeed_found now o d (some run) a).agents
              ≡ some (answered_agent now o d agent))
            (sym has_agent) updated),
      rw (resumes, table)
          (rw (lookup-put_self o.user_id thread (threads_or agent.codex_threads))
            (rw thread_set refl)),
      λ other threads ne kept.
          rw (resumes, table) (rw (kept, lookup-put_other other o.user_id thread threads ne) refl),
    )
