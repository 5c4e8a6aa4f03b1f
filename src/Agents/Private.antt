-- ===== src/Agents/Private.antt =====
-- `resetSession` and `getMessages` of apps/server/src/agent-service.ts.
use Prim.Native.String.{String}
use mathlib.Core.Path.{subst}
use army_of_god.Prelude.{
  ℕ, ◌+◌, ◌-◌, ◌≤◌, ◌≡◌, ◌≢◌, refl, ap, ◌∙◌, Bool, true, false, not, ◌&&◌, Option, none, some, List,
  [], ◌∷◌, arith, length, filter, find, In, In-filter, ◌==◌, eq→≡, eq_self, string_eq, Bool-cases,
  Option-cases, inl, inr, lookup, find-update_first, find→In,
}
use army_of_god.Store.{ok, ◌>>=◌, require, bind_ok}
use army_of_god.Records.{RouteOutcome}
use army_of_god.Records.Runs.{Agent, Message}
use army_of_god.Runs.{Desk, is_busy, on_agent}
use army_of_god.Agents.{
  agent_busy, get_agent, get_messages, may_see, stamped, without_thread, reset_session,
  resume_thread, starts_fresh,
}

length-filter-le : {A : Type 0} (p : A → Bool) (xs : List A) → length (filter p xs) ≤ length xs
length-filter-le p [] = omega arith
length-filter-le p (x ∷ xs) = ground (arith, length-filter-le p xs)

-- A filter that drops nothing which another one keeps.
filter-filter :
    {A : Type 0} (p q : A → Bool) (xs : List A)
    → ((x : A) → p x ≡ true → q x ≡ true)
    → filter p (filter q xs) ≡ filter p xs
filter-filter p q [] h = refl
filter-filter p q (x ∷ xs) h = elim (Bool-cases (q x)) [
  | inl kept ↦ rw kept (elim (Bool-cases (p x)) [
    | inl fits ↦ rw fits (ap (λ ys. x ∷ ys) (filter-filter p q xs h))
    | inr misses ↦ rw misses (filter-filter p q xs h)
  ])
  | inr dropped ↦ elim (Bool-cases (p x)) [
    | inl fits ↦ absurd (cc (dropped, h x fits))
    | inr misses ↦ rw (dropped, misses) (filter-filter p q xs h)
  ]
]

-- What another principal sees is not what the reset clears.
others_unstamped :
    (agent_id user other b : String) (m : Message)
    → other ≢ user
    → (m.agent_id == b && may_see (some other) m.user_id) ≡ true
    → not (stamped agent_id user m) ≡ true
others_unstamped agent_id user other b m ne h = elim (Option-cases m.user_id) [
  | inl e ↦ rw e (ground arith)
  | inr (owner, e) ↦
      let sees : (owner == other) ≡ true = ground (arith, rw e at h) in
      elim (Bool-cases (owner == user)) [
        | inl same ↦ absurd (ne (cc (eq→≡ owner user same, eq→≡ owner other sees)))
        | inr apart ↦ rw e (rw apart (ground arith))
      ]
]

without_thread_id : (user : String) (a : Agent) → (without_thread user a).id ≡ a.id
without_thread_id user a = elim (Option-cases a.codex_threads) [
  | inl e ↦ rw e refl
  | inr (threads, e) ↦ rw e refl
]

-- The Agent that a reset changes is found where it was found.
found_alike :
    {B : Type 0} (b id : String) (f : Agent → Agent) (r : B) (agents : List Agent)
    → ((a : Agent) → (f a).id ≡ a.id)
    → (get_agent b (on_agent id f agents) >>= λ a. ok r) ≡ (get_agent b agents >>= λ a. ok r)
found_alike b id f r [] same = refl
found_alike b id f r (a ∷ agents) same = elim (Bool-cases (a.id == b)) [
  | inl here ↦ elim (Bool-cases (a.id == id)) [
    | inl hit ↦ rw (get_agent, hit, same a, here) refl
    | inr miss ↦ rw (get_agent, miss, here) refl
  ]
  | inr there ↦ elim (Bool-cases (a.id == id)) [
    | inl hit ↦ rw (get_agent, hit, same a, there) refl
    | inr miss ↦ rw (get_agent, miss, there) (found_alike b id f r agents same)
  ]
]

lookup-without_self :
    (user : String) (m : List (String × String))
    → lookup user (filter (λ p. not (p.0 == user)) m) ≡ none
lookup-without_self user [] = refl
lookup-without_self user ((k, t) ∷ m) = elim (Bool-cases (k == user)) [
  | inl hit ↦ rw hit (lookup-without_self user m)
  | inr miss ↦ elim (Bool-cases (user == k)) [
    | inl back ↦ absurd (cc (miss, eq→≡ user k back, eq_self k))
    | inr apart ↦ rw miss (rw apart (lookup-without_self user m))
  ]
]

lookup-without_other :
    (other user : String) (m : List (String × String))
    → other ≢ user
    → lookup other (filter (λ p. not (p.0 == user)) m) ≡ lookup other m
lookup-without_other other user [] ne = refl
lookup-without_other other user ((k, t) ∷ m) ne = elim (Bool-cases (k == user)) [
  | inl hit ↦ elim (Bool-cases (other == k)) [
    | inl same ↦ absurd (ne (cc (eq→≡ k user hit, eq→≡ other k same)))
    | inr apart ↦ rw hit (rw apart (lookup-without_other other user m ne))
  ]
  | inr miss ↦ rw miss (elim (Bool-cases (other == k)) [
    | inl same ↦ rw same refl
    | inr apart ↦ rw apart (lookup-without_other other user m ne)
  ])
]

resume-without_self :
    (user : String) (a : Agent) (decision : Option RouteOutcome)
    → resume_thread (without_thread user a) user decision ≡ none
unfolding resume_thread
resume-without_self user a decision = elim (Bool-cases (starts_fresh decision)) [
  | inl fresh ↦ rw fresh refl
  | inr resumes ↦ rw resumes (elim (Option-cases a.codex_threads) [
    | inl e ↦ rw e refl
    | inr (threads, e) ↦ rw e (rw (lookup-without_self user threads) refl)
  ])
]

resume-without_other :
    (other user : String) (a : Agent) (threads : List (String × String))
    (decision : Option RouteOutcome)
    → other ≢ user
    → a.codex_threads ≡ some threads
    → resume_thread (without_thread user a) other decision ≡ resume_thread a other decision
unfolding resume_thread
resume-without_other other user a threads decision ne e =
    rw e (rw (lookup-without_other other user threads ne) refl)

got :
    (id : String) (a : Agent) (agents : List Agent)
    → get_agent id agents ≡ ok a
    → find (λ x. x.id == id) agents ≡ some a
got id a agents h = elim (Option-cases (find (λ x. x.id == id) agents)) [
  | inl e ↦ absurd (cc (rw (get_agent, e) at h))
  | inr (x, e) ↦ e ∙ ap some (cc (rw (get_agent, e) at h))
]

filter_drops :
    (agent_id user : String) (m : Message) (ms : List Message)
    → In m (filter (λ x. not (stamped agent_id user x)) ms)
    → stamped agent_id user m ≡ false
filter_drops agent_id user m ms i =
    ground (arith, (In-filter (λ x. not (stamped agent_id user x)) ms i).1)

module _ {F : Type 0} (not_after : String → String → Bool) (agent_id user : String) where
  -- The store before and after a reset, for every principal.
  pub record IsReset (d d' : Desk F) (cleared : ℕ) : Type 0 where
    pub transcripts :
        (other b : String)
        → other ≢ user
        → get_messages not_after b (some other) d'.agents d'.messages
          ≡ get_messages not_after b (some other) d.agents d.messages
    pub gone : (m : Message) → In m d'.messages → stamped agent_id user m ≡ false
    pub counted : cleared + length d'.messages ≡ length d.messages
    pub threads :
        (before : Agent) × (after : Agent) × (find (λ a. a.id == agent_id) d.agents ≡ some before)
        × (find (λ a. a.id == agent_id) d'.agents ≡ some after)
        × ((decision : Option RouteOutcome) → resume_thread after user decision ≡ none)
        × ((other : String) (threads : List (String × String)) (decision : Option RouteOutcome)
            → other ≢ user
            → before.codex_threads ≡ some threads
            → resume_thread after other decision ≡ resume_thread before other decision)

  abbrev reset_desk : Desk F → Desk F
  reset_desk d = record d {
    agents = on_agent agent_id (without_thread user) d.agents;
    messages = filter (λ m. not (stamped agent_id user m)) d.messages;
  }

  reset_desk-IsReset :
      (d : Desk F) (before : Agent)
      → find (λ a. a.id == agent_id) d.agents ≡ some before
      → IsReset d (reset_desk d) (length d.messages - length (reset_desk d).messages)
  unfolding get_messages
  reset_desk-IsReset d before found = record {
    transcripts = λ other b ne.
        rw
          (filter-filter (λ m. m.agent_id == b && may_see (some other) m.user_id)
            (λ m. not (stamped agent_id user m)) d.messages
            (λ m h. others_unstamped agent_id user other b m ne h))
          (found_alike b agent_id (without_thread user) _ d.agents (without_thread_id user));
    gone = λ m i. filter_drops agent_id user m d.messages i;
    counted = omega (arith, length-filter-le (λ m. not (stamped agent_id user m)) d.messages);
    threads = (
      before,
      without_thread user before,
      found,
      find-update_first (λ (a : Agent). a.id == agent_id) (without_thread user) d.agents before
          found
          (rw (without_thread_id user before)
            (find→In (λ (a : Agent). a.id == agent_id) d.agents found).1),
      resume-without_self user before,
      λ other threads decision ne e. resume-without_other other user before threads decision ne e,
    );
  }

  -- Where `resetSession` resets a principal's conversation with an Agent: no other principal's
  -- transcript changes, on any Agent; no message with the principal's stamp is left on this Agent,
  -- and the count is that of the messages cleared; the principal's next turn resumes no thread; and
  -- every other principal's turn resumes what it would have resumed, where the Agent keeps a thread
  -- for each principal.
  pub reset_session-IsReset :
      (seen : List Agent) (d d' : Desk F) (cleared : ℕ)
      → reset_session agent_id user seen d ≡ ok (cleared, d')
      → IsReset d d' cleared
  unfolding reset_session
  reset_session-IsReset seen d d' cleared h =
      let (a, seen_there, h1) = bind_ok (get_agent agent_id seen) _ (cleared, d') h in
      let (u, idle, h2) =
        bind_ok (require (not (is_busy a.status)) agent_busy) _ (cleared, d') h1 in
      let (before, there, h3) = bind_ok (get_agent agent_id d.agents) _ (cleared, d') h2 in
      let same : (length d.messages - length (reset_desk d).messages, reset_desk d)
          ≡ (cleared, d') =
        cc in
      subst (λ (x : ℕ × Desk F). IsReset d x.1 x.0) same
        (reset_desk-IsReset d before (got agent_id before d.agents there))
