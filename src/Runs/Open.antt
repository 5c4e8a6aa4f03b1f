-- ===== src/Runs/Open.antt =====
-- The open runs of a person on an Agent (agent-service.ts), over any sequence of the mutations.
use Prim.Native.String.{String}
use mathlib.Core.Path.{subst}
use army_of_god.Prelude.{
  ◌+◌, ◌≤◌, ◌≡◌, refl, sym, ap, inl, inr, Bool, true, false, Option, none, some, List, [], ◌∷◌,
  ◌++◌, map, arith, any, find, count_if, update_first, ◌==◌, eq→≡, if◌then◌else◌, string_eq,
  Bool-cases,
}
use army_of_god.Store.{Result, ok, err}
use army_of_god.Records.Runs.{AgentStatus, is_open, Agent, Message, AgentRun}
use army_of_god.Runs.{
  Desk, RunError, is_stopped, same_user, open_for, admit, admit_found, start, Finish, ended_run,
  succeed, succeed_found, fail, reaped, recover, started_run, lost_run, set_status, set_found,
}

module _ {A : Type 0} where
  count_if-concat :
      (q : A → Bool) (xs : List A) (x : A)
      → count_if q (xs ++ x ∷ []) ≡ count_if q xs + (if q x then 1 else 0)
  count_if-concat q [] x = omega arith
  count_if-concat q (y ∷ ys) x = omega (arith, count_if-concat q ys x)

  count_none : (q : A → Bool) (xs : List A) → any q xs ≡ false → count_if q xs ≡ 0
  count_none q [] h = refl
  count_none q (x ∷ xs) h = ground (arith, count_none q xs)

  -- An update that opens nothing.
  count_if-update_first :
      (p q : A → Bool) (f : A → A) (xs : List A)
      → ((x : A) → find p xs ≡ some x → q (f x) ≡ true → q x ≡ true)
      → count_if q (update_first p f xs) ≤ count_if q xs
  count_if-update_first p q f [] h = omega arith
  count_if-update_first p q f (x ∷ xs) h = elim (Bool-cases (p x)) [
    | inl hit ↦ rw hit (ground (arith, h x (rw hit refl)))
    | inr miss ↦
        rw miss (omega (arith, count_if-update_first p q f xs (λ y found. h y (rw miss found))))
  ]

  count_if-map :
      (q : A → Bool) (f : A → A) (xs : List A)
      → ((x : A) → q (f x) ≡ true → q x ≡ true)
      → count_if q (map f xs) ≤ count_if q xs
  count_if-map q f [] h = omega arith
  count_if-map q f (x ∷ xs) h = ground (arith, count_if-map q f xs h, h x)

same_user_is :
    (user : String) (o : Option String) (v : String)
    → o ≡ some v
    → same_user user o ≡ true
    → v ≡ user
same_user_is user none v e h = cc
same_user_is user (some u) v e h = eq→≡ v user (ground (arith, e, h))

module _ {F : Type 0} where
  -- No person has two open runs on one Agent.
  abbrev pub IsExclusive : Desk F → Type 0
  IsExclusive d = (agent user : String) → count_if (open_for agent user) d.runs ≤ 1

  -- The calls of the service. A run is started while it is open, and a run is admitted for its user.
  pub data RunStep (d d' : Desk F) : Type 0 where
    admitted :
        (now user : String) (run : AgentRun F) (message : Message)
        → run.user_id ≡ some user
        → admit now user run message d ≡ ok d'
        → RunStep d d'
    started :
        (now run_id : String)
        → ((r : AgentRun F) → find (λ x. x.id == run_id) d.runs ≡ some r → is_open r.status ≡ true)
        → d' ≡ start now run_id d
        → RunStep d d'
    succeeded : (now : String) (o : Finish) → d' ≡ succeed now o d → RunStep d d'
    failed :
        (now run_id agent_id : String) (was_cancelled : Bool) (text : String)
        → d' ≡ fail now run_id agent_id was_cancelled text d
        → RunStep d d'
    recovered : (now : String) → d' ≡ recover now d → RunStep d d'
    switched :
        (now id : String) (status : AgentStatus) → set_status now id status d ≡ ok d' → RunStep d d'

  pub data RunReach (d : Desk F) : Desk F → Type 0 where
    at_once : RunReach d d
    later : {e e' : Desk F} → RunReach d e → RunStep e e' → RunReach d e'

  -- What an admission checks and does to the runs.
  record IsAdmitted (user : String) (run : AgentRun F) (d d' : Desk F) : Type 0 where
    no_other : any (open_for run.agent_id user) d.runs ≡ false
    added : d'.runs ≡ d.runs ++ run ∷ []

  admit_found-IsAdmitted :
      (now user : String) (run : AgentRun F) (message : Message) (d d' : Desk F)
      (agent : Option Agent)
      → admit_found now user run message d agent ≡ ok d'
      → IsAdmitted user run d d'
  admit_found-IsAdmitted now user run message d d' none h = cc
  admit_found-IsAdmitted now user run message d d' (some agent) h =
      elim (Bool-cases (is_stopped agent.status)) [
        | inl halted ↦ absurd (ok_err d' (rw halted at h))
        | inr runs ↦ elim (Bool-cases (any (open_for run.agent_id user) d.runs)) [
          | inl other ↦ absurd (ok_err d' (rw (runs, other) at h))
          | inr free ↦ record {
            no_other = free;
            added = sym (ap (λ (x : Desk F). x.runs) (same_ok _ d' (rw (runs, free) at h)));
          }
        ]
      ]
    where
      ok_err : {e : RunError} (x : Desk F) → err e ≡ ok x → ⊥
      ok_err x p = cc

      same_ok : (x y : Desk F) → ◌≡◌ {A = Result RunError (Desk F)} (ok x) (ok y) → x ≡ y
      same_ok x y p = cc

  pub admit-runs :
      (now user : String) (run : AgentRun F) (message : Message) (d d' : Desk F)
      → admit now user run message d ≡ ok d'
      → d'.runs ≡ d.runs ++ run ∷ []
  unfolding admit
  admit-runs now user run message d d' h =
      (admit_found-IsAdmitted now user run message d d' _ h).added

  pub admit_free :
      (now user : String) (run : AgentRun F) (message : Message) (d : Desk F) (agent : Agent)
      → find (λ a. a.id == run.agent_id) d.agents ≡ some agent
      → is_stopped agent.status ≡ false
      → any (open_for run.agent_id user) d.runs ≡ false
      → (d' : Desk F) × (admit now user run message d ≡ ok d')
  unfolding admit
  admit_free now user run message d agent there up free =
      rw (there, admit_found, up, free) (_, refl)

  open_parts :
      (agent user : String) (run : AgentRun F)
      → open_for agent user run ≡ true
      → (run.agent_id ≡ agent) × (same_user user run.user_id ≡ true) × (is_open run.status ≡ true)
  open_parts agent user run h =
      (eq→≡ run.agent_id agent (ground (arith, h)), ground (arith, h), ground (arith, h))

  admit-IsExclusive :
      (user : String) (run : AgentRun F) (d d' : Desk F)
      → run.user_id ≡ some user
      → IsAdmitted user run d d'
      → IsExclusive d
      → IsExclusive d'
  admit-IsExclusive user run d d' ours a one agent who =
      let before = one agent who in
      rw (a.added, count_if-concat (open_for agent who) d.runs run)
        (elim (Bool-cases (open_for agent who run)) [
          | inl counts ↦
              let (here, same, live) = open_parts agent who run counts in
              let person = same_user_is who run.user_id user ours same in
              let free : any (open_for agent who) d.runs ≡ false =
                subst (λ u. any (open_for agent u) d.runs ≡ false) person
                  (subst (λ g. any (open_for g user) d.runs ≡ false) here a.no_other) in
              rw counts (omega (arith, count_none (open_for agent who) d.runs free))
          | inr other ↦ rw other (omega arith)
        ])

  succeed_found-le :
      (now agent who : String) (o : Finish) (d : Desk F) (run : Option (AgentRun F))
      (found : Option Agent)
      → count_if (open_for agent who) (succeed_found now o d run found).runs
        ≤ count_if (open_for agent who) d.runs
  succeed_found-le now agent who o d none found = omega arith
  succeed_found-le now agent who o d (some run) none = omega arith
  succeed_found-le now agent who o d (some run) (some a) =
      count_if-update_first (λ r. r.id == o.run_id) (open_for agent who) (ended_run now o) d.runs
        (λ x found h. absurd (closed x h))
    where
      closed : (x : AgentRun F) → open_for agent who (ended_run now o x) ≡ true → ⊥
      closed x h = let (p, q, r) = open_parts agent who (ended_run now o x) h in cc

  set_found-runs :
      (now : String) (status : AgentStatus) (d d' : Desk F) (agent : Option Agent)
      → set_found now status d agent ≡ ok d'
      → d'.runs ≡ d.runs
  set_found-runs now status d d' none h = cc
  set_found-runs now status d d' (some a) h = ground (arith, h)

  RunStep-IsExclusive : (d d' : Desk F) → RunStep d d' → IsExclusive d → IsExclusive d'
  unfolding admit start succeed fail recover set_status
  RunStep-IsExclusive d d' (admitted now user run message ours h) one agent who =
      admit-IsExclusive user run d d' ours (admit_found-IsAdmitted now user run message d d' _ h)
        one agent who
  RunStep-IsExclusive d d' (started now run_id was_open e) one agent who =
      let before = one agent who in
      rw e (
        omega (
          arith,
          count_if-update_first (λ r. r.id == run_id) (open_for agent who) (started_run now) d.runs
              (λ x found h. ground (arith, was_open x found, h)),
        ))
  RunStep-IsExclusive d d' (succeeded now o e) one agent who =
      let before = one agent who in
      let fewer =
        succeed_found-le now agent who o d (find (λ r. r.id == o.run_id) d.runs)
          (find (λ a. a.id == o.agent_id) d.agents) in
      rw e (omega (arith, before, fewer))
  RunStep-IsExclusive d d' (failed now run_id agent_id was_cancelled text e) one agent who =
      let before = one agent who in
      rw e (
        omega (
          arith,
          count_if-update_first (λ r. r.id == run_id) (open_for agent who)
              (lost_run now was_cancelled text) d.runs (λ x found h. ground (arith, h)),
        ))
  RunStep-IsExclusive d d' (recovered now e) one agent who =
      let before = one agent who in
      rw e (
        omega
          (arith, count_if-map (open_for agent who) (reaped now) d.runs (λ x h. ground (arith, h))))
  RunStep-IsExclusive d d' (switched now id status h) one agent who =
      rw (set_found-runs now status d d' (find (λ a. a.id == id) d.agents) h) (one agent who)

  -- Whatever runs are admitted for their user, started while they are open, finished, lost or
  -- reaped, and however Agents are switched, in whatever order: if no person has two open runs on one Agent at first, none ever has.
  pub RunReach-IsExclusive : (d d' : Desk F) → RunReach d d' → IsExclusive d → IsExclusive d'
  RunReach-IsExclusive d _ at_once one = one
  RunReach-IsExclusive d _ (later {e} {e'} r step) one =
      RunStep-IsExclusive e e' step (RunReach-IsExclusive d e r one)
