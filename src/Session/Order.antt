-- ===== src/Session/Order.antt =====
-- The order of a plan-backed session: claims are made for pending steps (service.ts `planWave`), and
-- a turn is settled while it is in flight (agent-service.ts `runSessionTurn`).
use Prim.Native.String.{String}
use army_of_god.Prelude.{
  ℕ, ◌≤◌, ◌<◌, ◌≡◌, refl, sym, ap, ◌∙◌, inl, inr, Bool, true, false, ◌||◌, not, some, List, [], ◌∷◌,
  ◌++◌, arith, length, all, elem, In, In-filter, In→all, all→In, In-append_split, get_elem?,
  get_elem?→lt, nat_beq, nat_eq, length-append, length-update_first, In→All,
}
use army_of_god.Prelude.Missing.{length-add-missing}
use army_of_god.Planner.{PlannedStep, ready_steps}
use army_of_god.Planner.Ready.{IsReady, ready_steps_iff}
use army_of_god.Session.{
  SessionTurn, is_claimed, is_completed, CoordinationSession, steps_of, completed_steps, plan_steps,
  pending_steps,
}
use army_of_god.Session.Turns.{
  TurnClaim, claimed_turn, push_turn, TurnOutcome, settle_session, settle_fields, stop_session,
}
use army_of_god.Session.Sound.{
  claim_session-Claims, settle_in, turns-settle_session, steps_of-settle,
}
use army_of_god.Session.Steps.{
  Caller, Step, claim, settle, halt, Reach, here, next, IsCreated, no_turns, Reach-IsSound,
}

-- The turns with this index are in flight.
abbrev pub in_flight : ℕ → List SessionTurn → Bool
in_flight index ts = all (λ t. not (nat_beq t.index index) || is_claimed t.status) ts

abbrev pub planned_caller : Caller
planned_caller = record {
  claims = λ s c. (i : ℕ) × (c.step_index ≡ some i) × In i (pending_steps s);
  settles = λ s index. in_flight index s.turns ≡ true;
}

-- What a turn for step `i` of the plan must have waited for.
abbrev pub Released : List PlannedStep → List ℕ → ℕ → Type 0
Released plan completed i =
    (p : PlannedStep) → get_elem? plan i ≡ some p → all (λ d. elem d completed) p.depends_on ≡ true

record IsOrdered (plan : List PlannedStep) (s : CoordinationSession) : Type 0 where
  same_plan : plan_steps s ≡ plan
  released : (i : ℕ) → In i (steps_of s.turns) → Released plan (completed_steps s.turns) i
  bounded : (i : ℕ) → In i (steps_of s.turns) → i < length plan
  stepped : length (steps_of s.turns) ≡ length s.turns

pub all-elem_mono :
    (ds xs ys : List ℕ)
    → ((d : ℕ) → elem d xs ≡ true → elem d ys ≡ true)
    → all (λ d. elem d xs) ds ≡ true
    → all (λ d. elem d ys) ds ≡ true
all-elem_mono ds xs ys sub h =
    In→all (λ d. elem d ys) ds (λ d i. sub d (all→In (λ d. elem d xs) ds h i))

Released-mono :
    (plan : List PlannedStep) (xs ys : List ℕ) (i : ℕ)
    → ((d : ℕ) → elem d xs ≡ true → elem d ys ≡ true)
    → Released plan xs i
    → Released plan ys i
Released-mono plan xs ys i sub r p at = all-elem_mono p.depends_on xs ys sub (r p at)

pub completed_steps-push :
    (ts : List SessionTurn) (t : SessionTurn)
    → is_completed t.status ≡ false
    → completed_steps (ts ++ t ∷ []) ≡ completed_steps ts
completed_steps-push [] t h = ground arith
completed_steps-push (x ∷ ts) t h = ground (arith, completed_steps-push ts t)

-- Settling a turn in flight takes no step out of the completed ones.
pub completed_steps-settle :
    (now : String) (index : ℕ) (o : TurnOutcome) (ts : List SessionTurn) (d : ℕ)
    → in_flight index ts ≡ true
    → elem d (completed_steps ts) ≡ true
    → elem d (completed_steps (settle_in now index o ts)) ≡ true
unfolding settle_fields
completed_steps-settle now index o [] d f h = h
completed_steps-settle now index o (t ∷ ts) d f h =
    ground (arith, completed_steps-settle now index o ts d)

pending-IsReady :
    (s : CoordinationSession) (i : ℕ)
    → In i (pending_steps s)
    → IsReady (plan_steps s) (completed_steps s.turns) i
unfolding pending_steps
pending-IsReady s i h =
    (ready_steps_iff (plan_steps s) (completed_steps s.turns) i).0
      (In-filter (λ j. not (elem j (steps_of s.turns)))
        (ready_steps (plan_steps s) (completed_steps s.turns)) h).0

steps_of-push :
    (ts : List SessionTurn) (t : SessionTurn) (i : ℕ)
    → t.step_index ≡ some i
    → steps_of (ts ++ t ∷ []) ≡ steps_of ts ++ i ∷ []
steps_of-push [] t i h = ground arith
steps_of-push (x ∷ ts) t i h = ground (arith, steps_of-push ts t i)

claim-IsOrdered :
    (plan : List PlannedStep) (now : String) (c : TurnClaim) (s : CoordinationSession) (i : ℕ)
    → c.step_index ≡ some i
    → In i (pending_steps s)
    → IsOrdered plan s
    → IsOrdered plan (push_turn now c s)
claim-IsOrdered plan now c s i at pending o =
    let new = claimed_turn now c (length s.turns) in
    let ready = rw o.same_plan at (pending-IsReady s i pending) in
    let steps = steps_of-push s.turns new i at in
    let done = completed_steps-push s.turns new refl in
    record {
      same_plan = o.same_plan;
      released = λ j h.
          rw done (elim (In-append_split j (steps_of s.turns) (i ∷ []) (rw steps at h)) [
            | inl old ↦ o.released j old
            | inr (inl e) ↦ λ p there.
                let e' : i ≡ j = sym e in
                released_now plan (completed_steps s.turns) i ready p (rw (← e') at there)
            | inr (inr none_left) ↦ absurd none_left
          ]);
      bounded = λ j h. elim (In-append_split j (steps_of s.turns) (i ∷ []) (rw steps at h)) [
        | inl old ↦ o.bounded j old
        | inr (inl e) ↦ rw e (get_elem?→lt plan i ready.at)
        | inr (inr none_left) ↦ absurd none_left
      ];
      stepped = omega (
        arith,
        ap length steps,
        length-append (steps_of s.turns) (i ∷ []),
        length-append s.turns (new ∷ []),
        o.stepped,
      );
    }
  where
    released_now :
        (plan : List PlannedStep) (done : List ℕ) (i : ℕ)
        → IsReady plan done i
        → Released plan done i
    released_now plan done i r p there = ground (arith, r.at, r.can)

settle-IsOrdered :
    (plan : List PlannedStep) (now : String) (index : ℕ) (out : TurnOutcome)
    (s s' : CoordinationSession)
    → in_flight index s.turns ≡ true
    → plan_steps s' ≡ plan_steps s
    → s'.turns ≡ settle_in now index out s.turns
    → IsOrdered plan s
    → IsOrdered plan s'
settle-IsOrdered plan now index out s s' f same turns o =
    let steps = ap steps_of turns ∙ steps_of-settle now index out s.turns in
    record {
      same_plan = same ∙ o.same_plan;
      released = λ i h. rw turns (
          Released-mono plan (completed_steps s.turns)
            (completed_steps (settle_in now index out s.turns)) i
            (λ d. completed_steps-settle now index out s.turns d f) (o.released i (rw steps at h)));
      bounded = λ i h. o.bounded i (rw steps at h);
      stepped = omega (
        arith,
        ap length steps,
        ap length turns,
        length-update_first (λ t. nat_beq t.index index) (settle_fields now out) s.turns,
        o.stepped,
      );
    }

pub plan_steps-settle :
    (now : String) (index : ℕ) (o : TurnOutcome) (s : CoordinationSession)
    → plan_steps (settle_session now index o s) ≡ plan_steps s
unfolding settle_session
plan_steps-settle now index o s = ground arith

Step-IsOrdered :
    {plan : List PlannedStep} {s s' : CoordinationSession}
    → Step planned_caller s s'
    → IsOrdered plan s
    → IsOrdered plan s'
unfolding stop_session
Step-IsOrdered {plan} {s} {s'} (claim now c (i, at, pending) h) o =
    let k = claim_session-Claims now c s s' h in
    rw k.pushed (claim-IsOrdered plan now c s i at pending o)
Step-IsOrdered {plan} {s} {s'} (settle now index out f e) o =
    settle-IsOrdered plan now index out s s' f (ap plan_steps e ∙ plan_steps-settle now index out s)
      (ap (λ x. x.turns) e ∙ turns-settle_session now index out s) o
Step-IsOrdered (halt now reason e) o = rw e (record {
  same_plan = o.same_plan;
  released = o.released;
  bounded = o.bounded;
  stepped = o.stepped;
})

Reach-IsOrdered :
    (s t : CoordinationSession)
    → IsOrdered (plan_steps s) s
    → Reach planned_caller s t
    → IsOrdered (plan_steps s) t
Reach-IsOrdered s _ o here = o
Reach-IsOrdered s _ o (next {t} r step) = Step-IsOrdered step (Reach-IsOrdered s t o r)

start-IsOrdered : (s : CoordinationSession) → IsCreated s → IsOrdered (plan_steps s) s
start-IsOrdered s c =
    let fresh = no_turns s c in
    record {
      same_plan = refl;
      released = λ i h. absurd (rw fresh at h);
      bounded = λ i h. absurd (rw fresh at h);
      stepped = rw fresh refl;
    }

-- In every state that a created session reaches by claims of pending steps, settlements of turns in
-- flight and stops: each step that has a turn had every step it depends on completed, and it still
-- is.
pub turn-waited :
    (s t : CoordinationSession) (i : ℕ)
    → IsCreated s
    → Reach planned_caller s t
    → In i (steps_of t.turns)
    → Released (plan_steps s) (completed_steps t.turns) i
turn-waited s t i c r h = (Reach-IsOrdered s t (start-IsOrdered s c) r).released i h

-- Such a session never has more turns than its plan has steps.
pub length-turns-le-plan :
    (s t : CoordinationSession)
    → IsCreated s
    → Reach planned_caller s t
    → length t.turns ≤ length (plan_steps s)
length-turns-le-plan s t c r =
    let o = Reach-IsOrdered s t (start-IsOrdered s c) r in
    let sound = Reach-IsSound planned_caller s t c r in
    omega (
      arith,
      length-add-missing (length (plan_steps s)) (steps_of t.turns) sound.steps_once
          (In→All (λ i. i < length (plan_steps s)) (steps_of t.turns) o.bounded),
      o.stepped,
    )
