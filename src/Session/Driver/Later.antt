-- ===== src/Session/Driver/Later.antt =====
-- What the abstract steps of a plan-backed session keep (coordination.ts `claimTurn`, `settleTurn`;
-- service.ts `stopSession`).
use Prim.Native.String.{String}
use army_of_god.Prelude.{
  ℕ, suc, ◌+◌, ◌≤◌, ◌≡◌, refl, ap, ◌∙◌, inl, inr, true, false, not, some, List, [], ◌∷◌, ◌++◌,
  arith, length, elem, get_elem?, In, In-filter, In-filter_intro, nat_beq, nat_eq, string_eq,
  Bool-cases,
}
use army_of_god.Planner.{PlannedStep, ready_steps}
use army_of_god.Planner.Ready.{IsReady, ready_steps_iff, can_start}
use army_of_god.Session.{
  SessionTurn, is_claimed, CoordinationSession, steps_of, completed_steps, plan_steps,
  pending_steps,
}
use army_of_god.Session.Turns.{claimed_turn, TurnOutcome, settle_fields, stop_session}
use army_of_god.Session.Sound.{claim_session-Claims, settle_in, turns-settle_session}
use army_of_god.Session.Steps.{Caller, Step, claim, settle, halt, Reach, here, next}
use army_of_god.Session.Order.{
  planned_caller, in_flight, completed_steps-push, completed_steps-settle, plan_steps-settle,
  all-elem_mono,
}

pub Reach-trans :
    {who : Caller} {s t u : CoordinationSession} → Reach who s t → Reach who t u → Reach who s u
Reach-trans r here = r
Reach-trans r (next q step) = next (Reach-trans r q) step

pub plan_halt :
    (now : String) (reason : List ℕ) (t u : CoordinationSession)
    → u ≡ stop_session now reason t
    → plan_steps u ≡ plan_steps t
unfolding stop_session
plan_halt now reason t u e = ap plan_steps e

pub turns_halt :
    (now : String) (reason : List ℕ) (t u : CoordinationSession)
    → u ≡ stop_session now reason t
    → u.turns ≡ t.turns
unfolding stop_session
turns_halt now reason t u e = ap (λ (x : CoordinationSession). x.turns) e

-- Along the steps, the plan stays and completed steps stay completed.
pub plan_later :
    (s t : CoordinationSession) → Reach planned_caller s t → plan_steps t ≡ plan_steps s
plan_later s _ here = refl
plan_later s _ (next {t} {u} r step) = one step ∙ plan_later s t r
  where
    one : Step planned_caller t u → plan_steps u ≡ plan_steps t
    one (claim now c j h) = ap plan_steps (claim_session-Claims now c t u h).pushed
    one (settle now index o f e) = ap plan_steps e ∙ plan_steps-settle now index o t
    one (halt now reason e) = plan_halt now reason t u e

pub completed_later :
    (s t : CoordinationSession) (d : ℕ)
    → Reach planned_caller s t
    → elem d (completed_steps s.turns) ≡ true
    → elem d (completed_steps t.turns) ≡ true
completed_later s _ d here h = h
completed_later s _ d (next {t} {u} r step) h = one step (completed_later s t d r h)
  where
    one :
        Step planned_caller t u
        → elem d (completed_steps t.turns) ≡ true
        → elem d (completed_steps u.turns) ≡ true
    one (claim now c j g) k =
        let same =
          ap (λ (x : CoordinationSession). completed_steps x.turns)
            (claim_session-Claims now c t u g).pushed
          ∙ completed_steps-push t.turns (claimed_turn now c (length t.turns)) refl in
        rw same k
    one (settle now index o f e) k =
        rw (ap (λ (x : CoordinationSession). x.turns) e ∙ turns-settle_session now index o t)
          (completed_steps-settle now index o t.turns d f k)
    one (halt now reason e) k = rw (turns_halt now reason t u e) k

pub completed_taken :
    (d : ℕ) (ts : List SessionTurn)
    → elem d (completed_steps ts) ≡ true
    → elem d (steps_of ts) ≡ true
completed_taken d [] h = h
completed_taken d (t ∷ ts) h = ground (arith, completed_taken d ts)

-- A step that was pending and has no turn is pending still.
pub pending_later :
    (s t : CoordinationSession) (i : ℕ)
    → Reach planned_caller s t
    → In i (pending_steps s)
    → elem i (steps_of t.turns) ≡ false
    → In i (pending_steps t)
unfolding pending_steps
pending_later s t i r h free =
    let was =
      (ready_steps_iff (plan_steps s) (completed_steps s.turns) i).0
        (In-filter (λ j. not (elem j (steps_of s.turns)))
          (ready_steps (plan_steps s) (completed_steps s.turns)) h).0 in
    let now_ready : IsReady (plan_steps t) (completed_steps t.turns) i = record {
      step = was.step;
      at = rw (plan_later s t r) was.at;
      can = startable was.step was.can;
    } in
    In-filter_intro (λ j. not (elem j (steps_of t.turns)))
      (ready_steps (plan_steps t) (completed_steps t.turns))
      ((ready_steps_iff (plan_steps t) (completed_steps t.turns) i).1 now_ready) (rw free refl)
  where
    not_done : elem i (completed_steps t.turns) ≡ false
    not_done = elim (Bool-cases (elem i (completed_steps t.turns))) [
      | inl done ↦ absurd (cc (free, completed_taken i t.turns done))
      | inr still ↦ still
    ]

    startable :
        (p : PlannedStep)
        → can_start p i (completed_steps s.turns) ≡ true
        → can_start p i (completed_steps t.turns) ≡ true
    startable p h = rw not_done (
        all-elem_mono p.depends_on (completed_steps s.turns) (completed_steps t.turns)
          (λ d k. completed_later s t d r k) (ground (arith, h)))

-- Which turns are in flight after a claim and after another turn's settlement.
pub in_flight-push :
    (j : ℕ) (ts : List SessionTurn) (t : SessionTurn)
    → is_claimed t.status ≡ true
    → in_flight j ts ≡ true
    → in_flight j (ts ++ t ∷ []) ≡ true
in_flight-push j [] t h f = ground arith
in_flight-push j (u ∷ ts) t h f = ground (arith, in_flight-push j ts t h)

pub in_flight-settle :
    (now : String) (k j : ℕ) (o : TurnOutcome) (ts : List SessionTurn)
    → nat_beq j k ≡ false
    → in_flight j ts ≡ true
    → in_flight j (settle_in now k o ts) ≡ true
unfolding settle_fields
in_flight-settle now k j o [] ne f = refl
in_flight-settle now k j o (t ∷ ts) ne f = ground (arith, in_flight-settle now k j o ts ne)

pub in_flight-fresh :
    (m b : ℕ) (ts : List SessionTurn)
    → ((k : ℕ) (t : SessionTurn) → get_elem? ts k ≡ some t → t.index ≡ b + k)
    → b + length ts ≤ m
    → in_flight m ts ≡ true
in_flight-fresh m b [] h le = refl
in_flight-fresh m b (t ∷ ts) h le = ground (
  arith,
  h 0 t refl,
  in_flight-fresh m (suc b) ts (λ k u e. omega (arith, h (suc k) u e)) (omega (arith, le)),
)
