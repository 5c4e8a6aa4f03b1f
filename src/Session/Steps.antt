-- ===== src/Session/Steps.antt =====
-- Sessions as a state machine: service.ts `createSession`, then any sequence of claims, settlements
-- and administrative stops. A `Caller` says which claims and settlements are made.
use Prim.Native.String.{String}
use army_of_god.Prelude.{
  ℕ, ◌≡◌, refl, ap, ◌∙◌, inl, inr, false, Option, none, some, List, [], ◌∷◌, arith, length,
  length-update_first, any, nat_beq, all, elem, dedupe, ltb, ◌==◌, if◌then◌else◌, string_eq,
  Bool-cases,
}
use army_of_god.Store.{Result, ok, ◌>>◌, require}
use army_of_god.Planner.{PlannedStep}
use army_of_god.Session.{CoordinationSession, SessionStatus, is_active, should_stop}
use army_of_god.Session.Turns.{
  TurnClaim, claim_session, TurnOutcome, settle_session, stop_session, settled_session,
  close_if_stopped, settle_fields,
}
use army_of_god.Session.Sound.{
  IsSound, claim_session-Claims, claim_session-IsSound, settle_session-IsSound,
  turns-settle_session,
}

pub record SessionInput : Type 0 where
  pub topic : List ℕ
  pub goal : List ℕ
  pub participant_agent_ids : List String
  pub max_turns : ℕ
  pub created_by : String
  pub state : Option (List (String × String))
  pub plan : Option (List PlannedStep)
  pub fallback_agent_id : Option String

pub data CreateError : Type 0 where
  too_few_participants participant_not_found : CreateError

abbrev nonempty_plan : Option (List PlannedStep) → Option (List PlannedStep)
nonempty_plan (some (p ∷ ps)) = some (p ∷ ps)
nonempty_plan _ = none

abbrev nonempty_id : Option String → Option String
nonempty_id none = none
nonempty_id (some v) = if v == "" then none else some v

abbrev state_or : Option (List (String × String)) → List (String × String)
state_or none = []
state_or (some st) = st

-- `createSession`: `agents` are the ids in the store, `id` the new session's.
unfoldable pub create_session :
    String → String → List String → SessionInput → Result CreateError CoordinationSession
create_session now id agents input = do
  let unique = dedupe input.participant_agent_ids
  require (ltb 1 (length unique)) too_few_participants
  require (all (λ p. elem p agents) unique) participant_not_found
  ok (record {
    id = id;
    topic = input.topic;
    goal = input.goal;
    created_by = input.created_by;
    participant_agent_ids = unique;
    plan = nonempty_plan input.plan;
    fallback_agent_id = nonempty_id input.fallback_agent_id;
    turns = [];
    state = state_or input.state;
    max_turns = input.max_turns;
    status = SessionStatus.active;
    stop_reason = none;
    created_at = now;
    updated_at = now;
  })

-- The claims and settlements that a caller makes.
pub record Caller : Type 1 where
  pub claims : CoordinationSession → TurnClaim → Type 0
  pub settles : CoordinationSession → ℕ → Type 0

abbrev pub any_caller : Caller
any_caller = record { claims = λ s c. Unit; settles = λ s i. Unit }

pub data Step (who : Caller) (s s' : CoordinationSession) : Type 0 where
  claim :
      (now : String) (c : TurnClaim)
      → who.claims s c
      → claim_session now c s ≡ ok s'
      → Step who s s'
  settle :
      (now : String) (index : ℕ) (o : TurnOutcome)
      → who.settles s index
      → s' ≡ settle_session now index o s
      → Step who s s'
  halt : (now : String) (reason : List ℕ) → s' ≡ stop_session now reason s → Step who s s'

pub data Reach (who : Caller) (s : CoordinationSession) : CoordinationSession → Type 0 where
  here : Reach who s s
  next : {t u : CoordinationSession} → Reach who s t → Step who t u → Reach who s u

pub Step-IsSound :
    {who : Caller} {s s' : CoordinationSession} → Step who s s' → IsSound s.turns → IsSound s'.turns
unfolding stop_session
Step-IsSound {s} {s'} (claim now c _ h) r = claim_session-IsSound now c s s' h r
Step-IsSound {s} (settle now index o _ e) r = rw e (settle_session-IsSound now index o s r)
Step-IsSound {s} (halt now reason e) r = rw e r

-- A session that `createSession` returns.
pub record IsCreated (s : CoordinationSession) : Type 0 where
  pub now : String
  pub id : String
  pub agents : List String
  pub input : SessionInput
  pub made : create_session now id agents input ≡ ok s

IsSound-nil : IsSound []
IsSound-nil = record { indexed = λ k t h. cc; steps_once = tt; agents_once = tt }

pub no_turns : (s : CoordinationSession) → IsCreated s → s.turns ≡ []
unfolding create_session
no_turns s c = ground (arith, c.made)

-- In every state that a created session reaches, by whatever calls in whatever order, turn `k`
-- carries index `k`, no step of the plan has two turns, and no Agent has two turns in flight.
pub Reach-IsSound :
    (who : Caller) (s t : CoordinationSession) → IsCreated s → Reach who s t → IsSound t.turns
Reach-IsSound who s _ c here = rw (no_turns s c) IsSound-nil
Reach-IsSound who s _ c (next {t} r step) = Step-IsSound step (Reach-IsSound who s t c r)

-- A session that is not active takes no turn and stays inactive.
pub record Frozen (s t : CoordinationSession) : Type 0 where
  pub inactive : is_active t.status ≡ false
  pub turns_kept : length t.turns ≡ length s.turns

settled-Frozen :
    (s : CoordinationSession)
    → is_active s.status ≡ false
    → is_active (close_if_stopped s).status ≡ false
unfolding close_if_stopped should_stop
settled-Frozen s h = rw h h

settle-inactive :
    (now : String) (index : ℕ) (o : TurnOutcome) (s : CoordinationSession)
    → is_active s.status ≡ false
    → is_active (settle_session now index o s).status ≡ false
unfolding settle_session
settle-inactive now index o s h = elim (Bool-cases (any (λ t. nat_beq t.index index) s.turns)) [
  | inl there ↦
      rw there (settled-Frozen (settled_session now index o s) (unfold settled_session in h))
  | inr gone ↦ rw gone h
]

Step-Frozen : {who : Caller} {s t u : CoordinationSession} → Step who t u → Frozen s t → Frozen s u
unfolding stop_session
Step-Frozen {t} {u} (claim now c _ h) f =
    let k = claim_session-Claims now c t u h in cc (k.was_active, f.inactive)
Step-Frozen {t} (settle now index o _ e) f = rw e (record {
  inactive = settle-inactive now index o t f.inactive;
  turns_kept =
      ap length (turns-settle_session now index o t)
      ∙ length-update_first _ (settle_fields now o) t.turns
      ∙ f.turns_kept;
})
Step-Frozen (halt now reason e) f = rw e (record { inactive = refl; turns_kept = f.turns_kept })

-- Once a session is no longer active, whatever is called: no turn is added, and it never becomes
-- active again.
pub Reach-Frozen :
    (who : Caller) (s t : CoordinationSession)
    → is_active s.status ≡ false
    → Reach who s t
    → (is_active t.status ≡ false) × (length t.turns ≡ length s.turns)
Reach-Frozen who s t h r = let f = frozen t r in (f.inactive, f.turns_kept)
  where
    frozen : (u : CoordinationSession) → Reach who s u → Frozen s u
    frozen _ here = record { inactive = h; turns_kept = refl }
    frozen _ (next {t} r' step) = Step-Frozen step (frozen t r')
