-- ===== src/Session/Ceiling.antt =====
-- The turn ceiling of a goal-driven session: its turns are claimed one at a time.
use Prim.Native.String.{String}
use army_of_god.Prelude.{
  ℕ, ◌≤◌, ◌<◌, ◌≡◌, refl, inl, inr, true, false, none, List, [], ◌∷◌, ◌++◌, arith, length, any, leb,
  leb_false→lt, nat_beq, Bool-cases, length-append, length-update_first,
}
use army_of_god.Session.{
  SessionTurn, is_claimed, CoordinationSession, is_active, should_stop, plan_stop,
}
use army_of_god.Session.Turns.{
  TurnClaim, claimed_turn, push_turn, TurnOutcome, settle_session, settled_session,
  close_if_stopped, settle_fields, stop_session,
}
use army_of_god.Session.Sound.{Claims, claim_session-Claims}
use army_of_god.Session.Steps.{
  Caller, Step, claim, settle, halt, Reach, here, next, IsCreated, no_turns,
}

-- A caller that claims turns of no step.
abbrev pub goal_caller : Caller
goal_caller = record { claims = λ s c. c.step_index ≡ none; settles = λ s i. Unit }

-- Between two turns an active session is below its ceiling.
record IsBounded (max : ℕ) (s : CoordinationSession) : Type 0 where
  same_max : s.max_turns ≡ max
  ceiling : length s.turns ≤ max
  room :
      is_active s.status ≡ true
      → any (λ t. is_claimed t.status) s.turns ≡ false
      → length s.turns < max

any_claimed-concat :
    (ts : List SessionTurn) (t : SessionTurn)
    → is_claimed t.status ≡ true
    → any (λ x. is_claimed x.status) (ts ++ t ∷ []) ≡ true
any_claimed-concat [] t h = ground arith
any_claimed-concat (x ∷ ts) t h = ground (arith, any_claimed-concat ts t h)

claim-IsBounded :
    (max : ℕ) (now : String) (c : TurnClaim) (s s' : CoordinationSession)
    → c.step_index ≡ none
    → Claims now c s s'
    → IsBounded max s
    → IsBounded max (push_turn now c s)
claim-IsBounded max now c s s' goal k b =
    let new = claimed_turn now c (length s.turns) in
    let below = b.room k.was_active (k.alone goal) in
    record {
      same_max = b.same_max;
      ceiling = omega (arith, length-append s.turns (new ∷ []));
      room = λ _ idle. cc (idle, any_claimed-concat s.turns new refl);
    }

-- A session that its stop rules let go on is below its ceiling.
going_on-lt :
    (s : CoordinationSession) → (should_stop s).stop ≡ false → length s.turns < s.max_turns
unfolding should_stop
going_on-lt s h = elim (Bool-cases (leb s.max_turns (length s.turns))) [
  | inl full ↦ ground (arith, full)
  | inr room ↦ leb_false→lt _ _ room
]

plan_stop-inactive :
    (s : CoordinationSession) → (plan_stop s).stop ≡ true → is_active (plan_stop s).status ≡ false
unfolding plan_stop
plan_stop-inactive s h = ground arith

-- A decision to stop names a status that is not active.
stops-inactive :
    (s : CoordinationSession)
    → (should_stop s).stop ≡ true
    → is_active (should_stop s).status ≡ false
unfolding should_stop
stops-inactive s h = ground (arith, plan_stop-inactive s)

close-IsBounded :
    (max : ℕ) (s : CoordinationSession)
    → s.max_turns ≡ max
    → length s.turns ≤ max
    → IsBounded max (close_if_stopped s)
unfolding close_if_stopped
close-IsBounded max s e below = elim (Bool-cases (should_stop s).stop) [
  | inl stops ↦
      rw stops
        (record { same_max = e; ceiling = below; room = λ is _. cc (is, stops-inactive s stops) })
  | inr goes ↦
      rw goes (record { same_max = e; ceiling = below; room = λ _ _. rw e at (going_on-lt s goes) })
]

settle-IsBounded :
    (max : ℕ) (now : String) (index : ℕ) (o : TurnOutcome) (s : CoordinationSession)
    → IsBounded max s
    → IsBounded max (settle_session now index o s)
unfolding settle_session settled_session
settle-IsBounded max now index o s b =
    elim (Bool-cases (any (λ t. nat_beq t.index index) s.turns)) [
      | inl there ↦
          let size =
            length-update_first (λ t. nat_beq t.index index) (settle_fields now o) s.turns in
          rw there (
            close-IsBounded max (settled_session now index o s) b.same_max
              (omega (arith, size, b.ceiling)))
      | inr gone ↦ rw gone b
    ]

Step-IsBounded :
    {max : ℕ} {s s' : CoordinationSession}
    → Step goal_caller s s'
    → IsBounded max s
    → IsBounded max s'
unfolding stop_session
Step-IsBounded {max} {s} {s'} (claim now c goal h) b =
    let k = claim_session-Claims now c s s' h in
    rw k.pushed (claim-IsBounded max now c s s' goal k b)
Step-IsBounded {max} {s} (settle now index o _ e) b = rw e (settle-IsBounded max now index o s b)
Step-IsBounded (halt now reason e) b =
    rw e (record { same_max = b.same_max; ceiling = b.ceiling; room = λ is _. cc })

Reach-IsBounded :
    (s t : CoordinationSession)
    → IsBounded s.max_turns s
    → Reach goal_caller s t
    → IsBounded s.max_turns t
Reach-IsBounded s _ b here = b
Reach-IsBounded s _ b (next {t} r step) = Step-IsBounded step (Reach-IsBounded s t b r)

-- A created session whose turns are claimed for no step never has more turns than its ceiling,
-- however claims, settlements and stops interleave, if the ceiling is at least 1.
pub length-turns-le-max_turns :
    (s t : CoordinationSession)
    → IsCreated s
    → 0 < s.max_turns
    → Reach goal_caller s t
    → length t.turns ≤ s.max_turns
length-turns-le-max_turns s t c positive r =
    let fresh = no_turns s c in
    let start : IsBounded s.max_turns s = record {
      same_max = refl;
      ceiling = rw fresh (omega arith);
      room = λ _ _. rw fresh (omega arith);
    } in
    (Reach-IsBounded s t start r).ceiling
