-- ===== src/Session/Sound.antt =====
-- The turns of a session (coordination.ts): their indices, their steps, and their Agents.
use Prim.Native.String.{String}
use mathlib.Core.List.{append-nil}
use text.Mathlib.TextEquality.{eq_iff}
use army_of_god.Prelude.{
  ℕ, ◌≡◌, refl, sym, ◌∙◌, inl, inr, true, false, Option, none, some, List, [], ◌∷◌, ◌++◌, arith,
  length, get_elem?, get_elem?-concat, get_elem?-update_first, any, elem, IsDistinct,
  IsDistinct-append, update_first, update_first_none, if◌then◌else◌, nat_beq, nat_eq, string_eq,
  Bool-cases,
}
use army_of_god.Store.{ok}
use army_of_god.Session.{SessionTurn, is_claimed, CoordinationSession, is_active, steps_of}
use army_of_god.Session.Turns.{
  TurnClaim, claim_session, claimed_turn, push_turn, holds_claim, TurnOutcome, settle_session,
  settled_session, close_if_stopped, settle_fields,
}

-- The Agents whose turn is in flight.
abbrev pub claimed_agents : List SessionTurn → List String
claimed_agents [] = []
claimed_agents (t ∷ ts) =
    if is_claimed t.status then t.agent_id ∷ claimed_agents ts else claimed_agents ts

pub record IsSound (ts : List SessionTurn) : Type 0 where
  pub indexed : (k : ℕ) (t : SessionTurn) → get_elem? ts k ≡ some t → t.index ≡ k
  pub steps_once : IsDistinct (steps_of ts)
  pub agents_once : IsDistinct (claimed_agents ts)

steps_of-append : (ts us : List SessionTurn) → steps_of (ts ++ us) ≡ steps_of ts ++ steps_of us
steps_of-append [] us = refl
steps_of-append (t ∷ ts) us = ground (arith, steps_of-append ts us)

claimed_agents-append :
    (ts us : List SessionTurn) → claimed_agents (ts ++ us) ≡ claimed_agents ts ++ claimed_agents us
claimed_agents-append [] us = refl
claimed_agents-append (t ∷ ts) us = ground (arith, claimed_agents-append ts us)

-- What a successful claim has checked.
pub record Claims (now : String) (c : TurnClaim) (s s' : CoordinationSession) : Type 0 where
  pub was_active : is_active s.status ≡ true
  pub step_free : (i : ℕ) → c.step_index ≡ some i → elem i (steps_of s.turns) ≡ false
  pub alone : c.step_index ≡ none → any (λ t. is_claimed t.status) s.turns ≡ false
  pub agent_free : holds_claim c.agent_id s.turns ≡ false
  pub pushed : s' ≡ push_turn now c s

no_claim_of_none :
    (agent : String) (ts : List SessionTurn)
    → any (λ t. is_claimed t.status) ts ≡ false
    → holds_claim agent ts ≡ false
no_claim_of_none agent [] h = refl
no_claim_of_none agent (t ∷ ts) h = ground (arith, no_claim_of_none agent ts)

pub claim_session-Claims :
    (now : String) (c : TurnClaim) (s s' : CoordinationSession)
    → claim_session now c s ≡ ok s'
    → Claims now c s s'
unfolding claim_session
claim_session-Claims now c s s' h = cases c.step_index refl
  where
    cases : (o : Option ℕ) → c.step_index ≡ o → Claims now c s s'
    cases none e = record {
      was_active = ground arith;
      step_free = λ i f. cc;
      alone = λ _. ground arith;
      agent_free = no_claim_of_none c.agent_id s.turns (ground arith);
      pushed = ground arith;
    }
    cases (some i) e = record {
      was_active = ground arith;
      step_free = λ j f. ground arith;
      alone = λ f. cc;
      agent_free = ground arith;
      pushed = ground arith;
    }

holds_claim-elem :
    (agent : String) (ts : List SessionTurn) → holds_claim agent ts ≡ elem agent (claimed_agents ts)
holds_claim-elem agent [] = refl
holds_claim-elem agent (t ∷ ts) =
    ground (arith, holds_claim-elem agent ts, eq_iff t.agent_id agent, eq_iff agent t.agent_id)

one_step_fresh :
    (o : Option ℕ) (t : SessionTurn) (ts : List SessionTurn)
    → t.step_index ≡ o
    → ((i : ℕ) → o ≡ some i → elem i (steps_of ts) ≡ false)
    → IsDistinct (steps_of ts)
    → IsDistinct (steps_of ts ++ steps_of (t ∷ []))
one_step_fresh none t ts e fresh d = rw (e, append-nil) d
one_step_fresh (some i) t ts e fresh d = rw e (
    IsDistinct-append (steps_of ts) (i ∷ []) d (refl, tt)
      (λ a h. elim h [ inl p ↦ rw p (fresh i refl) | inr q ↦ absurd q ]))

-- A claim adds a turn that fits.
push-IsSound :
    (now : String) (c : TurnClaim) (s s' : CoordinationSession)
    → Claims now c s s'
    → IsSound s.turns
    → IsSound (push_turn now c s).turns
push-IsSound now c s s' k r =
    let new = claimed_turn now c (length s.turns) in
    record {
      indexed = λ i t h. elim (get_elem?-concat s.turns new i t h) [
        | inl old ↦ r.indexed i t old
        | inr (at, fresh) ↦ rw (at, fresh) refl
      ];
      steps_once =
          rw (steps_of-append s.turns (new ∷ []))
            (one_step_fresh c.step_index new s.turns refl k.step_free r.steps_once);
      agents_once = rw (claimed_agents-append s.turns (new ∷ [])) (
          IsDistinct-append (claimed_agents s.turns) (c.agent_id ∷ []) r.agents_once (refl, tt)
            (λ a h. elim h [
              | inl p ↦ rw p (sym (holds_claim-elem c.agent_id s.turns) ∙ k.agent_free)
              | inr q ↦ absurd q
            ]));
    }

-- Settling a turn.
abbrev pub settle_in : String → ℕ → TurnOutcome → List SessionTurn → List SessionTurn
settle_in now index o ts = update_first (λ t. nat_beq t.index index) (settle_fields now o) ts

pub steps_of-settle :
    (now : String) (index : ℕ) (o : TurnOutcome) (ts : List SessionTurn)
    → steps_of (settle_in now index o ts) ≡ steps_of ts
unfolding settle_fields
steps_of-settle now index o [] = refl
steps_of-settle now index o (t ∷ ts) = ground (arith, steps_of-settle now index o ts)

elem-settle :
    (now : String) (index : ℕ) (o : TurnOutcome) (ts : List SessionTurn) (a : String)
    → elem a (claimed_agents ts) ≡ false
    → elem a (claimed_agents (settle_in now index o ts)) ≡ false
unfolding settle_fields
elem-settle now index o [] a h = refl
elem-settle now index o (t ∷ ts) a h = ground (arith, elem-settle now index o ts a)

claimed_agents-settle-IsDistinct :
    (now : String) (index : ℕ) (o : TurnOutcome) (ts : List SessionTurn)
    → IsDistinct (claimed_agents ts)
    → IsDistinct (claimed_agents (settle_in now index o ts))
unfolding settle_fields
claimed_agents-settle-IsDistinct now index o [] d = tt
claimed_agents-settle-IsDistinct now index o (t ∷ ts) d =
    ground (
      arith,
      claimed_agents-settle-IsDistinct now index o ts,
      elem-settle now index o ts t.agent_id,
    )

settle_in-IsSound :
    (now : String) (index : ℕ) (o : TurnOutcome) (ts : List SessionTurn)
    → IsSound ts
    → IsSound (settle_in now index o ts)
unfolding settle_fields
settle_in-IsSound now index o ts r = record {
  indexed = λ k t h.
      let (x, at, same) =
        get_elem?-update_first (λ t. nat_beq t.index index) (settle_fields now o) ts k t h in
      let old = r.indexed k x at in elim same [ inl e ↦ rw e old | inr (hit, e) ↦ rw e old ];
  steps_once = rw (steps_of-settle now index o ts) r.steps_once;
  agents_once = claimed_agents-settle-IsDistinct now index o ts r.agents_once;
}

pub claim_session-IsSound :
    (now : String) (c : TurnClaim) (s s' : CoordinationSession)
    → claim_session now c s ≡ ok s'
    → IsSound s.turns
    → IsSound s'.turns
claim_session-IsSound now c s s' h r =
    let k = claim_session-Claims now c s s' h in rw k.pushed (push-IsSound now c s s' k r)

turns-close_if_stopped : (s : CoordinationSession) → (close_if_stopped s).turns ≡ s.turns
unfolding close_if_stopped
turns-close_if_stopped s = ground arith

pub turns-settle_session :
    (now : String) (index : ℕ) (o : TurnOutcome) (s : CoordinationSession)
    → (settle_session now index o s).turns ≡ settle_in now index o s.turns
unfolding settle_session
turns-settle_session now index o s = elim (Bool-cases (any (λ t. nat_beq t.index index) s.turns)) [
  | inl there ↦ rw there (turns-close_if_stopped (settled_session now index o s))
  | inr gone ↦ rw gone (sym (update_first_none _ (settle_fields now o) s.turns gone))
]

pub settle_session-IsSound :
    (now : String) (index : ℕ) (o : TurnOutcome) (s : CoordinationSession)
    → IsSound s.turns
    → IsSound (settle_session now index o s).turns
settle_session-IsSound now index o s r =
    rw turns-settle_session (settle_in-IsSound now index o s.turns r)
