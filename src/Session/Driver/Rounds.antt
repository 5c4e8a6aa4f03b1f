-- ===== src/Session/Driver/Rounds.antt =====
-- The loop of `runSessionToCompletion` (apps/server/src/agent-service.ts).
use army_of_god.Prelude.{
  ℕ, zero, suc, ◌+◌, ◌<◌, ◌≤◌, ◌≡◌, refl, ap, ◌∙◌, ◌⊎◌, inl, inr, Bool, true, false, Option, List,
  [], ◌∷◌, arith, length, nat_beq, Bool-cases, length-append, length-update_first,
}
use army_of_god.Text.{Text}
use army_of_god.Records.Runs.{Agent}
use army_of_god.Planner.{PlannedStep}
use army_of_god.Session.{CoordinationSession, is_active, plan_steps}
use army_of_god.Session.Turns.{claimed_turn, settle_fields}
use army_of_god.Session.Sound.{claim_session-Claims, turns-settle_session}
use army_of_god.Session.Steps.{Step, claim, settle, halt, Reach, here, next, IsCreated}
use army_of_god.Session.Order.{planned_caller, length-turns-le-plan}
use army_of_god.Session.Selection.{SelectionResult, SelectionReason}
use army_of_god.Session.Driver.{
  Event, LoopEnd, broke_off, rejected, advance_session, round_ended, rounds,
  run_session_to_completion,
}
use army_of_god.Session.Driver.Later.{Reach-trans, plan_later, turns_halt}
use army_of_god.Session.Driver.Waves.{advance_session-Reach}

-- Along the steps, turns are only added.
length-turns_later :
    (s t : CoordinationSession) → Reach planned_caller s t → length s.turns ≤ length t.turns
length-turns_later s _ here = omega arith
length-turns_later s _ (next {t} {u} r step) = omega (arith, length-turns_later s t r, one step)
  where
    one : Step planned_caller t u → length t.turns ≤ length u.turns
    one (claim now c j h) = omega (
      arith,
      ap (λ (x : CoordinationSession). length x.turns) (claim_session-Claims now c t u h).pushed,
      length-append t.turns (claimed_turn now c (length t.turns) ∷ []),
    )
    one (settle now index o f e) = omega (
      arith,
      ap (λ (x : CoordinationSession). length x.turns) e,
      ap length (turns-settle_session now index o t),
      length-update_first (λ x. nat_beq x.index index) (settle_fields now o) t.turns,
    )
    one (halt now reason e) = omega (arith, ap length (turns_halt now reason t u e))

module _ {F : Type 0} (sentence : SelectionReason F → Text) (agents : List Agent)
    (select : CoordinationSession → Text → Option (SelectionResult F)) where
  -- The session at the end: it is not active, or a whole round of it added no turn.
  abbrev pub IsDone : (ℕ → List Event) → CoordinationSession → CoordinationSession → Type 0
  IsDone schedule root t =
      (is_active t.status ≡ false)
      ⊎ ((u : CoordinationSession) × (k : ℕ) × Reach planned_caller root u
          × (t ≡ (advance_session sentence agents select (schedule k) u).session)
          × (length t.turns ≡ length u.turns))

  module _ (root : CoordinationSession) (created : IsCreated root) (p : PlannedStep)
      (ps : List PlannedStep) (planned : plan_steps root ≡ p ∷ ps) (schedule : ℕ → List Event) where
    -- The loop broke off where the session was done, or an Agent that a turn was for is gone.
    IsEnd : LoopEnd × CoordinationSession → Type 0
    IsEnd o =
        Reach planned_caller root o.1
        × (((o.0 ≡ broke_off) × IsDone schedule root o.1) ⊎ (o.0 ≡ rejected))

    round-IsEnd :
        (s after : CoordinationSession) (k : ℕ) (b : Bool) (rest : LoopEnd × CoordinationSession)
        → Reach planned_caller root s
        → Reach planned_caller s after
        → after ≡ (advance_session sentence agents select (schedule k) s).session
        → round_ended sentence agents select s after ≡ b
        → (length s.turns < length after.turns → IsEnd rest)
        → IsEnd (elim b [ true ↦ (broke_off, after) | false ↦ rest ])
    unfolding IsEnd
    round-IsEnd s after k true rest r q same e later = (
      Reach-trans r q,
      inl (
        refl,
        elim (Bool-cases (is_active after.status)) [
          | inl alive ↦ inr (s, k, r, same, ground (arith, e, alive))
          | inr over ↦ inl over
        ],
      ),
    )
    round-IsEnd s after k false rest r q same e later =
        later (ground (arith, e, length-turns_later s after q))

    thrown-IsEnd :
        (b : Bool) (s : CoordinationSession) (rest : LoopEnd × CoordinationSession)
        → Reach planned_caller root s
        → IsEnd rest
        → IsEnd (elim b [ true ↦ (rejected, s) | false ↦ rest ])
    unfolding IsEnd
    thrown-IsEnd true s rest r e = (r, inr refl)
    thrown-IsEnd false s rest r e = e

    rounds-IsEnd :
        (fuel k : ℕ) (s : CoordinationSession)
        → Reach planned_caller root s
        → length (plan_steps root) < length s.turns + fuel
        → IsEnd (rounds sentence agents select schedule k fuel s)
    unfolding rounds
    rounds-IsEnd zero k s r enough =
        absurd (omega (arith, enough, length-turns-le-plan root s created r))
    rounds-IsEnd (suc fuel) k s r enough =
        let w = advance_session sentence agents select (schedule k) s in
        let q =
          advance_session-Reach root s created r sentence agents select p ps
            (plan_later root s r ∙ planned) (schedule k) in
        thrown-IsEnd w.thrown w.session _ (Reach-trans r q) (
          round-IsEnd s w.session k (round_ended sentence agents select s w.session)
            (rounds sentence agents select schedule (suc k) fuel w.session) r q refl refl
            (λ more.
              rounds-IsEnd fuel (suc k) w.session (Reach-trans r q) (omega (arith, enough, more))))

    -- Where the plan is no longer than the session's ceiling, `runSessionToCompletion` on a
    -- plan-backed session never runs out of rounds, however the calls of each round interleave: it
    -- ends by its break, when the session is not active or a whole round added no turn, or it rejects
    -- because an Agent that a turn was for is gone. What it did is a sequence of the abstract steps.
    pub run_session_to_completion-IsDone :
        (s : CoordinationSession)
        → Reach planned_caller root s
        → length (plan_steps root) ≤ s.max_turns
        → Reach planned_caller root (run_session_to_completion sentence agents select schedule s).1
          × ((((run_session_to_completion sentence agents select schedule s).0 ≡ broke_off)
                × IsDone schedule root
                    (run_session_to_completion sentence agents select schedule s).1)
              ⊎ ((run_session_to_completion sentence agents select schedule s).0 ≡ rejected))
    unfolding run_session_to_completion IsEnd
    run_session_to_completion-IsDone s r fits =
        rounds-IsEnd (suc s.max_turns) 0 s r (omega (arith, fits))
