-- ===== src/Session/Driver/Waves.antt =====
-- The waves of a plan-backed session against its abstract steps: service.ts `planWave`,
-- agent-service.ts `advanceSession`, `runSessionTurn`, however the turns of a wave interleave.
use Prim.Native.String.{String}
use mathlib.Core.Path.{subst}
use army_of_god.Prelude.{
  ℕ, zero, suc, ◌≡◌, refl, ap, ◌⊎◌, inl, inr, Bool, true, false, not, Option, none, some, List, [],
  ◌∷◌, ◌++◌, arith, length, filter, find, elem, elem-filter, get_elem?, get_elem?→In, In, nat_beq,
  nat_eq, ◌==◌, string_eq, Bool-cases, Option-cases,
}
use army_of_god.Text.{Text}
use army_of_god.Store.{Result, ok, err}
use army_of_god.Records.Runs.{Agent}
use army_of_god.Planner.{PlannedStep}
use army_of_god.Session.{CoordinationSession, plan_steps, pending_steps, should_stop}
use army_of_god.Session.Turns.{
  ClaimError, claim_session, claimed_turn, TurnOutcome, settle_session, stop_session,
}
use army_of_god.Session.Sound.{claim_session-Claims, turns-settle_session}
use army_of_god.Session.Steps.{claim, settle, halt, Reach, here, next, IsCreated, Reach-IsSound}
use army_of_god.Session.Order.{planned_caller, in_flight}
use army_of_god.Session.Selection.{SelectionResult, SelectionReason, plan_instruction}
use army_of_god.Session.Driver.{
  WaveStep, Wave, Event, starts, settles, stops, wave_from, planned_wave, plan_wave, remove_at,
  turn_claim, attempt, begin, launched, run_event, run_events, advance_session,
}
use army_of_god.Session.Driver.Later.{
  turns_halt, pending_later, in_flight-push, in_flight-settle, in_flight-fresh, Reach-trans,
}

In-remove_at : {A : Type 0} (x : A) (n : ℕ) (xs : List A) → In x (remove_at n xs) → In x xs
In-remove_at x n [] i = i
In-remove_at x zero (y ∷ xs) i = inr i
In-remove_at x (suc n) (y ∷ xs) (inl e) = inl e
In-remove_at x (suc n) (y ∷ xs) (inr i) = inr (In-remove_at x n xs i)

-- Every step of the wave is for a step of the plan that is pending.
abbrev IsPlanned : {F : Type 0} → CoordinationSession → WaveStep F → Type 0
IsPlanned s st = (i : ℕ) × (st.step_index ≡ some i) × In i (pending_steps s)

module _ {F : Type 0} (select : CoordinationSession → Text → Option (SelectionResult F))
    (s : CoordinationSession) where
  abbrev taken : List String → ℕ → List ℕ → SelectionResult F → Bool → List (WaveStep F)
  taken busy i is r b = elim b [
    | true ↦ wave_from select s busy is
    | false ↦
        record { selection = r; instruction = plan_instruction s i; step_index = some i }
        ∷ wave_from select s (r.agent_id ∷ busy) is
  ]

  abbrev branch : List String → ℕ → List ℕ → Option (SelectionResult F) → List (WaveStep F)
  branch busy i is o = elim o [
    | none ↦ wave_from select s busy is
    | some r ↦ taken busy i is r (elem r.agent_id busy)
  ]

  wave_from-IsPlanned :
      (busy : List String) (is : List ℕ) (st : WaveStep F)
      → In st (wave_from select s busy is)
      → (i : ℕ) × (st.step_index ≡ some i) × In i is
  unfolding wave_from
  wave_from-IsPlanned busy [] st h = absurd h
  wave_from-IsPlanned busy (i ∷ is) st h = elim (Option-cases (select s (plan_instruction s i))) [
    | inl e ↦
        let (j, f, k) =
          wave_from-IsPlanned busy is st
            (subst (λ (o : Option (SelectionResult F)). In st (branch busy i is o)) e h) in
        (j, f, inr k)
    | inr (r, e) ↦ elim (Bool-cases (elem r.agent_id busy)) [
      | inl there ↦
          let (j, f, k) = wave_from-IsPlanned busy is st (
            subst (λ (b : Bool). In st (taken busy i is r b)) there
              (subst (λ (o : Option (SelectionResult F)). In st (branch busy i is o)) e h)) in
          (j, f, inr k)
      | inr free ↦
          let k : (st
                ≡ record { selection = r; instruction = plan_instruction s i; step_index = some i })
              ⊎ In st (wave_from select s (r.agent_id ∷ busy) is) =
            subst (λ (b : Bool). In st (taken busy i is r b)) free
              (subst (λ (o : Option (SelectionResult F)). In st (branch busy i is o)) e h) in
          elim k [
            | inl same ↦ (i, ap (λ (x : WaveStep F). x.step_index) same, inl refl)
            | inr later ↦
                let (j, f, l) = wave_from-IsPlanned (r.agent_id ∷ busy) is st later in (j, f, inr l)
          ]
    ]
  ]

  plan_wave-IsPlanned :
      (p : PlannedStep) (ps : List PlannedStep)
      → plan_steps s ≡ p ∷ ps
      → (st : WaveStep F) → In st (plan_wave select s)
      → IsPlanned s st
  unfolding plan_wave wave_from
  plan_wave-IsPlanned p ps e st h = elim (Bool-cases (should_stop s).stop) [
    | inl over ↦ absurd (rw over at h)
    | inr on ↦
        wave_from-IsPlanned _ (pending_steps s) st
          (subst (λ (x : List PlannedStep). In st (planned_wave select s x)) e (rw on at h))
  ]

module _ {F : Type 0} (root s : CoordinationSession) (created : IsCreated root)
    (reached : Reach planned_caller root s) where
  -- A wave that began in `s`: its session is reached by abstract steps, what waits was pending, and
  -- what runs is in flight.
  record IsWave (w : Wave F) : Type 0 where
    reach : Reach planned_caller s w.session
    waits : (st : WaveStep F) → In st w.waiting → IsPlanned s st
    flies : (j : ℕ) → elem j w.running ≡ true → in_flight j w.session.turns ≡ true

  module _ (sentence : SelectionReason F → Text) (agents : List Agent) where
    attempt-IsWave :
        (now : String) (st : WaveStep F) (a : Agent) (w : Wave F)
        (r : Result ClaimError CoordinationSession)
        → claim_session now (turn_claim sentence agents st a) w.session ≡ r
        → IsPlanned s st
        → IsWave w
        → IsWave (attempt sentence agents st w r)
    attempt-IsWave now st a w (err e) h p k = k
    attempt-IsWave now st a w (ok t) h (i, at, pending) k =
        let c = claim_session-Claims now (turn_claim sentence agents st a) w.session t h in
        let free = c.step_free i at in
        let sound =
          Reach-IsSound planned_caller root w.session created (Reach-trans reached k.reach) in
        let new = claimed_turn now (turn_claim sentence agents st a) (length w.session.turns) in
        let turns : t.turns ≡ w.session.turns ++ new ∷ [] =
          ap (λ (x : CoordinationSession). x.turns) c.pushed in
        record {
          reach = next k.reach (
              claim now (turn_claim sentence agents st a)
                (i, at, pending_later s w.session i k.reach pending free) h);
          waits = k.waits;
          flies = λ j e. rw turns (
              in_flight-push j w.session.turns new refl
                (elim (Bool-cases (nat_beq j (length w.session.turns))) [
                  | inl same ↦
                      in_flight-fresh j 0 w.session.turns
                        (λ n u g. omega (arith, sound.indexed n u g)) (ground (arith, same))
                  | inr other ↦ k.flies j (ground (arith, e, other))
                ]));
        }

    begin-IsWave :
        (now : String) (st : WaveStep F) (w : Wave F) (o : Option Agent)
        → IsPlanned s st
        → IsWave w
        → IsWave (begin sentence agents now st w o)
    begin-IsWave now st w none p k = record { reach = k.reach; waits = k.waits; flies = k.flies }
    begin-IsWave now st w (some a) p k =
        attempt-IsWave now st a w (claim_session now (turn_claim sentence agents st a) w.session)
          refl p k

    start-IsWave :
        (now : String) (n : ℕ) (w : Wave F) (o : Option (WaveStep F))
        → get_elem? w.waiting n ≡ o
        → IsWave w
        → IsWave (elim o [
          | none ↦ w
          | some st ↦ launched sentence agents now st (record w { waiting = remove_at n w.waiting })
        ])
    start-IsWave now n w none e k = k
    start-IsWave now n w (some st) e k =
        begin-IsWave now st (record w { waiting = remove_at n w.waiting })
          (find (λ a. a.id == st.selection.agent_id) agents)
          (k.waits st (get_elem?→In w.waiting n e))
          (record {
            reach = k.reach;
            waits = λ x i. k.waits x (In-remove_at x n w.waiting i);
            flies = k.flies;
          })

    settle-IsWave :
        (now : String) (index : ℕ) (out : TurnOutcome) (w : Wave F) (b : Bool)
        → elem index w.running ≡ b
        → IsWave w
        → IsWave (elim b [
          | true ↦ record {
            waiting = w.waiting;
            running = filter (λ j. not (nat_beq j index)) w.running;
            session = settle_session now index out w.session;
            thrown = w.thrown;
          }
          | false ↦ w
        ])
    settle-IsWave now index out w false e k = k
    settle-IsWave now index out w true e k = record {
      reach = next k.reach (settle now index out (k.flies index e) refl);
      waits = k.waits;
      flies = λ j h.
          let both = elem-filter (λ i. not (nat_beq i index)) j w.running in
          rw (turns-settle_session now index out w.session) (
            in_flight-settle now index j out w.session.turns (ground (arith, both, h))
              (k.flies j (ground (arith, both, h))));
    }

    halt-IsWave :
        (now : String) (reason : List ℕ) (w : Wave F)
        → IsWave w
        → IsWave (record w { session = stop_session now reason w.session })
    halt-IsWave now reason w k = record {
      reach = next k.reach (halt now reason refl);
      waits = k.waits;
      flies = λ j h.
          rw (turns_halt now reason w.session (stop_session now reason w.session) refl)
            (k.flies j h);
    }

    run_events-IsWave :
        (es : List Event) (w : Wave F) → IsWave w → IsWave (run_events sentence agents es w)
    unfolding run_events
    run_events-IsWave [] w k = k
    run_events-IsWave (e ∷ es) w k = run_events-IsWave es (run_event sentence agents e w) (one e)
      where
        one : (e : Event) → IsWave (run_event sentence agents e w)
        one (starts now n) = start-IsWave now n w (get_elem? w.waiting n) refl k
        one (settles now index out) = settle-IsWave now index out w (elem index w.running) refl k
        one (stops now reason) = halt-IsWave now reason w k

    module _ (select : CoordinationSession → Text → Option (SelectionResult F)) where
      -- However the claims and settlements of a wave and the stops of an administrator interleave,
      -- what `advanceSession` does to a plan-backed session is a sequence of the abstract steps: each
      -- claim is for a step that is pending when it is made, though the wave was planned before, and
      -- each settlement is of a turn in flight.
      pub advance_session-Reach :
          (p : PlannedStep) (ps : List PlannedStep)
          → plan_steps s ≡ p ∷ ps
          → (events : List Event)
          → Reach planned_caller s (advance_session sentence agents select events s).session
      unfolding advance_session
      advance_session-Reach p ps e events =
          (run_events-IsWave events
            (record { waiting = plan_wave select s; running = []; session = s; thrown = false })
            (record {
              reach = here;
              waits = plan_wave-IsPlanned select s p ps e;
              flies = λ j h. cc;
            })).reach
