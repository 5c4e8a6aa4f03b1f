-- ===== src/Planner/Waves.antt =====
-- `waves` of apps/server/src/codify/planner.ts on plans whose dependencies point backwards.
use mathlib.Core.List.{append_assoc, append-nil}
use army_of_god.Prelude.{
  ℕ, zero, suc, ◌+◌, ◌≤◌, ◌<◌, ◌≡◌, refl, inl, inr, true, false, List, [], ◌∷◌, ◌++◌, some, arith,
  length, get_elem?, all, All, elem, In, IsDistinct, IsDistinct-append, length-append, ltb_false→le,
  Bool-cases, nat_eq, ltb, nat_beq, get_elem?→lt, lt→get_elem?, All-append, In→All, In→all, all→In,
  ltb→lt,
}
use army_of_god.Prelude.Missing.{Least-missing, none_missing, length-add-missing}
use army_of_god.Planner.{PlannedStep, ready_steps, waves_from, waves}
use army_of_god.Planner.Ready.{IsReady, ready_steps_iff, ready_steps-IsDistinct}

-- Each step depends on earlier steps only.
abbrev pub IsBackward : List PlannedStep → Type 0
IsBackward steps =
    (i : ℕ) (s : PlannedStep) → get_elem? steps i ≡ some s → all (λ d. ltb d i) s.depends_on ≡ true

-- Each wave runs steps that were not run before and whose dependencies were.
abbrev pub RunsInOrder : List PlannedStep → List ℕ → List (List ℕ) → Type 0
RunsInOrder steps done [] = Unit
RunsInOrder steps done (w ∷ ws) =
    ((i : ℕ) → In i w → IsReady steps done i) × RunsInOrder steps (done ++ w) ws

waves_from-RunsInOrder :
    (fuel : ℕ) (steps : List PlannedStep) (done : List ℕ)
    → RunsInOrder steps done (waves_from fuel steps done)
unfolding waves_from
waves_from-RunsInOrder zero steps done = tt
waves_from-RunsInOrder (suc fuel) steps done =
    let wave = ready_steps steps done in
    let later = waves_from-RunsInOrder fuel steps (done ++ wave) in
    elim (Bool-cases (ltb (length done) (length steps))) [
      | inl more ↦ elim (Bool-cases (nat_beq (length wave) 0)) [
        | inl stuck ↦ rw (more, stuck) tt
        | inr moves ↦ rw (more, moves) (λ i h. (ready_steps_iff steps done i).0 h, later)
      ]
      | inr finished ↦ rw finished tt
    ]

-- The steps that a list of waves runs.
abbrev pub ran : List (List ℕ) → List ℕ
ran [] = []
ran (w ∷ ws) = w ++ ran ws

-- What the loop keeps of the steps that are done.
record IsRecord (steps : List PlannedStep) (done : List ℕ) : Type 0 where
  distinct : IsDistinct done
  bounded : All (λ i. i < length steps) done

IsRecord-wave :
    (steps : List PlannedStep) (done : List ℕ)
    → IsRecord steps done
    → IsRecord steps (done ++ ready_steps steps done)
IsRecord-wave steps done r = record {
  distinct =
      IsDistinct-append done (ready_steps steps done) r.distinct (ready_steps-IsDistinct steps done)
        (λ i h. let ready = (ready_steps_iff steps done i).0 h in ground (arith, ready.can));
  bounded =
      All-append (λ i. i < length steps) done (ready_steps steps done) r.bounded
        (In→All (λ i. i < length steps) (ready_steps steps done)
          (λ i h. get_elem?→lt steps i ((ready_steps_iff steps done i).0 h).at));
}

-- While steps are left, the earliest of them is ready.
some_ready :
    (steps : List PlannedStep) (done : List ℕ)
    → IsBackward steps
    → IsRecord steps done
    → length done < length steps
    → (i : ℕ) × In i (ready_steps steps done)
some_ready steps done back r h =
    let counted = length-add-missing (length steps) done r.distinct r.bounded in
    let l = Least-missing (length steps) done (omega arith) in
    let (s, at) = lt→get_elem? steps l.at l.bound in
    let earlier = back l.at s at in
    let released : all (λ d. elem d done) s.depends_on ≡ true =
      In→all (λ d. elem d done) s.depends_on
        (λ d i. l.below d (ltb→lt d l.at (all→In (λ d. ltb d l.at) s.depends_on earlier i))) in
    (
      l.at,
      (ready_steps_iff steps done l.at).1
          (record { step = s; at = at; can = rw (l.absent, released) refl }),
    )

nonempty : (xs : List ℕ) (i : ℕ) → In i xs → 0 < length xs
nonempty [] i h = absurd h
nonempty (x ∷ xs) i h = omega arith

all_done :
    (steps : List PlannedStep) (done : List ℕ)
    → IsRecord steps done
    → length steps ≤ length done
    → (i : ℕ) → i < length steps
    → elem i done ≡ true
all_done steps done r full i lt =
    none_missing (length steps) done i
      (omega (arith, length-add-missing (length steps) done r.distinct r.bounded)) lt

waves_from-every :
    (fuel : ℕ) (steps : List PlannedStep) (done : List ℕ)
    → IsBackward steps
    → IsRecord steps done
    → length steps < length done + fuel
    → (i : ℕ) → i < length steps
    → elem i (done ++ ran (waves_from fuel steps done)) ≡ true
unfolding waves_from
waves_from-every zero steps done back r enough i lt =
    rw append-nil (all_done steps done r (omega arith) i lt)
waves_from-every (suc fuel) steps done back r enough i lt =
    let wave = ready_steps steps done in
    elim (Bool-cases (ltb (length done) (length steps))) [
      | inl more ↦
          let (k, hit) = some_ready steps done back r (ltb→lt _ _ more) in
          let grows = nonempty wave k hit in
          let moves : nat_beq (length wave) 0 ≡ false = ground arith in
          rw (more, moves, ← append_assoc)
            (waves_from-every fuel steps (done ++ wave) back (IsRecord-wave steps done r)
              (omega (arith, length-append done wave)) i lt)
      | inr finished ↦
          rw (finished, append-nil) (all_done steps done r (ltb_false→le _ _ finished) i lt)
    ]

waves_from-IsRecord :
    (fuel : ℕ) (steps : List PlannedStep) (done : List ℕ)
    → IsRecord steps done
    → IsDistinct (done ++ ran (waves_from fuel steps done))
unfolding waves_from
waves_from-IsRecord zero steps done r = rw append-nil r.distinct
waves_from-IsRecord (suc fuel) steps done r =
    let wave = ready_steps steps done in
    let rest = waves_from-IsRecord fuel steps (done ++ wave) (IsRecord-wave steps done r) in
    elim (Bool-cases (ltb (length done) (length steps))) [
      | inl more ↦ elim (Bool-cases (nat_beq (length wave) 0)) [
        | inl stuck ↦ rw (more, stuck, append-nil) r.distinct
        | inr moves ↦ rw (more, moves, ← append_assoc) rest
      ]
      | inr finished ↦ rw (finished, append-nil) r.distinct
    ]

-- A complete schedule of a plan.
pub record IsComplete (steps : List PlannedStep) (ws : List (List ℕ)) : Type 0 where
  pub in_order : RunsInOrder steps [] ws
  pub once : IsDistinct (ran ws)
  pub every : (i : ℕ) → i < length steps → elem i (ran ws) ≡ true

-- Where dependencies point backwards, the waves run every step, each once, and each step after the
-- steps that it depends on.
pub waves-IsComplete :
    (steps : List PlannedStep) → IsBackward steps → IsComplete steps (waves steps)
unfolding waves
waves-IsComplete steps back =
    let r : IsRecord steps [] = record { distinct = tt; bounded = tt } in
    record {
      in_order = waves_from-RunsInOrder (suc (length steps)) steps [];
      once = waves_from-IsRecord (suc (length steps)) steps [] r;
      every = waves_from-every (suc (length steps)) steps [] back r (omega arith);
    }
