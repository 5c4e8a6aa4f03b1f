-- ===== src/Planner/Ready.antt =====
-- `readySteps` of apps/server/src/codify/planner.ts against what it is for a step to be ready.
use army_of_god.Prelude.{
  ℕ, zero, suc, ◌+◌, ◌≡◌, refl, ◌⊎◌, inl, inr, Bool, true, ◌&&◌, not, List, [], ◌∷◌, some, arith,
  get_elem?, all, elem, In, IsDistinct, not-In→elem, Bool-cases, nat_eq,
}
use army_of_god.Planner.{PlannedStep, ready_from, ready_steps}

abbrev pub can_start : PlannedStep → ℕ → List ℕ → Bool
can_start s i completed = not (elem i completed) && all (λ d. elem d completed) s.depends_on

-- The step `i` of a list that starts at `index` may start.
pub record Starts (index : ℕ) (ss : List PlannedStep) (completed : List ℕ) (i : ℕ) : Type 0 where
  pub place : ℕ
  pub place_eq : i ≡ index + place
  pub step : PlannedStep
  pub at : get_elem? ss place ≡ some step
  pub can : can_start step i completed ≡ true

later-Starts :
    {index : ℕ} {s : PlannedStep} {ss : List PlannedStep} {completed : List ℕ} {i : ℕ}
    → Starts (suc index) ss completed i
    → Starts index (s ∷ ss) completed i
later-Starts r = record {
  place = suc r.place;
  place_eq = omega (arith, r.place_eq);
  step = r.step;
  at = r.at;
  can = r.can;
}

ready_from_sound :
    (index : ℕ) (ss : List PlannedStep) (completed : List ℕ) (i : ℕ)
    → In i (ready_from index ss completed)
    → Starts index ss completed i
unfolding ready_from
ready_from_sound index [] completed i h = absurd h
ready_from_sound index (s ∷ ss) completed i h = elim (Bool-cases (can_start s index completed)) [
  | inl starts ↦
      let j : (i ≡ index) ⊎ In i (ready_from (suc index) ss completed) = rw starts at h in
      elim j [
        | inl e ↦ record {
          place = 0;
          place_eq = omega arith;
          step = s;
          at = refl;
          can = rw e starts;
        }
        | inr later ↦ later-Starts (ready_from_sound (suc index) ss completed i later)
      ]
  | inr waits ↦ later-Starts (ready_from_sound (suc index) ss completed i (rw waits at h))
]

ready_from_complete :
    (index : ℕ) (ss : List PlannedStep) (completed : List ℕ) (k i : ℕ) (s : PlannedStep)
    → i ≡ index + k
    → get_elem? ss k ≡ some s
    → can_start s i completed ≡ true
    → In i (ready_from index ss completed)
unfolding ready_from
ready_from_complete index [] completed k i s e at can = cc
ready_from_complete index (t ∷ ss) completed zero i s e at can =
    let here : i ≡ index = omega arith in
    let same : t ≡ s = ground (arith, at) in rw (rw (here, ← same) at can) (inl here)
ready_from_complete index (t ∷ ss) completed (suc k) i s e at can =
    let rest = ready_from_complete (suc index) ss completed k i s (omega arith) at can in
    elim (Bool-cases (can_start t index completed)) [
      | inl starts ↦ rw starts (inr rest)
      | inr waits ↦ rw waits rest
    ]

ready_from-IsDistinct :
    (index : ℕ) (ss : List PlannedStep) (completed : List ℕ)
    → IsDistinct (ready_from index ss completed)
unfolding ready_from
ready_from-IsDistinct index [] completed = tt
ready_from-IsDistinct index (s ∷ ss) completed =
    let rest = ready_from-IsDistinct (suc index) ss completed in
    elim (Bool-cases (can_start s index completed)) [
      | inl starts ↦ rw starts (
        not-In→elem index _
            (λ i. omega (arith, (ready_from_sound (suc index) ss completed index i).place_eq)),
        rest,
      )
      | inr waits ↦ rw waits rest
    ]

pub ready_steps-IsDistinct :
    (steps : List PlannedStep) (completed : List ℕ) → IsDistinct (ready_steps steps completed)
unfolding ready_steps
ready_steps-IsDistinct steps completed = ready_from-IsDistinct 0 steps completed

-- Step `i` of a plan exists, is not completed, and every step it depends on is completed.
pub record IsReady (steps : List PlannedStep) (completed : List ℕ) (i : ℕ) : Type 0 where
  pub step : PlannedStep
  pub at : get_elem? steps i ≡ some step
  pub can : can_start step i completed ≡ true

-- `readySteps` lists exactly the steps that exist, are not completed, and depend on completed
-- steps only.
pub ready_steps_iff :
    (steps : List PlannedStep) (completed : List ℕ) (i : ℕ)
    → (In i (ready_steps steps completed) → IsReady steps completed i)
      × (IsReady steps completed i → In i (ready_steps steps completed))
unfolding ready_steps
ready_steps_iff steps completed i = (
  λ h.
      let r = ready_from_sound 0 steps completed i h in
      let e : r.place ≡ i = omega (arith, r.place_eq) in
      record { step = r.step; at = rw e at r.at; can = r.can },
  λ r. ready_from_complete 0 steps completed i i r.step (omega arith) r.at r.can,
)
