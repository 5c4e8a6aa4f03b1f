-- ===== src/Planner/Plan.antt =====
-- The plans that `parsePlan` of apps/server/src/codify/planner.ts returns.
use army_of_god.Prelude.{
  ℕ, zero, suc, ◌+◌, ◌-◌, ◌*◌, ◌≤◌, ◌<◌, ◌≡◌, refl, ◌⊎◌, inl, inr, true, List, [], ◌∷◌, some, arith,
  length, get_elem?, all, In→all, In-filter, Bool-cases, nat_eq, ltb, leb, nat_beq, map, filter,
  dedupe, ◌||◌, ltb_false→le,
}
use army_of_god.Planner.{
  PlannedStep, StepLine, max_steps, single_step, backward_deps, steps_from, numbered_from,
  accept_steps, plan_of_sorted, parse_plan, sort_lines, kept_line, kept_after, planned_length,
  waves,
}
use army_of_god.Planner.Waves.{IsBackward, IsComplete, waves-IsComplete}

backward_deps-backward :
    (position : ℕ) (after : List ℕ)
    → all (λ d. ltb d position) (backward_deps position after) ≡ true
unfolding backward_deps
backward_deps-backward position after =
    let named = map (λ v. v - 1) (filter (λ v. leb 1 v) (dedupe after)) in
    In→all (λ d. ltb d position) (filter (λ v. ltb v position) named)
      (λ d i. (In-filter (λ v. ltb v position) named i).1)

steps_from-backward :
    (position : ℕ) (ls : List StepLine) (i j : ℕ) (s : PlannedStep)
    → j ≡ position + i
    → get_elem? (steps_from position ls) i ≡ some s
    → all (λ d. ltb d j) s.depends_on ≡ true
unfolding steps_from
steps_from-backward position [] i j s e at = cc
steps_from-backward position (l ∷ ls) zero j s e at =
    let here : j ≡ position = omega arith in
    let deps : backward_deps position l.after ≡ s.depends_on = ground (arith, at) in
    rw (here, ← deps) (backward_deps-backward position l.after)
steps_from-backward position (l ∷ ls) (suc i) j s e at =
    steps_from-backward (suc position) ls i j s (omega arith) at

length-steps_from :
    (position : ℕ) (ls : List StepLine) → length (steps_from position ls) ≡ length ls
unfolding steps_from
length-steps_from position [] = refl
length-steps_from position (l ∷ ls) = omega (arith, length-steps_from (suc position) ls)

single_step-IsBackward : (prompt : List ℕ) → IsBackward (single_step prompt)
single_step-IsBackward prompt zero s at =
    let deps : [] ≡ s.depends_on = ground (arith, at) in rw (← deps) refl
single_step-IsBackward prompt (suc i) s at = cc

-- An accepted plan is the request as one step, or it has two to five steps that account for at
-- least half of the prompt's length.
abbrev pub IsAccepted : List PlannedStep → List ℕ → Type 0
IsAccepted steps prompt =
    (steps ≡ single_step prompt)
    ⊎ ((2 ≤ length steps) × (length steps ≤ max_steps) × (length prompt ≤ planned_length steps * 2))

-- A plan that the rejection rules leave alone.
record IsKept (parsed : List StepLine) (prompt : List ℕ) (steps : List PlannedStep) : Type 0 where
  kept : steps ≡ steps_from 0 parsed
  several : 2 ≤ length steps
  few : length steps ≤ max_steps
  bulk : length prompt ≤ planned_length steps * 2

accept_steps_cases :
    (parsed : List StepLine) (prompt : List ℕ)
    → 0 < length parsed
    → length parsed ≤ max_steps
    → (accept_steps (steps_from 0 parsed) prompt ≡ single_step prompt)
      ⊎ IsKept parsed prompt (accept_steps (steps_from 0 parsed) prompt)
unfolding accept_steps
accept_steps_cases parsed prompt some_line few =
    let steps = steps_from 0 parsed in
    let size = length-steps_from 0 parsed in
    elim (Bool-cases (nat_beq (length steps) 1)) [
      | inl one ↦ inl (rw one)
      | inr several ↦ elim (Bool-cases (ltb (planned_length steps * 2) (length prompt))) [
        | inl dropped ↦ inl (rw (several, dropped))
        | inr bulk ↦
            let two : 2 ≤ length steps = ground (arith, size) in
            inr (
              rw (several, bulk)
                (record {
                  kept = refl;
                  several = two;
                  few = omega (arith, size);
                  bulk = ltb_false→le _ _ bulk;
                }))
      ]
    ]

plan_of_sorted_cases :
    (parsed : List StepLine) (prompt : List ℕ)
    → (plan_of_sorted parsed prompt ≡ single_step prompt)
      ⊎ IsKept parsed prompt (plan_of_sorted parsed prompt)
unfolding plan_of_sorted
plan_of_sorted_cases parsed prompt =
    elim (Bool-cases (nat_beq (length parsed) 0 || ltb max_steps (length parsed))) [
      | inl outside ↦ inl (rw outside)
      | inr inside ↦ elim (Bool-cases (numbered_from 0 parsed)) [
        | inl numbered ↦
            rw (inside, numbered) (accept_steps_cases parsed prompt (ground arith) (ground arith))
        | inr gaps ↦ inl (rw (inside, gaps))
      ]
    ]

plan_of_sorted-IsBackward :
    (parsed : List StepLine) (prompt : List ℕ) → IsBackward (plan_of_sorted parsed prompt)
plan_of_sorted-IsBackward parsed prompt = elim (plan_of_sorted_cases parsed prompt) [
  | inl single ↦ rw single (single_step-IsBackward prompt)
  | inr k ↦ rw k.kept (λ i s at. steps_from-backward 0 parsed i i s (omega arith) at)
]

-- Whatever lines the reply holds, the plan is the whole request as one step, or two to five steps
-- whose texts make up at least half of the request's length.
pub parse_plan-IsAccepted :
    (lines : List StepLine) (prompt : List ℕ) → IsAccepted (parse_plan lines prompt) prompt
unfolding parse_plan
parse_plan-IsAccepted lines prompt =
    elim (plan_of_sorted_cases (sort_lines (map kept_after (filter kept_line lines))) prompt) [
      | inl single ↦ inl single
      | inr k ↦ inr (k.several, k.few, k.bulk)
    ]

-- Whatever lines the reply holds, the plan's waves run every one of its steps, each once, and each
-- after the steps that it depends on.
pub parse_plan-IsComplete :
    (lines : List StepLine) (prompt : List ℕ)
    → IsComplete (parse_plan lines prompt) (waves (parse_plan lines prompt))
parse_plan-IsComplete lines prompt = waves-IsComplete (parse_plan lines prompt) (
    unfold parse_plan in
    plan_of_sorted-IsBackward (sort_lines (map kept_after (filter kept_line lines))) prompt)
