-- ===== src/Planner.antt =====
-- apps/server/src/codify/planner.ts: a request split into steps with dependencies, and the order in
-- which the steps may run.

pub mod Ready
pub mod Waves
pub mod Plan
use army_of_god.Prelude.{
  ℕ, zero, suc, ◌+◌, ◌-◌, ◌*◌, Bool, true, ◌&&◌, ◌||◌, not, List, [], ◌∷◌, ◌++◌, map, length, all,
  filter, elem, dedupe, ltb, leb, nat_beq, if◌then◌else◌, nat_eq,
}

pub record PlannedStep : Type 0 where
  -- The fragment, as code units.
  pub text : List ℕ
  pub depends_on : List ℕ

abbrev pub max_steps : ℕ
max_steps = 5

-- One line `STEP <index> AFTER <after>: <text>` of the planner's reply, taken apart.
pub record StepLine : Type 0 where
  pub index : ℕ
  pub after : List ℕ
  pub text : List ℕ

-- The loop's `continue`: a step number below 1 and an empty text are dropped, and of the numbers
-- after AFTER those below 1.
kept_line : StepLine → Bool
kept_line l = leb 1 l.index && not (nat_beq (length l.text) 0)

kept_after : StepLine → StepLine
kept_after l = record l { after = filter (λ v. leb 1 v) l.after }

-- `parsed.sort((left, right) => left.index - right.index)`, which is stable.
insert_line : StepLine → List StepLine → List StepLine
insert_line l [] = l ∷ []
insert_line l (m ∷ ms) =
    let later = m ∷ insert_line l ms in if leb l.index m.index then l ∷ m ∷ ms else later

sort_lines : List StepLine → List StepLine
unfolding insert_line
sort_lines [] = []
sort_lines (l ∷ ls) = insert_line l (sort_lines ls)

-- The numbering is 1..n with no gaps, from `position` on.
numbered_from : ℕ → List StepLine → Bool
numbered_from position [] = true
numbered_from position (l ∷ ls) = nat_beq l.index (suc position) && numbered_from (suc position) ls

-- `[...new Set(after)].map((v) => v - 1).filter((v) => v >= 0 && v < position)`
backward_deps : ℕ → List ℕ → List ℕ
backward_deps position after =
    filter (λ v. ltb v position) (map (λ v. v - 1) (filter (λ v. leb 1 v) (dedupe after)))

steps_from : ℕ → List StepLine → List PlannedStep
unfolding backward_deps
steps_from position [] = []
steps_from position (l ∷ ls) =
    record { text = l.text; depends_on = backward_deps position l.after }
    ∷ steps_from (suc position) ls

-- `steps.reduce((total, step) => total + step.text.length, 0)`
pub planned_length : List PlannedStep → ℕ
planned_length [] = 0
planned_length (s ∷ ss) = length s.text + planned_length ss

abbrev single_step : List ℕ → List PlannedStep
single_step prompt = record { text = prompt; depends_on = [] } ∷ []

-- The rejection rules behind the sort, in the code's order; `planned < prompt.length * 0.5` is
-- stated without the fraction.
accept_steps : List PlannedStep → List ℕ → List PlannedStep
unfolding planned_length
accept_steps steps prompt =
    if nat_beq (length steps) 1
    then single_step prompt
    else if ltb (planned_length steps * 2) (length prompt)
    then single_step prompt
    else steps

plan_of_sorted : List StepLine → List ℕ → List PlannedStep
unfolding accept_steps steps_from numbered_from
plan_of_sorted parsed prompt =
    if nat_beq (length parsed) 0 || ltb max_steps (length parsed)
    then single_step prompt
    else if numbered_from 0 parsed
    then accept_steps (steps_from 0 parsed) prompt
    else single_step prompt

-- `parsePlan`, on the lines that match the reply's form (`none` where there was no reply).
unfoldable pub parse_plan : List StepLine → List ℕ → List PlannedStep
unfolding plan_of_sorted sort_lines kept_line kept_after
parse_plan lines prompt =
    plan_of_sorted (sort_lines (map kept_after (filter kept_line lines))) prompt

-- `readySteps`: not completed, and every dependency completed. `index` counts the steps passed.
ready_from : ℕ → List PlannedStep → List ℕ → List ℕ
ready_from index [] completed = []
ready_from index (s ∷ ss) completed =
    let rest = ready_from (suc index) ss completed in
    if not (elem index completed) && all (λ d. elem d completed) s.depends_on
    then index ∷ rest
    else rest

unfoldable pub ready_steps : List PlannedStep → List ℕ → List ℕ
unfolding ready_from
ready_steps steps completed = ready_from 0 steps completed

-- `waves`; `done` is a set, and the loop adds only steps that are not in it. The fuel stands for the
-- loop's rounds, and a wave ends the loop when it is empty.
waves_from : ℕ → List PlannedStep → List ℕ → List (List ℕ)
waves_from zero steps done = []
waves_from (suc fuel) steps done =
    let wave = ready_steps steps done in
    let later = wave ∷ waves_from fuel steps (done ++ wave) in
    if ltb (length done) (length steps) then (if nat_beq (length wave) 0 then [] else later) else []

unfoldable pub waves : List PlannedStep → List (List ℕ)
unfolding waves_from
waves steps = waves_from (suc (length steps)) steps []
