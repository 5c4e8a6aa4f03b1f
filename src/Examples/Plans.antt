-- ===== src/Examples/Plans.antt =====
-- The planner on a plan of three steps: the third waits for the first two.
use army_of_god.Prelude.{ℕ, zero, suc, ◌≡◌, refl, List, [], ◌∷◌, arith, In, dedupe}
use army_of_god.Planner.{PlannedStep, StepLine, parse_plan, ready_steps, waves}
use army_of_god.Planner.Ready.{IsReady, ready_steps_iff}
use army_of_god.Planner.Waves.{IsBackward, IsComplete, waves-IsComplete}
use army_of_god.Planner.Plan.{IsAccepted, parse_plan-IsAccepted, parse_plan-IsComplete}

abbrev prompt : List ℕ
prompt = 97 ∷ 98 ∷ 99 ∷ 100 ∷ []

abbrev reply : List StepLine
reply =
    record { index = 2; after = 1 ∷ []; text = 98 ∷ [] }
    ∷ record { index = 1; after = 0 ∷ []; text = 97 ∷ [] }
    ∷ record { index = 3; after = 1 ∷ 2 ∷ 3 ∷ []; text = 99 ∷ [] }
    ∷ []

abbrev three_steps : List PlannedStep
three_steps =
    record { text = 97 ∷ []; depends_on = [] }
    ∷ record { text = 98 ∷ []; depends_on = 0 ∷ [] }
    ∷ record { text = 99 ∷ []; depends_on = 0 ∷ 1 ∷ [] }
    ∷ []

reply_parsed : parse_plan reply prompt ≡ three_steps
unfolding parse_plan dedupe
reply_parsed = refl

one_ready : ready_steps three_steps (0 ∷ []) ≡ 1 ∷ []
unfolding ready_steps
one_ready = refl

three_waves : waves three_steps ≡ (0 ∷ []) ∷ (1 ∷ []) ∷ (2 ∷ []) ∷ []
unfolding waves ready_steps
three_waves = refl

three-IsBackward : IsBackward three_steps
three-IsBackward zero s at = ground (arith, at)
three-IsBackward (suc zero) s at = ground (arith, at)
three-IsBackward (suc (suc zero)) s at = ground (arith, at)
three-IsBackward (suc (suc (suc i))) s at = cc

ready_steps_iff_example :
    (In 1 (ready_steps three_steps (0 ∷ [])) → IsReady three_steps (0 ∷ []) 1)
    × (IsReady three_steps (0 ∷ []) 1 → In 1 (ready_steps three_steps (0 ∷ [])))
ready_steps_iff_example = ready_steps_iff three_steps (0 ∷ []) 1

waves-IsComplete_example : IsComplete three_steps (waves three_steps)
waves-IsComplete_example = waves-IsComplete three_steps three-IsBackward

parse_plan-IsAccepted_example : IsAccepted (parse_plan reply prompt) prompt
parse_plan-IsAccepted_example = parse_plan-IsAccepted reply prompt

parse_plan-IsComplete_example :
    IsComplete (parse_plan reply prompt) (waves (parse_plan reply prompt))
parse_plan-IsComplete_example = parse_plan-IsComplete reply prompt
