-- ===== src/Examples/Commits.antt =====
-- The store with a number for its data.
use army_of_god.Prelude.{ℕ, zero, suc, ◌≡◌, refl, ◌↔◌, Bool, true, false, [], ◌∷◌}
use army_of_god.Store.{Result, ok, err, mutate, run_queue}
use army_of_god.Store.Atomic.{IsAtomic, mutate-IsAtomic, Leads, run_queue_iff}

-- Counts down, and throws at zero.
abbrev take_one : ℕ → Result Bool (ℕ × ℕ)
take_one zero = err false
take_one (suc n) = ok (n, n)

three_left : run_queue ((true, take_one) ∷ (false, take_one) ∷ (true, take_one) ∷ []) 2 ≡ 0
unfolding run_queue mutate
three_left = refl

mutate-IsAtomic_example : IsAtomic true take_one 2 (mutate true take_one 2)
mutate-IsAtomic_example = mutate-IsAtomic true take_one 2

run_queue_iff_example :
    (run_queue ((true, take_one) ∷ (false, take_one) ∷ (true, take_one) ∷ []) 2 ≡ 0)
    ↔ Leads ((true, take_one) ∷ (false, take_one) ∷ (true, take_one) ∷ []) 2 0
run_queue_iff_example =
    run_queue_iff ((true, take_one) ∷ (false, take_one) ∷ (true, take_one) ∷ []) 2 0
