-- ===== src/TaskRunner/Tests.antt =====
-- Three tasks, the third of which comes after the runner is closed.
use deplug.Common.{ℕ, ◌≡◌, List, [], ◌∷◌}
use deplug.TaskRunner.{init}
use deplug.TaskRunner.Order.{
  Op, adds, turns, closes, run, numbered, returned, all_tasks, run-numbered,
}

abbrev calls : List (Op ℕ)
calls = adds 70 ∷ adds 80 ∷ turns ∷ closes ∷ adds 90 ∷ turns ∷ []

run-numbered_example :
    (all_tasks (run calls init) ≡ returned calls init)
    × (returned calls init ≡ (1, 70) ∷ (2, 80) ∷ (3, 90) ∷ [])
unfolding numbered
run-numbered_example = run-numbered calls
