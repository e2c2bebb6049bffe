-- ===== src/Runtime/Job/Endings.antt =====
-- The result of a run in crates/gitility-core/src/runtime/mod.rs, and the taking of an output.
use gitility.Base.{ℕ, ◌≡◌, true, none, arith, ◌↔◌}
use gitility.Error.{ok}
use gitility.Budget.{Budget, check}
use gitility.Runtime.Job.{
  Job, Outcome, returned, is_terminal, run_result, outcome_result, take_output,
}

module _ {Out : Type 0} where
  -- A run gives a value exactly when the budget allows the start, the task is still there and returns
  -- that value, and the budget, as the task left it, is neither cancelled nor expired when it returns.
  pub run_result-Completes :
      (now later : ℕ) (effect : Budget → Outcome Out × Budget) (j : Job Out) (value : Out)
      → ((run_result now later effect j).0 ≡ ok value)
        ↔ ((check now j.budget).0 ≡ ok tt)
          × (j.task ≡ true)
          × ((effect j.budget).0 ≡ returned (ok value))
          × ((check later (effect j.budget).1).0 ≡ ok tt)
  unfolding run_result outcome_result
  run_result-Completes now later effect j value = ground arith

  -- The output of a job can be taken once.
  take_output_once :
      (j : Job Out)
      → is_terminal j.state ≡ true
      → ((take_output j).0 ≡ j.output) × ((take_output (take_output j).1).0 ≡ none)
  unfolding take_output
  take_output_once j h = ground arith
