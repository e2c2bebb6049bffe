-- ===== src/Runtime/Threads/Sequential/Outcomes.antt =====
-- A worker's turn and the calls of crates/gitility-core/src/runtime/mod.rs: what they do to a job, and
-- the steps that they take.
use gitility.Base.{if◌then◌else◌, ℕ, ◌+◌, false, some}
use gitility.Budget.{Budget}
use gitility.Runtime.Job.{
  Job, Outcome, queued, running, terminal_of, run_result, state_eq, try_start,
}
use gitility.Runtime.Shared.{Shared}
use gitility.Runtime.Threads.Sequential.Effects.{published_job}

module _ {Out : Type 0} where
  -- A queued job ends with what its task gives, and its observer is called once more; of any other
  -- only the task goes.
  unfoldable pub after_work : ℕ → ℕ → (Budget → Outcome Out × Budget) → Job Out → Job Out
  after_work now later effect j =
      let (result, k) = run_result now later effect j in
      if state_eq j.state queued
      then record j {
        state = terminal_of result;
        budget = k.budget;
        task = k.task;
        output = some result;
        notices = j.notices + 1;
      }
      else record j { task = false }

  worked_job : ℕ → ℕ → (Budget → Outcome Out × Budget) → Job Out → Job Out
  worked_job now later effect j =
      let k = (try_start j).1 in
      let result = (run_result now later effect k).0 in
      published_job running (terminal_of result) result (run_result now later effect k).1
