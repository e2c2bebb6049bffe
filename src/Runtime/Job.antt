-- ===== src/Runtime/Job.antt =====
-- Jobs of crates/gitility-core/src/runtime/mod.rs: states, and the operations that touch one job.
pub mod Frames
pub mod Endings
use gitility.Base.{ℕ, ◌+◌, Bool, true, false, Option, none, some, ◌==◌, if◌then◌else◌}
use gitility.Error.{ErrorCode, Error, Result, ok, err, new_text, timeout, backend_error}
use gitility.Error
use gitility.Budget.{Budget, check}

pub data JobState : Type 0 where
  queued running completed failed cancelled : JobState

-- `JobState::is_terminal`.
abbrev pub is_terminal : JobState → Bool
is_terminal queued = false
is_terminal running = false
is_terminal completed = true
is_terminal failed = true
is_terminal cancelled = true

-- The raw value that the atomic holds.
abbrev pub raw : JobState → ℕ
raw queued = 0
raw running = 1
raw completed = 2
raw failed = 3
raw cancelled = 4

-- `JobState::from_raw`.
unfoldable pub from_raw : ℕ → JobState
from_raw n =
    if n == 0
    then queued
    else if n == 1
    then running
    else if n == 2
    then completed
    else if n == 3
    then failed
    else cancelled

abbrev pub state_eq : JobState → JobState → Bool
state_eq a b = raw a == raw b

-- `task` says that the closure is still there. `notices` counts the calls of the observer.
pub record Job (Out : Type 0) : Type 0 where
  pub id : ℕ
  pub owner : ℕ
  pub state : JobState
  pub budget : Budget
  pub task : Bool
  pub output : Option (Result Out)
  pub notices : ℕ

abbrev pub cancelled_error : Error
cancelled_error = new_text ErrorCode.cancelled "operation cancelled"

abbrev pub timeout_error : Error
timeout_error = new_text timeout "operation budget expired"

abbrev pub panic_error : Error
panic_error = new_text backend_error "internal engine panic — this is a Gitility bug"

-- What the closure of a task does: it returns, or it unwinds.
pub data Outcome (Out : Type 0) : Type 0 where
  returned : Result Out → Outcome Out
  panicked : Outcome Out

abbrev pub is_cancelled : ErrorCode → Bool
is_cancelled ErrorCode.cancelled = true
is_cancelled _ = false

module _ {Out : Type 0} where
  -- The state that `finish_running` publishes for a result.
  unfoldable pub terminal_of : Result Out → JobState
  terminal_of (ok _) = completed
  terminal_of (err e) = if is_cancelled e.code then cancelled else failed

  -- The match of `run` on what the closure did; the budget is checked again behind a success.
  unfoldable pub outcome_result : ℕ → Budget → Outcome Out → Result Out
  outcome_result now b (returned (ok output)) = elim (check now b).0 [
    | ok _ ↦ ok output
    | err e ↦ err e
  ]
  outcome_result now b (returned (err e)) = err e
  outcome_result now b panicked = err panic_error

  -- `run` up to `finish_running`: the budget is checked, the task taken and called. `effect` is what
  -- the task does to the budget.
  unfoldable pub run_result :
      ℕ → ℕ → (Budget → Outcome Out × Budget) → Job Out → Result Out × Job Out
  unfolding outcome_result
  run_result now later effect j = elim (check now j.budget).0 [
    | err e ↦ (err e, record j { task = false })
    | ok _ ↦
        if j.task
        then (
          outcome_result later (effect j.budget).1 (effect j.budget).0,
          record j { task = false; budget = (effect j.budget).1 },
        )
        else (err (new_text backend_error "job task was unavailable"), j)
  ]

  -- The exchange of `publish_terminal`, which stores the result and the terminal state together, or
  -- neither: the job, and whether it changed.
  unfoldable pub exchange : JobState → JobState → Result Out → Job Out → Bool × Job Out
  exchange from terminal result j =
      if state_eq j.state from
      then (true, record j { state = terminal; output = some result })
      else (false, j)

  -- `observer.completed`, whose panic stays inside.
  unfoldable pub notify : Job Out → Job Out
  notify j = record j { notices = j.notices + 1 }

  unfoldable pub discard_task : Job Out → Job Out
  discard_task j = record j { task = false }

  -- `take_output`.
  unfoldable pub take_output : Job Out → Option (Result Out) × Job Out
  take_output j = if is_terminal j.state then (j.output, record j { output = none }) else (none, j)

  -- `cancel` raises the flag that the budget reads.
  unfoldable pub raise_flag : Job Out → Job Out
  raise_flag j = record j { budget = record (j.budget) { cancelled = true } }

  -- `try_start`.
  unfoldable pub try_start : Job Out → Bool × Job Out
  try_start j = if state_eq j.state queued then (true, record j { state = running }) else (false, j)
