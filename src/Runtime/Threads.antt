-- ===== src/Runtime/Threads.antt =====
-- The threads of crates/gitility-core/src/runtime/mod.rs on one shared state. A step is what one
-- thread does between two points where another can come in: a section under the queue's lock, an
-- exchange of a job's state, or an update of the counters and the observer behind it. The steps
-- allow every order of these, also orders that the threads' programs do not take.
use gitility.Base.{
  ℕ, ◌+◌, ◌<◌, ◌≡◌, Bool, true, false, List, [], ◌∷◌, ◌++◌, Option, none, some, u64_mod,
}
use gitility.Error.{Result, err}
use gitility.Budget.{Budget, BudgetLimits}
use gitility.Runtime.Job.{
  Job, JobState, queued, running, failed, cancelled, terminal_of, discard_task, cancelled_error,
  timeout_error, Outcome,
}
use gitility.Runtime.Shared.{
  Shared, RuntimeConfig, new_shared, with_job, exchange_job, settle, cancel_flag, cancel_unqueue,
}
use gitility.Runtime.Admission.{
  sweep, admit, begin_shutdown, start_exchange, count_started, take_job_output, run_task,
}
-- What a thread still owes behind an exchange: the counter of running jobs, or the counters, the
-- maps and the observer of a terminal job.
pub mod Cases
pub mod Counters
pub mod Config
pub mod Notices
pub mod Occupancy
pub mod Shutdown
pub mod Sequential
pub mod Finality

pub data Debt (Out : Type 0) : Type 0 where
  started : ℕ → Debt Out
  ended : Job Out → JobState → JobState → Debt Out

pub record System (Out : Type 0) : Type 0 where
  pub shared : Shared Out
  pub debts : List (Debt Out)

module _ {Out : Type 0} where
  unfoldable pub pay : Debt Out → Shared Out → Shared Out
  unfolding count_started settle
  pay (started _) s = count_started s
  pay (ended j from terminal) s = settle j from terminal s

  -- The debt that an exchange of `publish_terminal` leaves.
  unfoldable pub published :
      JobState → JobState → List (Debt Out) → Option (Job Out) × Shared Out → System Out
  published from terminal debts (none, s) = record { shared = s; debts = debts }
  published from terminal debts (some j, s) = record {
    shared = s;
    debts = ended j from terminal ∷ debts;
  }

  unfoldable pub starting : ℕ → List (Debt Out) → Bool × Shared Out → System Out
  starting id debts (false, s) = record { shared = s; debts = debts }
  starting id debts (true, s) = record { shared = s; debts = started id ∷ debts }

  -- The exchanges of `expire`, of `cancel` and of `finish_running`.
  unfoldable pub publish : ℕ → JobState → JobState → Result Out → System Out → System Out
  unfolding published exchange_job
  publish id from terminal result t =
      published from terminal t.debts (exchange_job id from terminal result t.shared)

  unfoldable pub on_shared : (Shared Out → Shared Out) → System Out → System Out
  on_shared f t = record t { shared = f t.shared }

-- One step of some thread. An admission meets a counter of IDs that has not wrapped around.
pub data Step {Out : Type 0} (t : System Out) : System Out → Type 0 where
  sweeping : (now : ℕ) → Step t (on_shared (λ s. (sweep now s).1) t)
  admitting :
      (owner : ℕ) (limits : BudgetLimits) (deadline : Option ℕ)
      → t.shared.next_job_id + 1 < u64_mod
      → Step t (on_shared (λ s. (admit owner limits deadline s).1) t)
  dequeuing :
      (id : ℕ) (queue : List ℕ)
      → t.shared.queue ≡ id ∷ queue
      → Step t (on_shared (λ s. record s { queue = queue }) t)
  beginning : (id : ℕ) → Step t (starting id t.debts (start_exchange id t.shared))
  running_task :
      (id now later : ℕ) (effect : Budget → Outcome Out × Budget)
      → Step t (on_shared (λ s. run_task now later effect id s) t)
  finishing :
      (id : ℕ) (result : Result Out) → Step t (publish id running (terminal_of result) result t)
  expiring : (id : ℕ) → Step t (publish id queued failed (err timeout_error) t)
  flagging : (id : ℕ) → Step t (on_shared (cancel_flag id) t)
  unqueuing : (id : ℕ) → Step t (on_shared (cancel_unqueue id) t)
  cancelling : (id : ℕ) → Step t (publish id queued cancelled (err cancelled_error) t)
  discarding : (id : ℕ) → Step t (on_shared (with_job id discard_task) t)
  paying :
      (before behind : List (Debt Out)) (d : Debt Out)
      → t.debts ≡ before ++ (d ∷ behind)
      → Step t (record { shared = pay d t.shared; debts = before ++ behind })
  taking : (id : ℕ) → Step t (on_shared (take_job_output id) t)
  shutting : Step t (on_shared (λ s. (begin_shutdown s).1) t)

pub data Reach {Out : Type 0} (t : System Out) : System Out → Type 0 where
  here : Reach t t
  next : {u v : System Out} → Reach t u → Step u v → Reach t v

-- `Runtime::start`: no job and no thread in between.
abbrev pub start : {Out : Type 0} → RuntimeConfig → System Out
start config = record { shared = new_shared config; debts = [] }
