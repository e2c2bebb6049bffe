-- ===== src/Runtime/Tests.antt =====
-- A runtime with a queue of one and one job for each owner.
use gitility.Base.{
  ℕ, ◌<◌, ◌≤◌, ◌≡◌, ◌↔◌, ◌⊎◌, refl, true, false, [], ◌∷◌, Option, none, some, length, wrapping_add,
  arith,
}
use gitility.Error.{ok, err}
use gitility.Budget.{Budget, BudgetLimits, default_limits, new_budget, check}
use gitility.Runtime.Job.{
  Job, JobState, Outcome, returned, panicked, queued, running, failed, completed, cancelled,
  is_terminal, raw, from_raw, run_result, outcome_result, exchange, take_output, cancelled_error,
  panic_error,
}
use gitility.Runtime.Job.Endings.{run_result-Completes}
use gitility.Runtime.Jobs.{find, update, jobs_of}
use gitility.Runtime.Jobs.Lookup.{in_state}
use gitility.Runtime.Shared.{
  RuntimeConfig, new_shared, shutting_down, busy, owner_ceiling, queue_full, accepted, refused,
}
use gitility.Runtime.Admission.{admit, fresh_job, begin_shutdown, submit, work}
use gitility.Runtime.Admission.Verdicts.{admit-Accepts, admit-Refuses}
use gitility.Runtime.Threads.{
  Debt, ended, System, admitting, cancelling, paying, Reach, here, next, start, on_shared, pay,
  publish,
}
use gitility.Runtime.Threads.Counters.{IsCounted}
use gitility.Runtime.Threads.Counters.Tally.{Reach-IsCounted}
use gitility.Runtime.Threads.Notices.{IsNotified}
use gitility.Runtime.Threads.Notices.Once.{Reach-IsNotified}
use gitility.Runtime.Threads.Finality.{KeepsEnd, Reach-KeepsEnd}
use gitility.Runtime.Threads.Occupancy.{IsBounded}
use gitility.Runtime.Threads.Occupancy.Bounds.{Reach-IsBounded}
use gitility.Runtime.Threads.Shutdown.{named, begin_shutdown-Reaches}

abbrev config : RuntimeConfig
config = record {
  workers = 1;
  max_queue = 1;
  max_jobs_per_owner = 1;
  retry_after_ms = 100;
  shutdown_join_timeout_ms = 5_000;
}

-- Owner 7 submits a job.
abbrev one : System ℕ
one = on_shared (λ s. (admit 7 default_limits none s).1) (start config)

-- A thread that cancels it has made the exchange.
abbrev two : System ℕ
two = publish 1 queued cancelled (err cancelled_error) one

one_reached : Reach (start config) one
unfolding new_shared
one_reached = next here (admitting 7 default_limits none (omega arith))

two_reached : Reach (start config) two
two_reached = next one_reached (cancelling 1)

abbrev ended_job : Job ℕ
ended_job = record {
  id = 1;
  owner = 7;
  state = cancelled;
  budget = new_budget default_limits none false;
  task = true;
  output = some (err cancelled_error);
  notices = 0;
}

ended_found : find 1 two.shared.jobs ≡ some ended_job
unfolding find publish on_shared admit new_shared jobs_of exchange update
ended_found = refl

abbrev debt : Debt ℕ
debt = ended (fresh_job 1 7 default_limits none) queued cancelled

two_owes : two.debts ≡ debt ∷ []
unfolding publish find on_shared admit new_shared jobs_of exchange
two_owes = refl

-- It counts the end and calls the observer.
abbrev three : System ℕ
three = record { shared = pay debt two.shared; debts = [] }

three_reached : Reach two three
three_reached = next here (paying [] [] debt two_owes)

Reach-IsCounted_example : IsCounted two.shared.counters two.shared.jobs two.debts
Reach-IsCounted_example = Reach-IsCounted config two_reached

Reach-IsNotified_example : IsNotified two
Reach-IsNotified_example = Reach-IsNotified config two_reached

Reach-IsBounded_example : IsBounded config two.shared.queue two.shared.active two.shared.owners
Reach-IsBounded_example = Reach-IsBounded config two_reached

Reach-KeepsEnd_example : KeepsEnd 1 ended_job three.shared.jobs
Reach-KeepsEnd_example =
    Reach-KeepsEnd config 1 ended_job two_reached ended_found refl three_reached

begin_shutdown-Reaches_example :
    ((id : ℕ) (j : Job ℕ)
      → find id one.shared.jobs ≡ some j
      → is_terminal j.state ≡ false
      → named id (begin_shutdown one.shared).0 ≡ true)
    × ((begin_shutdown one.shared).1.queue ≡ [])
    × ((owner : ℕ) (limits : BudgetLimits) (deadline : Option ℕ)
        → (admit owner limits deadline (begin_shutdown one.shared).1).0 ≡ refused shutting_down)
begin_shutdown-Reaches_example = begin_shutdown-Reaches config one_reached

-- The task of the job returns 5.
abbrev effect : Budget → Outcome ℕ × Budget
effect b = (returned (ok 5), b)

run_result-Completes_example :
    ((run_result 3 4 effect ended_job).0 ≡ ok 5)
    ↔ ((check 3 ended_job.budget).0 ≡ ok tt)
      × (ended_job.task ≡ true)
      × ((effect ended_job.budget).0 ≡ returned (ok 5))
      × ((check 4 (effect ended_job.budget).1).0 ≡ ok tt)
run_result-Completes_example = run_result-Completes 3 4 effect ended_job 5

admit-Accepts_example :
    ((admit 8 default_limits none two.shared).0 ≡ accepted 2)
    ↔ (two.shared.is_shutting_down ≡ false)
      × (jobs_of 8 two.shared.owners < two.shared.config.max_jobs_per_owner)
      × (length two.shared.queue < two.shared.config.max_queue)
      × (2 ≡ two.shared.next_job_id)
admit-Accepts_example = admit-Accepts 8 default_limits none two.shared 2

full : (admit 7 default_limits none one.shared).0 ≡ refused (busy owner_ceiling 100)
unfolding admit on_shared new_shared jobs_of gitility.Runtime.Jobs.add_job
full = refl

admit-Refuses_example :
    (((busy owner_ceiling 100 ≡ shutting_down) × (one.shared.is_shutting_down ≡ true))
      ⊎ (((busy owner_ceiling 100 ≡ busy owner_ceiling one.shared.config.retry_after_ms)
            × (one.shared.is_shutting_down ≡ false)
            × (one.shared.config.max_jobs_per_owner ≤ jobs_of 7 one.shared.owners))
          ⊎ ((busy owner_ceiling 100 ≡ busy queue_full one.shared.config.retry_after_ms)
              × (one.shared.is_shutting_down ≡ false)
              × (jobs_of 7 one.shared.owners < one.shared.config.max_jobs_per_owner)
              × (one.shared.config.max_queue ≤ length one.shared.queue))))
    × ((admit 7 default_limits none one.shared).1 ≡ record (one.shared) {
      counters = record (one.shared.counters) {
        rejected = wrapping_add one.shared.counters.rejected 1;
      };
    })
admit-Refuses_example = admit-Refuses 7 default_limits none one.shared (busy owner_ceiling 100) full

-- The worker's turn with the job ends it.
served : in_state completed (work 3 4 effect 1 one.shared).jobs ≡ 1
unfolding work find on_shared admit new_shared jobs_of update check new_budget exchange
    gitility.Runtime.Jobs.Lookup.tally gitility.Runtime.Job.notify gitility.Runtime.Job.terminal_of
served = refl

panics : in_state failed (work 3 4 (λ b. (panicked, b)) 1 one.shared).jobs ≡ 1
unfolding work find on_shared admit new_shared jobs_of update check new_budget exchange
    gitility.Runtime.Jobs.Lookup.tally gitility.Runtime.Job.notify gitility.Runtime.Job.terminal_of
panics = refl

-- A job whose deadline passes in the queue.
abbrev timed : System ℕ
timed = on_shared (λ s. (admit 7 default_limits (some 5) s).1) (start config)

late : in_state failed (submit 9 8 default_limits none timed.shared).1.jobs ≡ 1
unfolding submit on_shared new_shared jobs_of find gitility.Budget.deadline_expired new_budget
    exchange gitility.Runtime.Jobs.remove_active gitility.Runtime.Jobs.drop_job
    gitility.Runtime.Jobs.add_job gitility.Runtime.Jobs.Lookup.tally update
    gitility.Runtime.Job.notify gitility.Runtime.Job.discard_task
late = refl

raw_states : (st : JobState) → from_raw (raw st) ≡ st
unfolding from_raw
raw_states queued = refl
raw_states running = refl
raw_states completed = refl
raw_states failed = refl
raw_states cancelled = refl
