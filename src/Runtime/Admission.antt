-- ===== src/Runtime/Admission.antt =====
-- Admission, the queue and the workers of crates/gitility-core/src/runtime/mod.rs.
pub mod Verdicts
use mathlib.Core.List.{reverse, map}
use gitility.Base.{
  ℕ, Bool, true, false, List, [], ◌∷◌, ◌++◌, Option, none, some, leb, if◌then◌else◌, length,
  wrapping_add,
}
use gitility.Budget.{Budget, BudgetLimits, new_budget, deadline_expired}
use gitility.Runtime.Job.{
  Job, queued, running, discard_task, try_start, terminal_of, run_result, Outcome, take_output,
}
use gitility.Runtime.Jobs.{find, jobs_of, add_job}
use gitility.Runtime.Shared.{
  Shared, Submitted, accepted, refused, SubmitError, busy, shutting_down, queue_full, owner_ceiling,
  with_job, publish_terminal, expire, cancel,
}

module _ {Out : Type 0} where
  -- `Job::deadline_expired`, of the job with an ID.
  unfoldable pub is_expired : ℕ → List (Job Out) → ℕ → Bool
  is_expired now jobs id = elim (find id jobs) [
    | none ↦ false
    | some j ↦ deadline_expired j.budget now
  ]

  -- `take_expired_queue_head`: the expired jobs at the head, and the queue behind them.
  unfoldable pub split_expired : ℕ → List (Job Out) → List ℕ → List ℕ × List ℕ
  unfolding is_expired
  split_expired now jobs [] = ([], [])
  split_expired now jobs (id ∷ queue) =
      let (expired, rest) = split_expired now jobs queue in
      if is_expired now jobs id then (id ∷ expired, rest) else ([], id ∷ queue)

  -- `publish_expired_jobs`.
  unfoldable pub expire_all : List ℕ → Shared Out → Shared Out
  unfolding expire
  expire_all [] s = s
  expire_all (id ∷ ids) s = expire_all ids (expire id s)

  unfoldable pub sweep : ℕ → Shared Out → List ℕ × Shared Out
  unfolding split_expired
  sweep now s =
      let (expired, rest) = split_expired now s.jobs s.queue in (expired, record s { queue = rest })

  unfoldable pub reject : SubmitError → Shared Out → Submitted × Shared Out
  reject e s = (
    refused e,
    record s { counters = record (s.counters) { rejected = wrapping_add s.counters.rejected 1 } },
  )

  -- The job that `submit` builds. The deadline is the instant of the call with the timeout added, and
  -- there is none where the sum is no instant.
  unfoldable pub fresh_job : ℕ → ℕ → BudgetLimits → Option ℕ → Job Out
  fresh_job id owner limits deadline = record {
    id = id;
    owner = owner;
    state = queued;
    budget = new_budget limits deadline false;
    task = true;
    output = none;
    notices = 0;
  }

  unfoldable pub enqueue : ℕ → BudgetLimits → Option ℕ → Shared Out → Submitted × Shared Out
  unfolding fresh_job
  enqueue owner limits deadline s =
      let id = s.next_job_id in
      (
        accepted id,
        record s {
          next_job_id = wrapping_add id 1;
          jobs = fresh_job id owner limits deadline ∷ s.jobs;
          active = (id, owner) ∷ s.active;
          owners = add_job owner s.owners;
          queue = s.queue ++ (id ∷ []);
          counters = record (s.counters) { submitted = wrapping_add s.counters.submitted 1 };
        },
      )

  -- `submit` behind its sweep, under the lock.
  unfoldable pub admit : ℕ → BudgetLimits → Option ℕ → Shared Out → Submitted × Shared Out
  unfolding reject enqueue
  admit owner limits deadline s =
      if s.is_shutting_down
      then reject shutting_down s
      else if leb s.config.max_jobs_per_owner (jobs_of owner s.owners)
      then reject (busy owner_ceiling s.config.retry_after_ms) s
      else if leb s.config.max_queue (length s.queue)
      then reject (busy queue_full s.config.retry_after_ms) s
      else enqueue owner limits deadline s

  -- `submit`: the sweep at its instant, then the admission.
  unfoldable pub submit : ℕ → ℕ → BudgetLimits → Option ℕ → Shared Out → Submitted × Shared Out
  unfolding sweep expire_all admit
  submit now owner limits deadline s =
      let (expired, s') = sweep now s in admit owner limits deadline (expire_all expired s')

  -- `begin_shutdown`: the active jobs in the order of their IDs, which `request_shutdown` cancels.
  unfoldable pub begin_shutdown : Shared Out → List ℕ × Shared Out
  begin_shutdown s =
      (reverse (map (λ e. e.0) s.active), record s { is_shutting_down = true; queue = [] })

  unfoldable pub cancel_all : List ℕ → Shared Out → Shared Out
  unfolding cancel
  cancel_all [] s = s
  cancel_all (id ∷ ids) s = cancel_all ids (cancel id s)

  -- `request_shutdown`, for the caller that finds the shutdown not started.
  unfoldable pub request_shutdown : Shared Out → Shared Out
  unfolding begin_shutdown cancel_all
  request_shutdown s = let (jobs, s') = begin_shutdown s in cancel_all jobs s'

  -- The exchange of `try_start`, of the job with an ID.
  unfoldable pub start_exchange : ℕ → Shared Out → Bool × Shared Out
  unfolding try_start
  start_exchange id s = elim (find id s.jobs) [
    | none ↦ (false, s)
    | some j ↦ if (try_start j).0 then (true, with_job id (λ k. (try_start k).1) s) else (false, s)
  ]

  unfoldable pub count_started : Shared Out → Shared Out
  count_started s = record s {
    counters = record (s.counters) { running = wrapping_add s.counters.running 1 };
  }

  -- `run` up to `finish_running`.
  unfoldable pub run_task : ℕ → ℕ → (Budget → Outcome Out × Budget) → ℕ → Shared Out → Shared Out
  unfolding run_result
  run_task now later effect id s = with_job id (λ k. (run_result now later effect k).1) s

  -- `run` with `finish_running`.
  unfoldable pub run_job : ℕ → ℕ → (Budget → Outcome Out × Budget) → ℕ → Shared Out → Shared Out
  unfolding publish_terminal run_task
  run_job now later effect id s = elim (find id s.jobs) [
    | none ↦ s
    | some j ↦
        let result = (run_result now later effect j).0 in
        (publish_terminal id running (terminal_of result) result (run_task now later effect id s)).1
  ]

  -- `worker_loop` behind the queue's lock, on a job that was taken from the queue.
  unfoldable pub work : ℕ → ℕ → (Budget → Outcome Out × Budget) → ℕ → Shared Out → Shared Out
  unfolding start_exchange count_started run_job
  work now later effect id s =
      let (started, s') = start_exchange id s in
      if started
      then run_job now later effect id (count_started s')
      else with_job id discard_task s'

  -- `take_output` of the job with an ID.
  unfoldable pub take_job_output : ℕ → Shared Out → Shared Out
  take_job_output id s = with_job id (λ j. (take_output j).1) s
