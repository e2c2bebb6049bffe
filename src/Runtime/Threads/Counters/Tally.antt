-- ===== src/Runtime/Threads/Counters/Tally.antt =====
-- The counters of crates/gitility-core/src/runtime/mod.rs over the steps of the threads.
use mathlib.Core.Path.{subst, sym}
use gitility.Base.{ℕ, ◌≡◌, refl, true, false, List, ◌∷◌, ◌++◌, Option, arith, inl, inr}
use gitility.Error.{Result, err}
use gitility.Runtime.Job.{
  Job, JobState, queued, running, completed, failed, cancelled, is_terminal, terminal_of,
  run_result, discard_task, try_start, exchange, timeout_error, cancelled_error, raise_flag,
  take_output, notify,
}
use gitility.Budget.{BudgetLimits}
use gitility.Runtime.Job.Frames.{
  SameLife, run_result-SameLife, discard_task-SameLife, raise_flag-SameLife, take_output-SameLife,
  terminal_of-is_terminal,
}
use gitility.Runtime.Jobs.Lookup.{tally, in_state-update_same, length-update}
use gitility.Runtime.Shared.{
  Shared, RuntimeConfig, new_shared, with_job, settle, cancel_flag, cancel_unqueue, record_terminal,
  count_from, count_terminal,
}
use gitility.Runtime.Admission.{
  sweep, admit, begin_shutdown, start_exchange, count_started, run_task, reject, enqueue, fresh_job,
  take_job_output,
}
use gitility.Runtime.Threads.{
  sweeping, admitting, dequeuing, beginning, running_task, finishing, expiring, flagging, unqueuing,
  cancelling, discarding, paying, taking, shutting, here, next, start, on_shared, Debt, started,
  ended, System, Step, Reach, pay, publish, starting,
}
use gitility.Runtime.Threads.Cases.{publish-cases, starting-cases}
use gitility.Runtime.Threads.Counters.{
  IsCounted, owed-middle, owed_starts-middle, owed_ends-middle, kept, exchanged, begun,
}

module _ {Out : Type 0} where
  Counts : System Out → Type 0
  Counts t = IsCounted t.shared.counters t.shared.jobs t.debts

  publish-Counts :
      (id : ℕ) (from terminal : JobState) (result : Result Out) (t : System Out)
      → is_terminal from ≡ false
      → is_terminal terminal ≡ true
      → Counts t
      → Counts (publish id from terminal result t)
  unfolding Counts
  publish-Counts id from terminal result t active over v =
      elim (publish-cases id t from terminal result) [
        | inl e ↦ subst Counts (sym e) v
        | inr (j, found, at, ends, e) ↦ subst Counts (sym e) (
            exchanged t.shared.counters id (λ k. (exchange from terminal result k).1) t.shared.jobs
              t.debts j from terminal active over found at ends v)
      ]

  starting-Counts :
      (id : ℕ) (t : System Out)
      → Counts t
      → Counts (starting id t.debts (start_exchange id t.shared))
  unfolding Counts
  starting-Counts id t v = elim (starting-cases id t) [
    | inl e ↦ subst Counts (sym e) v
    | inr (j, found, at, runs, e) ↦
        subst Counts (sym e) (
          begun t.shared.counters id (λ k. (try_start k).1) t.shared.jobs t.debts j found at runs v)
  ]

  pay-Counts :
      (before behind : List (Debt Out)) (d : Debt Out) (s : Shared Out)
      → IsCounted s.counters s.jobs (before ++ (d ∷ behind))
      → IsCounted (pay d s).counters (pay d s).jobs (before ++ behind)
  unfolding pay count_started settle record_terminal count_from count_terminal notify tally
  pay-Counts before behind (started i) s v = ground (
    arith,
    owed-middle completed before behind (started i),
    owed-middle failed before behind (started i),
    owed-middle cancelled before behind (started i),
    owed_starts-middle before behind (started i),
    owed_ends-middle before behind (started i),
  )
  pay-Counts before behind (ended j from terminal) s v = ground (
    arith,
    length-update j.id notify s.jobs,
    in_state-update_same completed j.id notify s.jobs (λ k. refl),
    in_state-update_same failed j.id notify s.jobs (λ k. refl),
    in_state-update_same cancelled j.id notify s.jobs (λ k. refl),
    in_state-update_same running j.id notify s.jobs (λ k. refl),
    owed-middle completed before behind (ended j from terminal),
    owed-middle failed before behind (ended j from terminal),
    owed-middle cancelled before behind (ended j from terminal),
    owed_starts-middle before behind (ended j from terminal),
    owed_ends-middle before behind (ended j from terminal),
  )

  admit-Counts :
      (owner : ℕ) (limits : BudgetLimits) (deadline : Option ℕ) (t : System Out)
      → Counts t
      → Counts (on_shared (λ s. (admit owner limits deadline s).1) t)
  unfolding Counts on_shared admit reject enqueue fresh_job tally
  admit-Counts owner limits deadline t v = ground arith

  sweep-Counts : (now : ℕ) (t : System Out) → Counts t → Counts (on_shared (λ s. (sweep now s).1) t)
  unfolding Counts on_shared sweep
  sweep-Counts now t v = v

  with_job-Counts :
      (id : ℕ) (f : Job Out → Job Out) (t : System Out)
      → ((k : Job Out) → SameLife k (f k))
      → Counts t
      → Counts (on_shared (with_job id f) t)
  unfolding Counts on_shared
  with_job-Counts id f t keeps v =
      kept t.shared.counters id f t.shared.jobs t.debts (λ k. (keeps k).same_state) v

  unqueue-Counts : (id : ℕ) (t : System Out) → Counts t → Counts (on_shared (cancel_unqueue id) t)
  unfolding Counts on_shared cancel_unqueue
  unqueue-Counts id t v = ground arith

  Step-Counts : {t u : System Out} → Step t u → Counts t → Counts u
  unfolding Counts on_shared run_task cancel_flag take_job_output begin_shutdown
  Step-Counts {t} (sweeping now) v = sweep-Counts now t v
  Step-Counts {t} (admitting owner limits deadline room) v = admit-Counts owner limits deadline t v
  Step-Counts (dequeuing id queue e) v = v
  Step-Counts {t} (beginning id) v = starting-Counts id t v
  Step-Counts {t} (running_task id now later effect) v =
      with_job-Counts id (λ k. (run_result now later effect k).1) t
        (run_result-SameLife now later effect) v
  Step-Counts {t} (finishing id result) v =
      publish-Counts id running (terminal_of result) result t refl (terminal_of-is_terminal result)
        v
  Step-Counts {t} (expiring id) v =
      publish-Counts id queued failed (err timeout_error) t refl refl v
  Step-Counts {t} (flagging id) v = with_job-Counts id raise_flag t raise_flag-SameLife v
  Step-Counts {t} (unqueuing id) v = unqueue-Counts id t v
  Step-Counts {t} (cancelling id) v =
      publish-Counts id queued cancelled (err cancelled_error) t refl refl v
  Step-Counts {t} (discarding id) v = with_job-Counts id discard_task t discard_task-SameLife v
  Step-Counts {t} (paying before behind d e) v =
      pay-Counts before behind d t.shared (subst (IsCounted t.shared.counters t.shared.jobs) e v)
  Step-Counts {t} (taking id) v =
      with_job-Counts id (λ k. (take_output k).1) t take_output-SameLife v
  Step-Counts shutting v = v

  -- In every state that the threads reach from a new runtime, by any interleaving, each counter, up
  -- to a multiple of 2^64, is the number of jobs in its state once the threads that are between an
  -- exchange and its bookkeeping have paid what they owe it; every admitted job was counted once as
  -- submitted.
  pub Reach-IsCounted :
      (config : RuntimeConfig) {t : System Out}
      → Reach (start config) t
      → IsCounted t.shared.counters t.shared.jobs t.debts
  unfolding new_shared Counts
  Reach-IsCounted config here = record {
    all = refl;
    completes = refl;
    fails = refl;
    cancels = refl;
    runs = refl;
  }
  Reach-IsCounted config (next r st) = Step-Counts st (Reach-IsCounted config r)
