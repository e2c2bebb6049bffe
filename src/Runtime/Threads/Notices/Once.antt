-- ===== src/Runtime/Threads/Notices/Once.antt =====
-- The calls of the observers over the steps of the threads.
use mathlib.Core.Path.{subst, sym}
use gitility.Base.{
  ℕ, ◌+◌, ◌≤◌, ◌<◌, ◌≡◌, refl, ap, ◌∙◌, List, ◌∷◌, ◌++◌, Option, none, some, u64_mod, ◌==◌, arith,
  Bool-cases, inl, inr,
}
use gitility.Error.{err}
use gitility.Budget.{BudgetLimits}
use gitility.Runtime.Job.{
  Job, queued, running, failed, cancelled, is_terminal, terminal_of, run_result, discard_task,
  raise_flag, take_output, notify, timeout_error, cancelled_error,
}
use gitility.Runtime.Job.Frames.{
  run_result-SameLife, discard_task-SameLife, raise_flag-SameLife, take_output-SameLife,
  terminal_of-is_terminal,
}
use gitility.Runtime.Jobs.{find, update}
use gitility.Runtime.Jobs.Lookup.{find-update, find-update_absent}
use gitility.Runtime.Shared.{
  RuntimeConfig, new_shared, settle, record_terminal, cancel_flag, cancel_unqueue,
}
use gitility.Runtime.Admission.{
  sweep, admit, reject, enqueue, fresh_job, begin_shutdown, count_started, run_task,
  take_job_output,
}
use gitility.Runtime.Threads.{
  Debt, started, ended, System, Step, sweeping, admitting, dequeuing, beginning, running_task,
  finishing, expiring, flagging, unqueuing, cancelling, discarding, paying, taking, shutting, Reach,
  here, next, start, on_shared, pay,
}
use gitility.Runtime.Threads.Cases.{admit-cases}
use gitility.Runtime.Threads.Notices.{
  indicator, owed_notices, owed_notices-middle, IsNotified, with_job-IsNotified, same-IsNotified,
  publish-IsNotified, starting-IsNotified,
}

module _ {Out : Type 0} where
  unqueue-IsNotified :
      (id : ℕ) (t : System Out) → IsNotified t → IsNotified (on_shared (cancel_unqueue id) t)
  unfolding on_shared cancel_unqueue
  unqueue-IsNotified id t v =
      same-IsNotified t (on_shared (cancel_unqueue id) t) (grind arith) (grind arith) (λ _. refl) v

  enqueue-IsNotified :
      (owner : ℕ) (limits : BudgetLimits) (deadline : Option ℕ) (t : System Out)
      → t.shared.next_job_id + 1 < u64_mod
      → IsNotified t
      → IsNotified (on_shared (λ s. (enqueue owner limits deadline s).1) t)
  unfolding on_shared enqueue fresh_job find
  enqueue-IsNotified owner limits deadline t room v = record {
    once = λ id j h. elim (Bool-cases (t.shared.next_job_id == id)) [
      | inl e ↦ grind (arith, (v.unborn id (grind arith)).1)
      | inr e ↦ grind (arith, v.once id j)
    ];
    unborn = λ id h. (grind (arith, (v.unborn id (grind arith)).0), (v.unborn id (grind arith)).1);
  }

  admit-IsNotified :
      (owner : ℕ) (limits : BudgetLimits) (deadline : Option ℕ) (t : System Out)
      → t.shared.next_job_id + 1 < u64_mod
      → IsNotified t
      → IsNotified (on_shared (λ s. (admit owner limits deadline s).1) t)
  unfolding on_shared reject
  admit-IsNotified owner limits deadline t room v =
      elim (admit-cases owner limits deadline t.shared) [
        | inl (e, _, _) ↦
            subst (λ s. IsNotified (record t { shared = s })) (sym e)
              (enqueue-IsNotified owner limits deadline t room v)
        | inr (x, e) ↦
            subst (λ s. IsNotified (record t { shared = s })) (sym e)
              (same-IsNotified t (record t { shared = (reject x t.shared).1 }) refl refl (λ _. refl)
                v)
      ]

  pay-IsNotified :
      (before behind : List (Debt Out)) (d : Debt Out) (t : System Out)
      → t.debts ≡ before ++ (d ∷ behind)
      → IsNotified t
      → IsNotified (record { shared = pay d t.shared; debts = before ++ behind })
  unfolding pay count_started settle record_terminal notify
  pay-IsNotified before behind (started i) t e v =
      same-IsNotified t (record { shared = pay (started i) t.shared; debts = before ++ behind })
        refl refl
        (λ id. sym (ap (owed_notices id) e ∙ owed_notices-middle id before behind (started i))) v
  pay-IsNotified before behind (ended j from terminal) t e v = record {
    once = once;
    unborn = unborn;
  }
    where
      debt :
          (id : ℕ)
          → owed_notices id t.debts ≡ indicator (j.id == id) + owed_notices id (before ++ behind)
      debt id =
          ap (owed_notices id) e ∙ owed_notices-middle id before behind (ended j from terminal)

      once :
          (other : ℕ) (k : Job Out)
          → find other (update j.id notify t.shared.jobs) ≡ some k
          → k.notices + owed_notices other (before ++ behind) ≡ indicator (is_terminal k.state)
      once other k h =
          let (i, there, now) = find-update j.id other notify t.shared.jobs (λ x. refl) h in
          elim now [
            | inl (apart, same) ↦ grind (arith, v.once other i there, debt other)
            | inr (is, same) ↦ grind (arith, v.once other i there, debt other)
          ]

      unborn :
          (other : ℕ)
          → t.shared.next_job_id ≤ other
          → (find other (update j.id notify t.shared.jobs) ≡ none)
            × (owed_notices other (before ++ behind) ≡ 0)
      unborn other h = (
        find-update_absent j.id other notify t.shared.jobs (λ x. refl) (v.unborn other h).0,
        grind (arith, (v.unborn other h).1, debt other),
      )

  pub Step-IsNotified : {t u : System Out} → Step t u → IsNotified t → IsNotified u
  unfolding on_shared run_task cancel_flag take_job_output begin_shutdown sweep
  Step-IsNotified {t} (sweeping now) v =
      same-IsNotified t (on_shared (λ s. (sweep now s).1) t) refl refl (λ _. refl) v
  Step-IsNotified {t} (admitting owner limits deadline room) v =
      admit-IsNotified owner limits deadline t room v
  Step-IsNotified {t} (dequeuing id queue e) v =
      same-IsNotified t (on_shared (λ s. record s { queue = queue }) t) refl refl (λ _. refl) v
  Step-IsNotified {t} (beginning id) v = starting-IsNotified id t v
  Step-IsNotified {t} (running_task id now later effect) v =
      with_job-IsNotified id (λ k. (run_result now later effect k).1) t
        (run_result-SameLife now later effect) v
  Step-IsNotified {t} (finishing id result) v =
      publish-IsNotified id running (terminal_of result) result t refl
        (terminal_of-is_terminal result) v
  Step-IsNotified {t} (expiring id) v =
      publish-IsNotified id queued failed (err timeout_error) t refl refl v
  Step-IsNotified {t} (flagging id) v = with_job-IsNotified id raise_flag t raise_flag-SameLife v
  Step-IsNotified {t} (unqueuing id) v = unqueue-IsNotified id t v
  Step-IsNotified {t} (cancelling id) v =
      publish-IsNotified id queued cancelled (err cancelled_error) t refl refl v
  Step-IsNotified {t} (discarding id) v =
      with_job-IsNotified id discard_task t discard_task-SameLife v
  Step-IsNotified {t} (paying before behind d e) v = pay-IsNotified before behind d t e v
  Step-IsNotified {t} (taking id) v =
      with_job-IsNotified id (λ k. (take_output k).1) t take_output-SameLife v
  Step-IsNotified {t} shutting v =
      same-IsNotified t (on_shared (λ s. (begin_shutdown s).1) t) refl refl (λ _. refl) v

  -- In every state that the threads reach from a new runtime, by any interleaving, the calls that the
  -- observer of a job has had, with those that threads still owe it, are one if the job has reached
  -- its end and none otherwise; no job and no call belongs to an ID that was not handed out yet.
  pub Reach-IsNotified :
      (config : RuntimeConfig) {t : System Out} → Reach (start config) t → IsNotified t
  unfolding new_shared find
  Reach-IsNotified config here = record {
    once = λ id j h. absurd (cc);
    unborn = λ id h. (refl, refl);
  }
  Reach-IsNotified config (next r st) = Step-IsNotified st (Reach-IsNotified config r)
