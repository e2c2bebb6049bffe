-- ===== src/Runtime/Threads/Occupancy/Bounds.antt =====
-- The bounds of admission over the steps of the threads.
use mathlib.Core.Path.{subst, sym}
use gitility.Base.{
  ℕ, ◌≡◌, refl, ap, List, [], ◌∷◌, ◌++◌, Option, some, length, All, arith, Bool-cases, inl, inr,
  if-cases,
}
use gitility.Error.{err}
use gitility.Budget.{BudgetLimits}
use gitility.Runtime.Job.{
  Job, JobState, queued, running, failed, cancelled, terminal_of, run_result, discard_task,
  raise_flag, take_output, notify, timeout_error, cancelled_error,
}
use gitility.Runtime.Job.Frames.{
  take_output-SameLife, run_result-SameLife, discard_task-SameLife, raise_flag-SameLife,
}
use gitility.Runtime.Jobs.{jobs_of, remove_active}
use gitility.Runtime.Jobs.Owners.{
  AreDistinct, jobs_of-drop_job, drop_job-AreDistinct, owner_at, AreOwned, remove_active-AreOwned,
  active_of-remove_active, remove_active_absent,
}
use gitility.Runtime.Shared.{
  Shared, RuntimeConfig, new_shared, settle, record_terminal, cancel_flag,
}
use gitility.Runtime.Admission.{
  sweep, admit, begin_shutdown, count_started, run_task, take_job_output, split_expired,
}
use gitility.Runtime.Threads.{
  Debt, started, ended, System, Step, sweeping, admitting, dequeuing, beginning, running_task,
  finishing, expiring, flagging, unqueuing, cancelling, discarding, paying, taking, shutting, Reach,
  here, next, start, on_shared, pay,
}
use gitility.Runtime.Threads.Cases.{admit-cases}
use gitility.Runtime.Threads.Config.{Reach-config}
use gitility.Runtime.Threads.Notices.{IsNotified}
use gitility.Runtime.Threads.Notices.Once.{Reach-IsNotified}
use gitility.Runtime.Threads.Occupancy.{
  IsBounded, Bounded, DebtOwned, update-IsLinked, Occupies, with_job-Occupies,
}
use gitility.Runtime.Threads.Occupancy.Changes.{
  length-split_expired, reject-Occupies, shorter-Occupies, unqueue-Occupies, publish-Occupies,
  starting-Occupies, enqueue-Occupies,
}

module _ {Out : Type 0} where
  DebtOwned-middle :
      (jobs : List (Job Out)) (before behind : List (Debt Out)) (d : Debt Out)
      → All (DebtOwned jobs) (before ++ (d ∷ behind))
      → DebtOwned jobs d × All (DebtOwned jobs) (before ++ behind)
  DebtOwned-middle jobs [] behind d h = h
  DebtOwned-middle jobs (x ∷ before) behind d h =
      let (this, rest) = DebtOwned-middle jobs before behind d h.1 in (this, (h.0, rest))

  -- The maps behind the end of a job.
  record_terminal-IsBounded :
      (j : Job Out) (from terminal : JobState) (s : Shared Out)
      → AreOwned s.jobs s.active
      → owner_at j.id s.jobs ≡ some j.owner
      → Bounded s
      → Bounded (record_terminal j from terminal s)
  unfolding record_terminal
  record_terminal-IsBounded j from terminal s entries owned b =
      elim (Bool-cases (remove_active j.id s.active).1) [
        | inl e ↦ record {
          queue_bound = b.queue_bound;
          owner_bound =
              λ o. ground (arith, jobs_of-drop_job j.owner o s.owners b.distinct, b.owner_bound o);
          count = λ o. grind (
            arith,
            jobs_of-drop_job j.owner o s.owners b.distinct,
            b.count o,
            active_of-remove_active j.id j.owner o s.jobs s.active entries owned e,
          );
          distinct =
              if-cases AreDistinct (remove_active j.id s.active).1
                (λ _. drop_job-AreDistinct j.owner s.owners b.distinct) (λ _. b.distinct);
        }
        | inr e ↦ record {
          queue_bound = b.queue_bound;
          owner_bound = λ o. ground (arith, b.owner_bound o);
          count = λ o. grind (arith, b.count o, remove_active_absent j.id s.active e);
          distinct =
              if-cases AreDistinct (remove_active j.id s.active).1
                (λ _. drop_job-AreDistinct j.owner s.owners b.distinct) (λ _. b.distinct);
        }
      ]

  pay-Occupies :
      (before behind : List (Debt Out)) (d : Debt Out) (t : System Out)
      → t.debts ≡ before ++ (d ∷ behind)
      → Occupies t
      → Occupies (record { shared = pay d t.shared; debts = before ++ behind })
  unfolding Occupies pay count_started settle notify
  pay-Occupies before behind (started i) t e (b, v) = (
    b,
    record {
      entries = v.entries;
      owing =
          (DebtOwned-middle t.shared.jobs before behind (started i)
            (subst (All (DebtOwned t.shared.jobs)) e v.owing)).1;
    },
  )
  pay-Occupies before behind (ended j from terminal) t e (b, v) =
      let (owned, rest) =
        DebtOwned-middle t.shared.jobs before behind (ended j from terminal)
          (subst (All (DebtOwned t.shared.jobs)) e v.owing) in
      let c = record_terminal-IsBounded j from terminal t.shared v.entries owned b in
      (
        c,
        update-IsLinked j.id notify t.shared.jobs (record_terminal j from terminal t.shared).active
            (before ++ behind) (λ k. refl) (λ k. refl)
            (record {
              entries = remove_active-AreOwned j.id t.shared.jobs t.shared.active v.entries;
              owing = rest;
            }),
      )

  admit-Occupies :
      (owner : ℕ) (limits : BudgetLimits) (deadline : Option ℕ) (t : System Out)
      → IsNotified t
      → Occupies t
      → Occupies (on_shared (λ s. (admit owner limits deadline s).1) t)
  unfolding on_shared
  admit-Occupies owner limits deadline t n v = elim (admit-cases owner limits deadline t.shared) [
    | inl (e, room, space) ↦
        subst (λ s. Occupies (record t { shared = s })) (sym e)
          (enqueue-Occupies owner limits deadline t room space n v)
    | inr (x, e) ↦ subst (λ s. Occupies (record t { shared = s })) (sym e) (reject-Occupies x t v)
  ]

  shutdown-Occupies :
      (t : System Out) → Occupies t → Occupies (on_shared (λ s. (begin_shutdown s).1) t)
  unfolding Occupies on_shared begin_shutdown
  shutdown-Occupies t (b, v) = (
    record {
      queue_bound = omega arith;
      owner_bound = b.owner_bound;
      count = b.count;
      distinct = b.distinct;
    },
    v,
  )

  Step-Occupies : {t u : System Out} → Step t u → IsNotified t → Occupies t → Occupies u
  unfolding on_shared run_task cancel_flag take_job_output sweep
  Step-Occupies {t} (sweeping now) n v =
      shorter-Occupies t (split_expired now t.shared.jobs t.shared.queue).1
        (length-split_expired now t.shared.jobs t.shared.queue) v
  Step-Occupies {t} (admitting owner limits deadline room) n v =
      admit-Occupies owner limits deadline t n v
  Step-Occupies {t} (dequeuing id queue e) n v =
      shorter-Occupies t queue (omega (arith, ap length e)) v
  Step-Occupies {t} (beginning id) n v = starting-Occupies id t v
  Step-Occupies {t} (running_task id now later effect) n v =
      with_job-Occupies id (λ k. (run_result now later effect k).1) t
        (run_result-SameLife now later effect) v
  Step-Occupies {t} (finishing id result) n v =
      publish-Occupies id running (terminal_of result) result t v
  Step-Occupies {t} (expiring id) n v = publish-Occupies id queued failed (err timeout_error) t v
  Step-Occupies {t} (flagging id) n v = with_job-Occupies id raise_flag t raise_flag-SameLife v
  Step-Occupies {t} (unqueuing id) n v = unqueue-Occupies id t v
  Step-Occupies {t} (cancelling id) n v =
      publish-Occupies id queued cancelled (err cancelled_error) t v
  Step-Occupies {t} (discarding id) n v =
      with_job-Occupies id discard_task t discard_task-SameLife v
  Step-Occupies {t} (paying before behind d e) n v = pay-Occupies before behind d t e v
  Step-Occupies {t} (taking id) n v =
      with_job-Occupies id (λ k. (take_output k).1) t take_output-SameLife v
  Step-Occupies {t} shutting n v = shutdown-Occupies t v

  Reach-Occupies : (config : RuntimeConfig) {t : System Out} → Reach (start config) t → Occupies t
  unfolding Occupies new_shared jobs_of
  Reach-Occupies config here = (
    record {
      queue_bound = omega arith;
      owner_bound = λ o. omega arith;
      count = λ o. refl;
      distinct = tt;
    },
    record { entries = tt; owing = tt },
  )
  Reach-Occupies config (next r st) =
      Step-Occupies st (Reach-IsNotified config r) (Reach-Occupies config r)

  -- In every state that the threads reach from a new runtime, by any interleaving, the queue holds at
  -- most `max_queue` jobs, no owner has more than `max_jobs_per_owner` active jobs, and the count of
  -- each owner is the number of its active jobs, in one entry.
  pub Reach-IsBounded :
      (config : RuntimeConfig) {t : System Out}
      → Reach (start config) t
      → IsBounded config t.shared.queue t.shared.active t.shared.owners
  unfolding Occupies
  Reach-IsBounded config {t} r =
      subst (λ c. IsBounded c t.shared.queue t.shared.active t.shared.owners)
        (Reach-config config r) (Reach-Occupies config r).0
