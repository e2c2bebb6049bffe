-- ===== src/Runtime/Threads/Occupancy.antt =====
-- The owners' active jobs and the queue of crates/gitility-core/src/runtime/mod.rs, and their
-- bounds.
mod Changes
pub mod Bounds
use mathlib.Core.Path.{subst, sym}
use gitility.Base.{
  ℕ, suc, ◌+◌, ◌-◌, ◌≤◌, ◌<◌, ◌≡◌, refl, ap, ◌∙◌, Bool, true, false, List, [], ◌∷◌, ◌++◌, Option,
  none, some, u64_mod, ◌==◌, if◌then◌else◌, length, length-append, All, arith, Bool-cases,
  Option-cases, inl, inr, ◌⊎◌, if-cases,
}
use gitility.Error.{Result, err}
use gitility.Budget.{BudgetLimits}
use gitility.Runtime.Job.{
  Job, JobState, queued, running, failed, cancelled, is_terminal, terminal_of, run_result,
  discard_task, try_start, exchange, raise_flag, take_output, notify, timeout_error,
  cancelled_error,
}
use gitility.Runtime.Job.Frames.{
  SameLife, exchange-id, try_start-id, exchange-owner, try_start-owner, take_output-SameLife,
  run_result-SameLife, discard_task-SameLife, raise_flag-SameLife,
}
use gitility.Runtime.Jobs.{find, update, jobs_of, add_job, drop_job, remove_active, unqueue}
use gitility.Runtime.Jobs.Owners.{
  AreDistinct, same, active_of, jobs_of-add_job, add_job-AreDistinct, jobs_of-drop_job,
  drop_job-AreDistinct, owner_at, AreOwned, owner_at-update, remove_active-AreOwned,
  active_of-remove_active, remove_active_absent,
}
use gitility.Runtime.Shared.{
  Shared, RuntimeConfig, new_shared, with_job, settle, record_terminal, cancel_flag, cancel_unqueue,
}
use gitility.Runtime.Admission.{
  sweep, admit, reject, enqueue, fresh_job, begin_shutdown, start_exchange, count_started, run_task,
  take_job_output, split_expired,
}
use gitility.Runtime.Threads.{
  Debt, started, ended, System, Step, sweeping, admitting, dequeuing, beginning, running_task,
  finishing, expiring, flagging, unqueuing, cancelling, discarding, paying, taking, shutting, Reach,
  here, next, start, on_shared, pay, publish, starting,
}
use gitility.Runtime.Threads.Cases.{
  changed, admit-cases, publish-cases, starting-cases, cancel_unqueue-jobs,
}
use gitility.Runtime.Threads.Notices.{IsNotified}
use gitility.Runtime.Threads.Notices.Once.{Step-IsNotified, Reach-IsNotified}

-- The queue and the owners stay within the configuration, and an owner's count is the number of
-- its active jobs.
pub record IsBounded (config : RuntimeConfig) (queue : List ℕ) (active owners : List (ℕ × ℕ))
    : Type 0 where
  pub queue_bound : length queue ≤ config.max_queue
  pub owner_bound : (o : ℕ) → jobs_of o owners ≤ config.max_jobs_per_owner
  pub count : (o : ℕ) → jobs_of o owners ≡ active_of o active
  pub distinct : AreDistinct owners

module _ {Out : Type 0} where
  abbrev pub Bounded : Shared Out → Type 0
  Bounded s = IsBounded s.config s.queue s.active s.owners

  -- What keeps the count right: an active entry and a debt have the owner of their job.
  abbrev pub DebtOwned : List (Job Out) → Debt Out → Type 0
  DebtOwned jobs (started _) = Unit
  DebtOwned jobs (ended j _ _) = owner_at j.id jobs ≡ some j.owner

  pub record IsLinked (jobs : List (Job Out)) (active : List (ℕ × ℕ)) (debts : List (Debt Out))
      : Type 0 where
    pub entries : AreOwned jobs active
    pub owing : All (DebtOwned jobs) debts

  -- The jobs change, but no owner does.
  entries-moved :
      (jobs jobs' : List (Job Out)) (active : List (ℕ × ℕ))
      → ((id o : ℕ) → owner_at id jobs ≡ some o → owner_at id jobs' ≡ some o)
      → AreOwned jobs active
      → AreOwned jobs' active
  entries-moved jobs jobs' [] f h = tt
  entries-moved jobs jobs' ((i, o) ∷ active) f h =
      (f i o h.0, entries-moved jobs jobs' active f h.1)

  debts-moved :
      (jobs jobs' : List (Job Out)) (debts : List (Debt Out))
      → ((id o : ℕ) → owner_at id jobs ≡ some o → owner_at id jobs' ≡ some o)
      → All (DebtOwned jobs) debts
      → All (DebtOwned jobs') debts
  debts-moved jobs jobs' [] f h = tt
  debts-moved jobs jobs' (started i ∷ debts) f h = (tt, debts-moved jobs jobs' debts f h.1)
  debts-moved jobs jobs' (ended j x y ∷ debts) f h =
      (f j.id j.owner h.0, debts-moved jobs jobs' debts f h.1)

  update-IsLinked :
      (id : ℕ) (f : Job Out → Job Out) (jobs : List (Job Out)) (active : List (ℕ × ℕ))
      (debts : List (Debt Out))
      → ((k : Job Out) → (f k).id ≡ k.id)
      → ((k : Job Out) → (f k).owner ≡ k.owner)
      → IsLinked jobs active debts
      → IsLinked (update id f jobs) active debts
  update-IsLinked id f jobs active debts ids owners v = record {
    entries =
        entries-moved jobs (update id f jobs) active
          (λ i o h. owner_at-update id i f jobs ids owners ∙ h) v.entries;
    owing =
        debts-moved jobs (update id f jobs) debts
          (λ i o h. owner_at-update id i f jobs ids owners ∙ h) v.owing;
  }

  pub Occupies : System Out → Type 0
  Occupies t = Bounded t.shared × IsLinked t.shared.jobs t.shared.active t.debts

  with_job-Occupies :
      (id : ℕ) (f : Job Out → Job Out) (t : System Out)
      → ((k : Job Out) → SameLife k (f k))
      → Occupies t
      → Occupies (on_shared (with_job id f) t)
  unfolding Occupies on_shared
  with_job-Occupies id f t keeps (b, v) = (
    b,
    update-IsLinked id f t.shared.jobs t.shared.active t.debts (λ k. (keeps k).same_id)
        (λ k. (keeps k).same_owner) v,
  )

  changed-Occupies :
      (id : ℕ) (f : Job Out → Job Out) (d : Debt Out) (t : System Out)
      → ((k : Job Out) → (f k).id ≡ k.id)
      → ((k : Job Out) → (f k).owner ≡ k.owner)
      → DebtOwned (update id f t.shared.jobs) d
      → Occupies t
      → Occupies (changed id t f d)
  unfolding Occupies
  changed-Occupies id f d t ids owners owned (b, v) =
      let w = update-IsLinked id f t.shared.jobs t.shared.active t.debts ids owners v in
      (b, record { entries = w.entries; owing = (owned, w.owing) })
