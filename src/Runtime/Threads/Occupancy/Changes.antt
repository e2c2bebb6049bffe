-- ===== src/Runtime/Threads/Occupancy/Changes.antt =====
-- The bounds of admission over exchanges, changes of the queue and admissions.
use mathlib.Core.Path.{subst, sym}
use gitility.Base.{
  ℕ, suc, ◌≤◌, ◌<◌, ◌≡◌, ◌∙◌, List, [], ◌∷◌, Option, some, length, length-append, arith, inl, inr,
  if-cases,
}
use gitility.Error.{Result}
use gitility.Budget.{BudgetLimits}
use gitility.Runtime.Job.{Job, JobState, try_start, exchange}
use gitility.Runtime.Job.Frames.{exchange-id, try_start-id, exchange-owner, try_start-owner}
use gitility.Runtime.Jobs.{jobs_of, unqueue}
use gitility.Runtime.Jobs.Owners.{
  same, jobs_of-add_job, add_job-AreDistinct, owner_at, owner_at-found, owner_at-first,
  owner_at-behind, owner_at-update,
}
use gitility.Runtime.Shared.{SubmitError, cancel_unqueue}
use gitility.Runtime.Admission.{
  reject, enqueue, fresh_job, start_exchange, split_expired, is_expired,
}
use gitility.Runtime.Threads.{started, ended, System, on_shared, publish, starting}
use gitility.Runtime.Threads.Cases.{publish-cases, starting-cases, cancel_unqueue-cases}
use gitility.Runtime.Threads.Notices.{IsNotified}
use gitility.Runtime.Threads.Occupancy.{entries-moved, debts-moved, Occupies, changed-Occupies}

pub length-split_expired :
    {Out : Type 0} (now : ℕ) (jobs : List (Job Out)) (queue : List ℕ)
    → length (split_expired now jobs queue).1 ≤ length queue
unfolding split_expired is_expired
length-split_expired now jobs [] = omega arith
length-split_expired now jobs (id ∷ queue) =
    if-cases {A = List ℕ × List ℕ} (λ r. length r.1 ≤ suc (length queue)) (is_expired now jobs id)
      (λ _. omega (arith, length-split_expired now jobs queue)) (λ _. omega arith)

pub length-unqueue : (id : ℕ) (queue : List ℕ) → length (unqueue id queue) ≤ length queue
unfolding unqueue
length-unqueue id [] = omega arith
length-unqueue id (i ∷ queue) = ground (arith, length-unqueue id queue)

module _ {Out : Type 0} where
  pub reject-Occupies :
      (x : SubmitError) (t : System Out)
      → Occupies t
      → Occupies (record t { shared = (reject x t.shared).1 })
  unfolding Occupies reject
  reject-Occupies x t (b, v) = (b, v)

  -- A step that only touches the queue, and makes it no longer.
  pub shorter-Occupies :
      (t : System Out) (queue : List ℕ)
      → length queue ≤ length t.shared.queue
      → Occupies t
      → Occupies (on_shared (λ s. record s { queue = queue }) t)
  unfolding Occupies on_shared
  shorter-Occupies t queue h (b, v) = (
    record {
      queue_bound = omega (arith, b.queue_bound);
      owner_bound = b.owner_bound;
      count = b.count;
      distinct = b.distinct;
    },
    v,
  )

  pub unqueue-Occupies :
      (id : ℕ) (t : System Out) → Occupies t → Occupies (on_shared (cancel_unqueue id) t)
  unfolding on_shared
  unqueue-Occupies id t v = elim (cancel_unqueue-cases id t.shared) [
    | inl e ↦ subst (λ s. Occupies (record t { shared = s })) (sym e) v
    | inr e ↦
        subst (λ s. Occupies (record t { shared = s })) (sym e)
          (shorter-Occupies t (unqueue id t.shared.queue) (length-unqueue id t.shared.queue) v)
  ]

  pub publish-Occupies :
      (id : ℕ) (from terminal : JobState) (result : Result Out) (t : System Out)
      → Occupies t
      → Occupies (publish id from terminal result t)
  publish-Occupies id from terminal result t v = elim (publish-cases id t from terminal result) [
    | inl e ↦ subst Occupies (sym e) v
    | inr (j, found, at, ends, e) ↦ subst Occupies (sym e) (
        changed-Occupies id (λ k. (exchange from terminal result k).1) (ended j from terminal) t
          (exchange-id from terminal result) (exchange-owner from terminal result)
          (owner_at-update id j.id (λ k. (exchange from terminal result k).1) t.shared.jobs
              (exchange-id from terminal result) (exchange-owner from terminal result)
            ∙ owner_at-found id t.shared.jobs found)
          v)
  ]

  pub starting-Occupies :
      (id : ℕ) (t : System Out)
      → Occupies t
      → Occupies (starting id t.debts (start_exchange id t.shared))
  starting-Occupies id t v = elim (starting-cases id t) [
    | inl e ↦ subst Occupies (sym e) v
    | inr (j, found, at, runs, e) ↦ subst Occupies (sym e) (
        changed-Occupies id (λ k. (try_start k).1) (started id) t try_start-id try_start-owner tt v)
  ]

  pub enqueue-Occupies :
      (owner : ℕ) (limits : BudgetLimits) (deadline : Option ℕ) (t : System Out)
      → jobs_of owner t.shared.owners < t.shared.config.max_jobs_per_owner
      → length t.shared.queue < t.shared.config.max_queue
      → IsNotified t
      → Occupies t
      → Occupies (on_shared (λ s. (enqueue owner limits deadline s).1) t)
  unfolding Occupies on_shared enqueue fresh_job same
  enqueue-Occupies owner limits deadline t room space n (b, v) = (
    record {
      queue_bound = omega (arith, length-append t.shared.queue (t.shared.next_job_id ∷ []));
      owner_bound = λ o. ground (arith, jobs_of-add_job owner o t.shared.owners, b.owner_bound o);
      count = λ o. ground (arith, jobs_of-add_job owner o t.shared.owners, b.count o);
      distinct = add_job-AreDistinct owner t.shared.owners b.distinct;
    },
    record {
      entries = (
        owner_at-first (fresh_job t.shared.next_job_id owner limits deadline) t.shared.jobs,
        entries-moved t.shared.jobs jobs t.shared.active moved v.entries,
      );
      owing = debts-moved t.shared.jobs jobs t.debts moved v.owing;
    },
  )
    where
      jobs : List (Job Out)
      jobs = fresh_job t.shared.next_job_id owner limits deadline ∷ t.shared.jobs

      moved : (i o : ℕ) → owner_at i t.shared.jobs ≡ some o → owner_at i jobs ≡ some o
      moved i o h =
          owner_at-behind (fresh_job t.shared.next_job_id owner limits deadline) t.shared.jobs i o
            (n.unborn t.shared.next_job_id (omega arith)).0 h
