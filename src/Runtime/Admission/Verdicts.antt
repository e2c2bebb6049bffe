-- ===== src/Runtime/Admission/Verdicts.antt =====
-- The verdicts of `submit` in crates/gitility-core/src/runtime/mod.rs.
use gitility.Base.{ℕ, ◌<◌, ◌≤◌, ◌≡◌, true, false, ◌↔◌, ◌⊎◌, Option, arith, length, wrapping_add}
use gitility.Budget.{BudgetLimits}
use gitility.Runtime.Jobs.{jobs_of}
use gitility.Runtime.Shared.{
  Shared, accepted, refused, SubmitError, busy, shutting_down, queue_full, owner_ceiling,
}
use gitility.Runtime.Admission.{admit, reject, enqueue}

module _ {Out : Type 0} (owner : ℕ) (limits : BudgetLimits) (deadline : Option ℕ)
    (s : Shared Out) where
  -- A job is admitted, under the next ID, exactly when no shutdown has begun, its owner is below the
  -- ceiling and the queue has room.
  pub admit-Accepts :
      (id : ℕ)
      → ((admit owner limits deadline s).0 ≡ accepted id)
        ↔ (s.is_shutting_down ≡ false)
          × (jobs_of owner s.owners < s.config.max_jobs_per_owner)
          × (length s.queue < s.config.max_queue)
          × (id ≡ s.next_job_id)
  unfolding admit reject enqueue
  admit-Accepts id = ground arith

  -- A refusal names the first reason of: a shutdown has begun, the owner is at its ceiling, the queue
  -- is full; with the retry delay of the configuration for the last two. It changes nothing but the
  -- counter of rejected submissions.
  pub admit-Refuses :
      (x : SubmitError)
      → (admit owner limits deadline s).0 ≡ refused x
      → (((x ≡ shutting_down) × (s.is_shutting_down ≡ true))
          ⊎ (((x ≡ busy owner_ceiling s.config.retry_after_ms)
                × (s.is_shutting_down ≡ false)
                × (s.config.max_jobs_per_owner ≤ jobs_of owner s.owners))
              ⊎ ((x ≡ busy queue_full s.config.retry_after_ms)
                  × (s.is_shutting_down ≡ false)
                  × (jobs_of owner s.owners < s.config.max_jobs_per_owner)
                  × (s.config.max_queue ≤ length s.queue))))
        × ((admit owner limits deadline s).1 ≡ record s {
          counters = record (s.counters) { rejected = wrapping_add s.counters.rejected 1 };
        })
  unfolding admit reject enqueue
  admit-Refuses x h = ground arith
