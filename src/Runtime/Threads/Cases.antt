-- ===== src/Runtime/Threads/Cases.antt =====
-- The outcomes of the exchanges, the admission and the queue step of the threads.
use gitility.Base.{
  length, ◌<◌, leb, ℕ, Option, ℕ, ◌≡◌, true, ◌∷◌, some, arith, ◌⊎◌, inl, inr, Bool-cases,
  Option-cases,
}
use gitility.Error.{Result}
use gitility.Runtime.Job.{Job, JobState, queued, running, exchange, try_start, state_eq}
use gitility.Budget.{BudgetLimits}
use gitility.Runtime.Jobs.{unqueue, jobs_of, find}
use gitility.Runtime.Shared.{
  Shared, cancel_unqueue, SubmitError, busy, shutting_down, owner_ceiling, queue_full, with_job,
  exchange_job,
}
use gitility.Runtime.Admission.{admit, enqueue, reject, start_exchange}
use gitility.Runtime.Threads.{Debt, started, ended, System, publish, published, starting}

pub state_eq-eq : (a b : JobState) → state_eq a b ≡ true → a ≡ b
state_eq-eq a b h = ground arith

module _ {Out : Type 0} (id : ℕ) (t : System Out) where
  -- The state behind a change of the job, with what is owed for it.
  abbrev pub changed : (Job Out → Job Out) → Debt Out → System Out
  changed f d = record { shared = with_job id f t.shared; debts = d ∷ t.debts }

  pub publish-cases :
      (from terminal : JobState) (result : Result Out)
      → (publish id from terminal result t ≡ t)
        ⊎ ((j : Job Out) × (find id t.shared.jobs ≡ some j)
            × (j.state ≡ from)
            × ((exchange from terminal result j).1.state ≡ terminal)
            × (publish id from terminal result t
                ≡ changed (λ k. (exchange from terminal result k).1) (ended j from terminal)))
  unfolding publish published exchange_job exchange
  publish-cases from terminal result = elim (Option-cases (find id t.shared.jobs)) [
    | inl e ↦ inl (ground (arith))
    | inr (j, e) ↦ elim (Bool-cases (state_eq j.state from)) [
      | inl h ↦ inr (j, e, state_eq-eq j.state from h, ground (arith), ground (arith))
      | inr h ↦ inl (ground (arith))
    ]
  ]

  pub starting-cases :
      (starting id t.debts (start_exchange id t.shared) ≡ t)
      ⊎ ((j : Job Out) × (find id t.shared.jobs ≡ some j)
          × (j.state ≡ queued)
          × ((try_start j).1.state ≡ running)
          × (starting id t.debts (start_exchange id t.shared)
              ≡ changed (λ k. (try_start k).1) (started id)))
  unfolding starting start_exchange try_start
  starting-cases = elim (Option-cases (find id t.shared.jobs)) [
    | inl e ↦ inl (ground (arith))
    | inr (j, e) ↦ elim (Bool-cases (state_eq j.state queued)) [
      | inl h ↦ inr (j, e, state_eq-eq j.state queued h, ground (arith), ground (arith))
      | inr h ↦ inl (ground (arith))
    ]
  ]

-- An admission is a refusal or an enqueued job, for the conditions of the code.
pub admit-cases :
    {Out : Type 0} (owner : ℕ) (limits : BudgetLimits) (deadline : Option ℕ) (s : Shared Out)
    → (((admit owner limits deadline s).1 ≡ (enqueue owner limits deadline s).1)
        × (jobs_of owner s.owners < s.config.max_jobs_per_owner)
        × (length s.queue < s.config.max_queue))
      ⊎ ((x : SubmitError) × ((admit owner limits deadline s).1 ≡ (reject x s).1))
unfolding admit
admit-cases owner limits deadline s = elim (Bool-cases s.is_shutting_down) [
  | inl e ↦ inr (shutting_down, ground arith)
  | inr e ↦ elim (Bool-cases (leb s.config.max_jobs_per_owner (jobs_of owner s.owners))) [
    | inl f ↦ inr (busy owner_ceiling s.config.retry_after_ms, ground arith)
    | inr f ↦ elim (Bool-cases (leb s.config.max_queue (length s.queue))) [
      | inl g ↦ inr (busy queue_full s.config.retry_after_ms, ground arith)
      | inr g ↦ inl (ground arith, ground arith, ground arith)
    ]
  ]
]

pub cancel_unqueue-jobs :
    {Out : Type 0} (id : ℕ) (s : Shared Out) → (cancel_unqueue id s).jobs ≡ s.jobs
unfolding cancel_unqueue
cancel_unqueue-jobs id s = ground arith

pub cancel_unqueue-cases :
    {Out : Type 0} (id : ℕ) (s : Shared Out)
    → (cancel_unqueue id s ≡ s) ⊎ (cancel_unqueue id s ≡ record s { queue = unqueue id s.queue })
unfolding cancel_unqueue
cancel_unqueue-cases id s = elim (Option-cases (find id s.jobs)) [
  | inl e ↦ inl (ground arith)
  | inr (j, e) ↦ elim (Bool-cases (state_eq j.state queued)) [
    | inl h ↦ inr (ground arith)
    | inr h ↦ inl (ground arith)
  ]
]
