-- ===== src/Runtime/Threads/Finality.antt =====
-- Jobs of crates/gitility-core/src/runtime/mod.rs that have come to their end.
use mathlib.Core.Path.{subst, sym}
use gitility.Base.{
  ℕ, ◌≡◌, refl, ap, ◌∙◌, true, false, List, Option, none, some, ◌==◌, arith, Bool-cases, inl, inr,
  ◌⊎◌,
}
use gitility.Error.{Result, err}
use gitility.Budget.{Budget, BudgetLimits, check}
use gitility.Runtime.Job.{
  Job, JobState, Outcome, queued, running, failed, cancelled, is_terminal, terminal_of, run_result,
  discard_task, try_start, exchange, raise_flag, take_output, notify, timeout_error,
  cancelled_error,
}
use gitility.Runtime.Job.Frames.{
  discard_task-SameLife, raise_flag-SameLife, exchange-id, notify-id, try_start-id,
  take_output-SameLife, run_result-SameLife,
}
use gitility.Runtime.Jobs.{find, update}
use gitility.Runtime.Jobs.Lookup.{find-update_same, find-update_other}
use gitility.Runtime.Shared.{RuntimeConfig, settle, record_terminal, cancel_flag, cancel_unqueue}
use gitility.Runtime.Admission.{
  sweep, admit, reject, enqueue, fresh_job, begin_shutdown, start_exchange, count_started, run_task,
  take_job_output,
}
use gitility.Runtime.Threads.{
  Debt, started, ended, System, Step, sweeping, admitting, dequeuing, beginning, running_task,
  finishing, expiring, flagging, unqueuing, cancelling, discarding, paying, taking, shutting, Reach,
  here, next, start, on_shared, pay, publish, starting,
}
use gitility.Runtime.Threads.Cases.{cancel_unqueue-jobs, admit-cases, publish-cases, starting-cases}
use gitility.Runtime.Threads.Notices.{IsNotified}
use gitility.Runtime.Threads.Notices.Once.{Step-IsNotified, Reach-IsNotified}

-- An ended job as it was, but for an output that was taken since.
pub record SameEnd {Out : Type 0} (j k : Job Out) : Type 0 where
  pub same_owner : k.owner ≡ j.owner
  pub same_state : k.state ≡ j.state
  pub same_output : (k.output ≡ j.output) ⊎ (k.output ≡ none)

-- Where an ended job was there is one with the same end.
abbrev pub KeepsEnd : {Out : Type 0} → ℕ → Job Out → List (Job Out) → Type 0
KeepsEnd {Out} id j jobs = (k : Job Out) × (find id jobs ≡ some k) × SameEnd j k

module _ {Out : Type 0} where
  SameEnd-refl : (j : Job Out) → SameEnd j j
  SameEnd-refl j = record { same_owner = refl; same_state = refl; same_output = inl refl }

  run_result-SameEnd :
      (now later : ℕ) (effect : Budget → Outcome Out × Budget) (j : Job Out)
      → SameEnd j (run_result now later effect j).1
  unfolding run_result check
  run_result-SameEnd now later effect j = ground arith

  discard_task-SameEnd : (j : Job Out) → SameEnd j (discard_task j)
  unfolding discard_task
  discard_task-SameEnd j = ground arith

  raise_flag-SameEnd : (j : Job Out) → SameEnd j (raise_flag j)
  unfolding raise_flag
  raise_flag-SameEnd j = ground arith

  take_output-SameEnd : (j : Job Out) → SameEnd j (take_output j).1
  unfolding take_output
  take_output-SameEnd j = ground arith

  notify-SameEnd : (j : Job Out) → SameEnd j (notify j)
  unfolding notify
  notify-SameEnd j = ground arith

  -- A change that keeps the end of every job.
  update-KeepsEnd :
      (at id : ℕ) (f : Job Out → Job Out) (jobs : List (Job Out)) (j : Job Out)
      → ((k : Job Out) → (f k).id ≡ k.id)
      → ((at == id) ≡ true → SameEnd j (f j))
      → find id jobs ≡ some j
      → KeepsEnd id j (update at f jobs)
  update-KeepsEnd at id f jobs j keeps ends h = elim (Bool-cases (at == id)) [
    | inl e ↦ (f j, grind (arith, find-update_same id f jobs keeps h), ends e)
    | inr e ↦ (j, find-update_other at id f jobs keeps e ∙ h, SameEnd-refl j)
  ]

  module _ (t : System Out) (id : ℕ) (j : Job Out) (found : find id t.shared.jobs ≡ some j)
      (over : is_terminal j.state ≡ true) where
    publish-KeepsEnd :
        (at : ℕ) (from terminal : JobState) (result : Result Out)
        → is_terminal from ≡ false
        → KeepsEnd id j (publish at from terminal result t).shared.jobs
    publish-KeepsEnd at from terminal result active =
        elim (publish-cases at t from terminal result) [
          | inl e ↦ subst (λ u. KeepsEnd id j u.shared.jobs) (sym e) ((j, found, SameEnd-refl j))
          | inr (i, there, is, ends, e) ↦
              subst (λ u. KeepsEnd id j u.shared.jobs) (sym e)
                (update-KeepsEnd at id (λ k. (exchange from terminal result k).1) t.shared.jobs j
                  (exchange-id from terminal result) (λ s. absurd (grind arith)) found)
        ]

    starting-KeepsEnd :
        (at : ℕ) → KeepsEnd id j (starting at t.debts (start_exchange at t.shared)).shared.jobs
    starting-KeepsEnd at = elim (starting-cases at t) [
      | inl e ↦ subst (λ u. KeepsEnd id j u.shared.jobs) (sym e) ((j, found, SameEnd-refl j))
      | inr (i, there, is, runs, e) ↦
          subst (λ u. KeepsEnd id j u.shared.jobs) (sym e)
            (update-KeepsEnd at id (λ k. (try_start k).1) t.shared.jobs j try_start-id
              (λ s. absurd (grind arith)) found)
    ]

    admit-KeepsEnd :
        (owner : ℕ) (limits : BudgetLimits) (deadline : Option ℕ)
        → IsNotified t
        → KeepsEnd id j (admit owner limits deadline t.shared).1.jobs
    unfolding enqueue reject find fresh_job
    admit-KeepsEnd owner limits deadline v = elim (admit-cases owner limits deadline t.shared) [
      | inl (e, _, _) ↦
          subst (λ s. KeepsEnd id j s.jobs) (sym e)
            (elim (Bool-cases (t.shared.next_job_id == id)) [
              | inl same ↦ absurd (grind (arith, (v.unborn id (grind arith)).0))
              | inr apart ↦ (j, grind arith, SameEnd-refl j)
            ])
      | inr (x, e) ↦ subst (λ s. KeepsEnd id j s.jobs) (sym e) ((j, found, SameEnd-refl j))
    ]

  pay-KeepsEnd :
      (t : System Out) (id : ℕ) (j : Job Out)
      → find id t.shared.jobs ≡ some j
      → (d : Debt Out) → KeepsEnd id j (pay d t.shared).jobs
  unfolding pay count_started settle record_terminal
  pay-KeepsEnd t id j found (started i) = (j, found, SameEnd-refl j)
  pay-KeepsEnd t id j found (ended i from terminal) =
      update-KeepsEnd i.id id notify t.shared.jobs j notify-id (λ _. notify-SameEnd j) found

  Step-KeepsEnd :
      {t u : System Out} (id : ℕ) (j : Job Out)
      → IsNotified t
      → find id t.shared.jobs ≡ some j
      → is_terminal j.state ≡ true
      → Step t u
      → KeepsEnd id j u.shared.jobs
  unfolding on_shared run_task cancel_flag take_job_output begin_shutdown sweep cancel_unqueue pay
      settle record_terminal count_started
  Step-KeepsEnd id j v found over (sweeping now) = (j, found, SameEnd-refl j)
  Step-KeepsEnd {t} id j v found over (admitting owner limits deadline room) =
      admit-KeepsEnd t id j found over owner limits deadline v
  Step-KeepsEnd id j v found over (dequeuing at queue e) = (j, found, SameEnd-refl j)
  Step-KeepsEnd {t} id j v found over (beginning at) = starting-KeepsEnd t id j found over at
  Step-KeepsEnd {t} id j v found over (running_task at now later effect) =
      update-KeepsEnd at id (λ k. (run_result now later effect k).1) t.shared.jobs j
        (λ k. (run_result-SameLife now later effect k).same_id)
        (λ _. run_result-SameEnd now later effect j) found
  Step-KeepsEnd {t} id j v found over (finishing at result) =
      publish-KeepsEnd t id j found over at running (terminal_of result) result refl
  Step-KeepsEnd {t} id j v found over (expiring at) =
      publish-KeepsEnd t id j found over at queued failed (err timeout_error) refl
  Step-KeepsEnd {t} id j v found over (flagging at) =
      update-KeepsEnd at id raise_flag t.shared.jobs j (λ k. (raise_flag-SameLife k).same_id)
        (λ _. raise_flag-SameEnd j) found
  Step-KeepsEnd {t} id j v found over (unqueuing at) =
      (j, ap (find id) (cancel_unqueue-jobs at t.shared) ∙ found, SameEnd-refl j)
  Step-KeepsEnd {t} id j v found over (cancelling at) =
      publish-KeepsEnd t id j found over at queued cancelled (err cancelled_error) refl
  Step-KeepsEnd {t} id j v found over (discarding at) =
      update-KeepsEnd at id discard_task t.shared.jobs j (λ k. (discard_task-SameLife k).same_id)
        (λ _. discard_task-SameEnd j) found
  Step-KeepsEnd {t} id j v found over (paying before behind d e) = pay-KeepsEnd t id j found d
  Step-KeepsEnd {t} id j v found over (taking at) =
      update-KeepsEnd at id (λ k. (take_output k).1) t.shared.jobs j
        (λ k. (take_output-SameLife k).same_id) (λ _. take_output-SameEnd j) found
  Step-KeepsEnd id j v found over shutting = (j, found, SameEnd-refl j)

  SameEnd-trans : (i j k : Job Out) → SameEnd i j → SameEnd j k → SameEnd i k
  SameEnd-trans i j k a b = record {
    same_owner = b.same_owner ∙ a.same_owner;
    same_state = b.same_state ∙ a.same_state;
    same_output = elim b.same_output [
      | inr e ↦ inr e
      | inl e ↦ elim a.same_output [ inl f ↦ inl (e ∙ f) | inr f ↦ inr (e ∙ f) ]
    ];
  }

  continued : {t u : System Out} → IsNotified t → Reach t u → IsNotified u
  continued v here = v
  continued v (next r st) = Step-IsNotified st (continued v r)

  run-KeepsEnd :
      {t u : System Out} (id : ℕ) (j : Job Out)
      → IsNotified t
      → find id t.shared.jobs ≡ some j
      → is_terminal j.state ≡ true
      → Reach t u
      → KeepsEnd id j u.shared.jobs
  run-KeepsEnd id j v found over here = (j, found, SameEnd-refl j)
  run-KeepsEnd id j v found over (next r st) =
      let (k, there, same) = run-KeepsEnd id j v found over r in
      let (l, then, also) =
        Step-KeepsEnd id k (continued v r) there (ap is_terminal same.same_state ∙ over) st in
      (l, then, SameEnd-trans j k l same also)

  -- Once a job of a reachable state has come to its end, whatever the threads do from there on, in any
  -- interleaving, the job stays under its ID with its owner and that state, and its output is the
  -- published one or was taken.
  pub Reach-KeepsEnd :
      (config : RuntimeConfig) {t u : System Out} (id : ℕ) (j : Job Out)
      → Reach (start config) t
      → find id t.shared.jobs ≡ some j
      → is_terminal j.state ≡ true
      → Reach t u
      → KeepsEnd id j u.shared.jobs
  Reach-KeepsEnd config id j r found over s =
      run-KeepsEnd id j (Reach-IsNotified config r) found over s
