-- ===== src/Runtime/Threads/Sequential.antt =====
-- The operations of crates/gitility-core/src/runtime/mod.rs run by one thread alone, written out as
-- sequences of the steps of the threads.
pub mod Exchanges
pub mod Outcomes
pub mod Calls
pub mod Effects
pub mod Turns
use gitility.Base.{
  ℕ, ◌+◌, ◌<◌, ◌≡◌, refl, ap, Bool, true, false, List, [], ◌∷◌, ◌++◌, Option, none, some, u64_mod,
  if◌then◌else◌, Option-cases, Bool-cases, inl, inr, ◌∙◌, arith,
}
use mathlib.Core.Path.{subst, sym}
use gitility.Error.{Result, err}
use gitility.Budget.{Budget, BudgetLimits}
use gitility.Runtime.Job.{
  Job, JobState, exchange, Outcome, queued, running, failed, cancelled, terminal_of, run_result,
  discard_task, timeout_error, cancelled_error, state_eq, raise_flag, try_start,
}
use gitility.Runtime.Jobs.{find, update}
use gitility.Runtime.Job.Frames.{try_start-id, run_result-SameLife}
use gitility.Runtime.Jobs.Lookup.{find-update_same, find-update-none}
use gitility.Runtime.Shared.{
  Shared, with_job, exchange_job, settle, record_terminal, settle_changed, publish_terminal,
  discard_if, expire, cancel, cancel_flag, cancel_unqueue, cancel_publish,
}
use gitility.Runtime.Admission.{
  sweep, admit, expire_all, submit, begin_shutdown, cancel_all, request_shutdown, start_exchange,
  count_started, run_task, run_job, work,
}
use gitility.Runtime.Threads.Cases.{cancel_unqueue-jobs}
use gitility.Runtime.Threads.{
  started, ended, Debt, System, Step, sweeping, admitting, beginning, running_task, finishing,
  expiring, flagging, unqueuing, cancelling, discarding, paying, shutting, on_shared, pay, publish,
  published, starting,
}

-- What one thread does next. `pay_last` pays the debt of the exchange before it.
pub data Action (Out : Type 0) : Type 0 where
  sweep_queue : ℕ → Action Out
  admit_job : ℕ → BudgetLimits → Option ℕ → Action Out
  start_job : ℕ → Action Out
  run_closure : ℕ → ℕ → ℕ → (Budget → Outcome Out × Budget) → Action Out
  finish : ℕ → Result Out → Action Out
  expire_job raise_job_flag unqueue_job cancel_job discard : ℕ → Action Out
  pay_last shut_down : Action Out

module _ {Out : Type 0} where
  unfoldable pub pay_one : System Out → System Out
  unfolding pay
  pay_one t = elim t.debts [
    | [] ↦ t
    | d ∷ debts ↦ record { shared = pay d t.shared; debts = debts }
  ]

  -- The state behind an action.
  unfoldable pub act : Action Out → System Out → System Out
  unfolding pay_one on_shared publish starting
  act (sweep_queue now) t = on_shared (λ s. (sweep now s).1) t
  act (admit_job owner limits deadline) t = on_shared (λ s. (admit owner limits deadline s).1) t
  act (start_job id) t = starting id t.debts (start_exchange id t.shared)
  act (run_closure id now later effect) t = on_shared (λ s. run_task now later effect id s) t
  act (finish id result) t = publish id running (terminal_of result) result t
  act (expire_job id) t = publish id queued failed (err timeout_error) t
  act (raise_job_flag id) t = on_shared (cancel_flag id) t
  act (unqueue_job id) t = on_shared (cancel_unqueue id) t
  act (cancel_job id) t = publish id queued cancelled (err cancelled_error) t
  act (discard id) t = on_shared (with_job id discard_task) t
  act pay_last t = pay_one t
  act shut_down t = on_shared (λ s. (begin_shutdown s).1) t

  unfoldable pub act_all : List (Action Out) → System Out → System Out
  unfolding act
  act_all [] t = t
  act_all (a ∷ actions) t = act_all actions (act a t)

  -- Each action is a step of the threads where it stands.
  unfoldable pub AreSteps : List (Action Out) → System Out → Type 0
  unfolding act
  AreSteps [] t = Unit
  AreSteps (a ∷ actions) t = Step t (act a t) × AreSteps actions (act a t)

  -- The actions are steps from one state to the other.
  pub record Performs (actions : List (Action Out)) (t u : System Out) : Type 0 where
    pub steps : AreSteps actions t
    pub reaches : act_all actions t ≡ u

  abbrev pub found_at : JobState → Option (Job Out) → Bool
  found_at state none = false
  found_at state (some j) = state_eq j.state state

  -- Whether there is a job with the ID, in the state.
  unfoldable pub is_at : ℕ → JobState → Shared Out → Bool
  is_at id state s = found_at state (find id s.jobs)

  -- Behind an exchange that ends a queued job, or does not.
  abbrev pub closing : ℕ → Bool → List (Action Out)
  closing id true = pay_last ∷ discard id ∷ []
  closing id false = []

  abbrev pub expire_actions : ℕ → Shared Out → List (Action Out)
  expire_actions id s = expire_job id ∷ closing id (is_at id queued s)

  abbrev pub cancel_actions : ℕ → Shared Out → List (Action Out)
  cancel_actions id s =
      raise_job_flag id ∷ unqueue_job id ∷ cancel_job id ∷ closing id (is_at id queued s)

  -- The actions for each ID, one after the other.
  unfoldable pub for_all :
      (ℕ → Shared Out → List (Action Out)) → List ℕ → System Out → List (Action Out)
  unfolding act_all
  for_all actions [] t = []
  for_all actions (id ∷ ids) t =
      actions id t.shared ++ for_all actions ids (act_all (actions id t.shared) t)

  unfoldable pub submit_actions : ℕ → ℕ → BudgetLimits → Option ℕ → System Out → List (Action Out)
  unfolding act for_all is_at
  submit_actions now owner limits deadline t =
      sweep_queue now
      ∷ (for_all expire_actions (sweep now t.shared).0 (act (sweep_queue now) t)
          ++ (admit_job owner limits deadline ∷ []))

  unfoldable pub shutdown_actions : System Out → List (Action Out)
  unfolding act for_all is_at
  shutdown_actions t =
      shut_down ∷ for_all cancel_actions (begin_shutdown t.shared).0 (act shut_down t)

  -- A worker's turn: a queued job is run to its end, with the result that its task gives.
  unfoldable pub work_actions :
      ℕ → ℕ → (Budget → Outcome Out × Budget) → ℕ → Shared Out → List (Action Out)
  work_actions now later effect id s = elim (find id s.jobs) [
    | none ↦ start_job id ∷ discard id ∷ []
    | some j ↦
        if state_eq j.state queued
        then start_job id
          ∷ pay_last
          ∷ run_closure id now later effect
          ∷ finish id (run_result now later effect j).0
          ∷ pay_last
          ∷ []
        else start_job id ∷ discard id ∷ []
  ]
