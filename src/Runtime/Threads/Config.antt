-- ===== src/Runtime/Threads/Config.antt =====
-- The configuration of crates/gitility-core/src/runtime/mod.rs over the steps of the threads.
use gitility.Base.{ℕ, ◌≡◌, refl, ap, ◌∙◌, inl, inr}
use gitility.Error.{Result, err}
use gitility.Runtime.Job.{
  JobState, queued, running, failed, cancelled, terminal_of, timeout_error, cancelled_error,
}
use gitility.Runtime.Shared.{RuntimeConfig, new_shared, settle, record_terminal, cancel_flag}
use gitility.Runtime.Admission.{
  sweep, reject, enqueue, begin_shutdown, count_started, run_task, take_job_output,
}
use gitility.Runtime.Threads.{
  started, ended, System, Step, sweeping, admitting, dequeuing, beginning, running_task, finishing,
  expiring, flagging, unqueuing, cancelling, discarding, paying, taking, shutting, Reach, here,
  next, start, on_shared, pay, publish,
}
use gitility.Runtime.Threads.Cases.{
  admit-cases, publish-cases, starting-cases, cancel_unqueue-cases,
}

module _ {Out : Type 0} where
  publish-config :
      (id : ℕ) (from terminal : JobState) (result : Result Out) (t : System Out)
      → (publish id from terminal result t).shared.config ≡ t.shared.config
  publish-config id from terminal result t = elim (publish-cases id t from terminal result) [
    | inl e ↦ ap (λ u. u.shared.config) e
    | inr (j, found, at, ends, e) ↦ ap (λ u. u.shared.config) e
  ]

  Step-config : {t u : System Out} → Step t u → u.shared.config ≡ t.shared.config
  unfolding on_shared run_task cancel_flag take_job_output begin_shutdown sweep pay settle
      record_terminal count_started reject enqueue
  Step-config (sweeping now) = refl
  Step-config {t} (admitting owner limits deadline room) =
      elim (admit-cases owner limits deadline t.shared) [
        | inl (e, _, _) ↦ ap (λ s. s.config) e
        | inr (x, e) ↦ ap (λ s. s.config) e
      ]
  Step-config (dequeuing id queue e) = refl
  Step-config {t} (beginning id) = elim (starting-cases id t) [
    | inl e ↦ ap (λ u. u.shared.config) e
    | inr (j, found, at, runs, e) ↦ ap (λ u. u.shared.config) e
  ]
  Step-config (running_task id now later effect) = refl
  Step-config {t} (finishing id result) = publish-config id running (terminal_of result) result t
  Step-config {t} (expiring id) = publish-config id queued failed (err timeout_error) t
  Step-config (flagging id) = refl
  Step-config {t} (unqueuing id) = elim (cancel_unqueue-cases id t.shared) [
    | inl e ↦ ap (λ s. s.config) e
    | inr e ↦ ap (λ s. s.config) e
  ]
  Step-config {t} (cancelling id) = publish-config id queued cancelled (err cancelled_error) t
  Step-config (discarding id) = refl
  Step-config (paying before behind (started i) e) = refl
  Step-config (paying before behind (ended j from terminal) e) = refl
  Step-config (taking id) = refl
  Step-config shutting = refl

  pub Reach-config :
      (config : RuntimeConfig) {t : System Out} → Reach (start config) t → t.shared.config ≡ config
  unfolding new_shared
  Reach-config config here = refl
  Reach-config config (next r st) = Step-config st ∙ Reach-config config r
