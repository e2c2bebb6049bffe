-- ===== src/Runtime/Threads/Sequential/Calls.antt =====
-- `submit` and `request_shutdown` of crates/gitility-core/src/runtime/mod.rs as sequences of steps.
use gitility.Base.{
  ℕ, ◌+◌, ◌<◌, ◌≡◌, refl, ap, List, [], ◌∷◌, Option, u64_mod, Option-cases, inl, inr, ◌∙◌, arith,
}
use mathlib.Core.Path.{subst, sym}
use gitility.Budget.{BudgetLimits}
use gitility.Runtime.Job.{exchange}
use gitility.Runtime.Jobs.{find}
use gitility.Runtime.Shared.{
  Shared, exchange_job, settle, record_terminal, settle_changed, publish_terminal, discard_if,
  expire, cancel,
}
use gitility.Runtime.Admission.{
  sweep, expire_all, submit, begin_shutdown, cancel_all, request_shutdown,
}
use gitility.Runtime.Threads.{System, sweeping, admitting, shutting, on_shared}
use gitility.Runtime.Threads.Sequential.{
  Action, sweep_queue, admit_job, shut_down, act, act_all, AreSteps, Performs, expire_actions,
  cancel_actions, for_all, submit_actions, shutdown_actions,
}
use gitility.Runtime.Threads.Sequential.Exchanges.{
  set, joined, one, moved, expire-Performs, cancel-Performs,
}

module _ {Out : Type 0} where
  for_all-Performs :
      (actions : ℕ → Shared Out → List (Action Out)) (f : ℕ → Shared Out → Shared Out)
      → ((id : ℕ) (t : System Out) → Performs (actions id t.shared) t (set t (f id t.shared)))
      → (all : List ℕ → Shared Out → Shared Out) → ((s : Shared Out) → all [] s ≡ s)
      → ((id : ℕ) (ids : List ℕ) (s : Shared Out) → all (id ∷ ids) s ≡ all ids (f id s))
      → (ids : List ℕ) (t : System Out)
      → Performs (for_all actions ids t) t (set t (all ids t.shared))
  unfolding for_all act_all AreSteps
  for_all-Performs actions f each all start more [] t = record {
    steps = tt;
    reaches = ap (set t) (sym (start t.shared));
  }
  for_all-Performs actions f each all start more (id ∷ ids) t =
      let p = each id t in
      let u = set t (f id t.shared) in
      let rest = for_all-Performs actions f each all start more ids u in
      joined p (
        subst (λ v. Performs (for_all actions ids v) u (set t (all (id ∷ ids) t.shared)))
          (sym p.reaches) (moved rest (ap (set t) (sym (more id ids t.shared)))))

  pub shutdown-Performs :
      (t : System Out) → Performs (shutdown_actions t) t (set t (request_shutdown t.shared))
  unfolding shutdown_actions request_shutdown cancel_all act on_shared
  shutdown-Performs t = joined (one shut_down t shutting) (
      for_all-Performs cancel_actions cancel cancel-Performs cancel_all (λ s. refl)
        (λ id ids s. refl) (begin_shutdown t.shared).0 (act shut_down t))

  expire_ids : (id : ℕ) (s : Shared Out) → (expire id s).next_job_id ≡ s.next_job_id
  unfolding expire publish_terminal discard_if settle_changed exchange_job settle record_terminal
      exchange
  expire_ids id s = elim (Option-cases (find id s.jobs)) [
    | inl e ↦ ground (arith)
    | inr (j, e) ↦ ground (arith)
  ]

  expire_all_ids : (ids : List ℕ) (s : Shared Out) → (expire_all ids s).next_job_id ≡ s.next_job_id
  unfolding expire_all
  expire_all_ids [] s = refl
  expire_all_ids (id ∷ ids) s = expire_all_ids ids (expire id s) ∙ expire_ids id s

  pub submit-Performs :
      (now owner : ℕ) (limits : BudgetLimits) (deadline : Option ℕ) (t : System Out)
      → t.shared.next_job_id + 1 < u64_mod
      → Performs
          (submit_actions now owner limits deadline t)
          t
          (set t (submit now owner limits deadline t.shared).1)
  unfolding submit submit_actions act on_shared sweep expire_all
  submit-Performs now owner limits deadline t room =
      let (expired, s) = sweep now t.shared in
      let u = set t (expire_all expired s) in
      joined (one (sweep_queue now) t (sweeping now)) (
        joined
          (for_all-Performs expire_actions expire expire-Performs expire_all (λ s. refl)
            (λ id ids s. refl) expired (set t s))
          (one (admit_job owner limits deadline) u (
            admitting owner limits deadline
              (subst (λ n. n + 1 < u64_mod) (sym (expire_all_ids expired s)) room))))
