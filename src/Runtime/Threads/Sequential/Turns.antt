-- ===== src/Runtime/Threads/Sequential/Turns.antt =====
-- A worker's turn of crates/gitility-core/src/runtime/mod.rs as a sequence of steps, beside the calls.
use gitility.Base.{
  ℕ, ◌≡◌, refl, ap, true, false, [], ◌∷◌, some, Option-cases, Bool-cases, inl, inr, ◌∙◌, arith,
}
use mathlib.Core.Path.{subst, sym}
use gitility.Budget.{Budget, BudgetLimits}
use gitility.Runtime.Job.{
  Job, Outcome, queued, running, terminal_of, run_result, discard_task, state_eq, try_start,
}
use gitility.Runtime.Jobs.{find}
use gitility.Runtime.Job.Frames.{try_start-id, run_result-SameLife}
use gitility.Runtime.Jobs.Lookup.{find-update_same}
use gitility.Runtime.Shared.{Shared, with_job, publish_terminal}
use gitility.Runtime.Admission.{start_exchange, count_started, run_task, run_job, work}
use gitility.Runtime.Threads.{
  started, System, beginning, running_task, finishing, discarding, paying, on_shared, pay, publish,
  starting,
}
use gitility.Runtime.Threads.Sequential.{
  start_job, run_closure, finish, discard, pay_last, pay_one, act, Performs, found_at, is_at,
  work_actions,
}
use gitility.Runtime.Threads.Sequential.Exchanges.{set, joined, one, moved, settled, is_at-with_job}

module _ {Out : Type 0} where
  start_exchange-at :
      (id : ℕ) (s : Shared Out) {j : Job Out}
      → find id s.jobs ≡ some j
      → state_eq j.state queued ≡ true
      → start_exchange id s ≡ (true, with_job id (λ k. (try_start k).1) s)
  unfolding start_exchange try_start
  start_exchange-at id s e h = ground arith

  pub start_exchange-elsewhere :
      (id : ℕ) (s : Shared Out) → is_at id queued s ≡ false → start_exchange id s ≡ (false, s)
  unfolding start_exchange try_start is_at
  start_exchange-elsewhere id s h = elim (Option-cases (find id s.jobs)) [
    | inl e ↦ ground (arith)
    | inr (j, e) ↦ ground (arith)
  ]

  turn_away :
      (now later : ℕ) (effect : Budget → Outcome Out × Budget) (id : ℕ) (t : System Out)
      → is_at id queued t.shared ≡ false
      → Performs (start_job id ∷ discard id ∷ []) t (set t (work now later effect id t.shared))
  unfolding work act starting on_shared
  turn_away now later effect id t h =
      let e = start_exchange-elsewhere id t.shared h in
      let same : act (start_job id) t ≡ t = ap (starting id t.debts) e in
      let worked : work now later effect id t.shared ≡ with_job id discard_task t.shared =
        rw (e, work) refl in
      joined (moved (one (start_job id) t (beginning id)) same)
        (moved (one (discard id) t (discarding id)) (ap (set t) (sym worked)))

  pub try_start-result :
      (now later : ℕ) (effect : Budget → Outcome Out × Budget) (j : Job Out)
      → (run_result now later effect (try_start j).1).0 ≡ (run_result now later effect j).0
  unfolding run_result try_start gitility.Budget.check
  try_start-result now later effect j = ground arith

  pub try_start-running :
      (j : Job Out) → state_eq j.state queued ≡ true → (try_start j).1.state ≡ running
  unfolding try_start
  try_start-running j h = rw h refl

  pub run_job-found :
      (now later : ℕ) (effect : Budget → Outcome Out × Budget) (id : ℕ) (s : Shared Out)
      {j : Job Out}
      → find id s.jobs ≡ some j
      → run_job now later effect id s
        ≡ (publish_terminal id running
            (terminal_of (run_result now later effect j).0)
            (run_result now later effect j).0
            (run_task now later effect id s)).1
  unfolding run_job publish_terminal
  run_job-found now later effect id s e = rw (e, run_job) refl

  pub worked_through :
      (now later : ℕ) (effect : Budget → Outcome Out × Budget) (id : ℕ) (s : Shared Out)
      (j : Job Out)
      → find id s.jobs ≡ some j
      → state_eq j.state queued ≡ true
      → work now later effect id s
        ≡ run_job now later effect id (count_started (with_job id (λ k. (try_start k).1) s))
  unfolding work
  worked_through now later effect id s j e h = rw (start_exchange-at id s e h) refl

  -- The worker's turn with a queued job.
  run_through :
      (now later : ℕ) (effect : Budget → Outcome Out × Budget) (id : ℕ) (t : System Out)
      (j : Job Out)
      → find id t.shared.jobs ≡ some j
      → state_eq j.state queued ≡ true
      → Performs
          (start_job id
            ∷ pay_last
            ∷ run_closure id now later effect
            ∷ finish id (run_result now later effect j).0
            ∷ pay_last
            ∷ [])
          t
          (set t (work now later effect id t.shared))
  unfolding act starting on_shared pay_one pay publish count_started run_task is_at
  run_through now later effect id t j e h =
      let k = (try_start j).1 in
      let result = (run_result now later effect k).0 in
      let s = with_job id (λ i. (try_start i).1) t.shared in
      let begun : System Out = record { shared = s; debts = started id ∷ t.debts } in
      let u = set t (count_started s) in
      let v = set t (run_task now later effect id u.shared) in
      let starts : act (start_job id) t ≡ begun =
        ap (starting id t.debts) (start_exchange-at id t.shared e h) in
      let found : find id u.shared.jobs ≡ some k =
        find-update_same id (λ i. (try_start i).1) t.shared.jobs try_start-id e in
      let runs : is_at id running v.shared ≡ true =
        is_at-with_job id running (λ i. (run_result now later effect i).1) u.shared
          (λ i. (run_result-SameLife now later effect i).same_id)
          (λ i. (run_result-SameLife now later effect i).same_state)
        ∙ ap (found_at running) found
        ∙ ap (λ state. state_eq state running) (try_start-running j h) in
      let worked : (publish_terminal id running (terminal_of result) result v.shared).1
          ≡ work now later effect id t.shared =
        sym (
          worked_through now later effect id t.shared j e h
          ∙ run_job-found now later effect id u.shared found) in
      subst
        (λ r.
          Performs
            (start_job id
              ∷ pay_last
              ∷ run_closure id now later effect
              ∷ finish id r
              ∷ pay_last
              ∷ [])
            t (set t (work now later effect id t.shared)))
        (try_start-result now later effect j)
        (joined (moved (one (start_job id) t (beginning id)) starts) (
          joined (one pay_last begun (paying [] t.debts (started id) refl)) (
            joined (one (run_closure id now later effect) u (running_task id now later effect)) (
              moved
                (settled id running (terminal_of result) result (finish id result) v refl
                  (finishing id result) runs)
                (ap (set t) worked)))))

  pub work-Performs :
      (now later : ℕ) (effect : Budget → Outcome Out × Budget) (id : ℕ) (t : System Out)
      → Performs
          (work_actions now later effect id t.shared)
          t
          (set t (work now later effect id t.shared))
  unfolding work_actions is_at
  work-Performs now later effect id t = elim (Option-cases (find id t.shared.jobs)) [
    | inl e ↦ rw (e, work_actions) (turn_away now later effect id t (ap (found_at queued) e))
    | inr (j, e) ↦ elim (Bool-cases (state_eq j.state queued)) [
      | inl h ↦ rw (e, work_actions) (rw h (run_through now later effect id t j e h))
      | inr h ↦
          rw (e, work_actions) (rw h (turn_away now later effect id t (ap (found_at queued) e ∙ h)))
    ]
  ]
