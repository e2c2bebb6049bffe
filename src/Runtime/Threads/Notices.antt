-- ===== src/Runtime/Threads/Notices.antt =====
-- The calls of the observers of crates/gitility-core/src/runtime/mod.rs, made and owed.
pub mod Once
use mathlib.Core.Path.{subst, sym}
use gitility.Base.{
  ℕ, ◌+◌, ◌≤◌, ◌<◌, ◌≡◌, refl, ap, ◌∙◌, Bool, true, false, List, [], ◌∷◌, ◌++◌, Option, none, some,
  u64_mod, ◌==◌, arith, Bool-cases, inl, inr,
}
use gitility.Error.{Result, err}
use gitility.Budget.{BudgetLimits}
use gitility.Runtime.Job.{
  Job, JobState, queued, running, failed, cancelled, is_terminal, terminal_of, run_result,
  discard_task, try_start, exchange, raise_flag, take_output, notify, timeout_error,
  cancelled_error,
}
use gitility.Runtime.Job.Frames.{
  exchange-id, exchange-notices, try_start-id, try_start-notices, SameLife, run_result-SameLife,
  discard_task-SameLife, raise_flag-SameLife, take_output-SameLife, terminal_of-is_terminal,
}
use gitility.Runtime.Jobs.{find, update}
use gitility.Runtime.Jobs.Lookup.{find-update, find-update_absent, find-id}
use gitility.Runtime.Shared.{
  RuntimeConfig, new_shared, with_job, settle, record_terminal, cancel_flag, cancel_unqueue,
}
use gitility.Runtime.Admission.{
  sweep, admit, reject, enqueue, fresh_job, begin_shutdown, start_exchange, count_started, run_task,
  take_job_output,
}
use gitility.Runtime.Threads.{
  Debt, started, ended, System, Step, sweeping, admitting, dequeuing, beginning, running_task,
  finishing, expiring, flagging, unqueuing, cancelling, discarding, paying, taking, shutting, Reach,
  here, next, start, on_shared, pay, publish, starting,
}
use gitility.Runtime.Threads.Cases.{admit-cases, changed, publish-cases, starting-cases}

abbrev pub indicator : Bool → ℕ
indicator true = 1
indicator false = 0

module _ {Out : Type 0} where
  -- The calls that threads still owe to the observer of the job with an ID.
  abbrev pub owed_notices : ℕ → List (Debt Out) → ℕ
  owed_notices id [] = 0
  owed_notices id (started _ ∷ debts) = owed_notices id debts
  owed_notices id (ended j _ _ ∷ debts) = indicator (j.id == id) + owed_notices id debts

  pub record IsNotified (t : System Out) : Type 0 where
    pub once :
        (id : ℕ) (j : Job Out)
        → find id t.shared.jobs ≡ some j
        → j.notices + owed_notices id t.debts ≡ indicator (is_terminal j.state)
    pub unborn :
        (id : ℕ)
        → t.shared.next_job_id ≤ id
        → (find id t.shared.jobs ≡ none) × (owed_notices id t.debts ≡ 0)

  pub owed_notices-middle :
      (id : ℕ) (before behind : List (Debt Out)) (d : Debt Out)
      → owed_notices id (before ++ (d ∷ behind)) ≡ owed_notices id (d ∷ before ++ behind)
  owed_notices-middle id [] behind d = refl
  owed_notices-middle id (started x ∷ before) behind d =
      ground (arith, owed_notices-middle id before behind d)
  owed_notices-middle id (ended x y z ∷ before) behind (started i) =
      ground (arith, owed_notices-middle id before behind (started i))
  owed_notices-middle id (ended x y z ∷ before) behind (ended j f t) =
      ground (arith, owed_notices-middle id before behind (ended j f t))

  owed_notices-cons :
      (id : ℕ) (d : Debt Out) (debts : List (Debt Out))
      → owed_notices id (d ∷ debts) ≡ owed_notices id (d ∷ []) + owed_notices id debts
  owed_notices-cons id (started x) debts = omega arith
  owed_notices-cons id (ended j f t) debts = omega arith

  with_job-IsNotified :
      (id : ℕ) (f : Job Out → Job Out) (t : System Out)
      → ((k : Job Out) → SameLife k (f k))
      → IsNotified t
      → IsNotified (on_shared (with_job id f) t)
  unfolding on_shared
  with_job-IsNotified id f t keeps v = record { once = once; unborn = unborn }
    where
      once :
          (other : ℕ) (k : Job Out)
          → find other (update id f t.shared.jobs) ≡ some k
          → k.notices + owed_notices other t.debts ≡ indicator (is_terminal k.state)
      once other k h =
          let (j, found, now) = find-update id other f t.shared.jobs (λ x. (keeps x).same_id) h in
          elim now [
            | inl (e, same) ↦ grind (arith, v.once other j found)
            | inr (e, same) ↦
                grind (arith, v.once other j found, (keeps j).same_state, (keeps j).same_notices)
          ]

      unborn :
          (other : ℕ)
          → t.shared.next_job_id ≤ other
          → (find other (update id f t.shared.jobs) ≡ none) × (owed_notices other t.debts ≡ 0)
      unborn other h = (
        find-update_absent id other f t.shared.jobs (λ x. (keeps x).same_id) (v.unborn other h).0,
        (v.unborn other h).1,
      )

  -- The change of one job with a debt for it.
  changed-IsNotified :
      (id : ℕ) (f : Job Out → Job Out) (d : Debt Out) (t : System Out) (j : Job Out)
      → ((k : Job Out) → (f k).id ≡ k.id)
      → ((k : Job Out) → (f k).notices ≡ k.notices)
      → ((other : ℕ) → (id == other) ≡ false → owed_notices other (d ∷ []) ≡ 0)
      → find id t.shared.jobs ≡ some j
      → owed_notices id (d ∷ []) + indicator (is_terminal j.state)
        ≡ indicator (is_terminal (f j).state)
      → IsNotified t
      → IsNotified (changed id t f d)
  changed-IsNotified id f d t j keeps_id keeps_notices alone found pays v = record {
    once = once;
    unborn = unborn;
  }
    where
      once :
          (other : ℕ) (k : Job Out)
          → find other (update id f t.shared.jobs) ≡ some k
          → k.notices + owed_notices other (d ∷ t.debts) ≡ indicator (is_terminal k.state)
      once other k h =
          let (i, there, now) = find-update id other f t.shared.jobs keeps_id h in
          elim now [
            | inl (e, same) ↦
                grind
                  (arith, v.once other i there, alone other e, owed_notices-cons other d t.debts)
            | inr (e, same) ↦
                grind
                  (arith, v.once other i there, keeps_notices i, owed_notices-cons other d t.debts)
          ]

      unborn :
          (other : ℕ)
          → t.shared.next_job_id ≤ other
          → (find other (update id f t.shared.jobs) ≡ none) × (owed_notices other (d ∷ t.debts) ≡ 0)
      unborn other h = (
        find-update_absent id other f t.shared.jobs keeps_id (v.unborn other h).0,
        elim (Bool-cases (id == other)) [
          | inl e ↦ absurd (grind (arith, (v.unborn other h).0))
          | inr e ↦
              grind (arith, (v.unborn other h).1, alone other e, owed_notices-cons other d t.debts)
        ],
      )

  publish-IsNotified :
      (id : ℕ) (from terminal : JobState) (result : Result Out) (t : System Out)
      → is_terminal from ≡ false
      → is_terminal terminal ≡ true
      → IsNotified t
      → IsNotified (publish id from terminal result t)
  publish-IsNotified id from terminal result t active over v =
      elim (publish-cases id t from terminal result) [
        | inl e ↦ subst IsNotified (sym e) v
        | inr (j, found, at, ends, e) ↦ subst IsNotified (sym e) (
            changed-IsNotified id (λ k. (exchange from terminal result k).1) (ended j from terminal)
              t j (exchange-id from terminal result) (exchange-notices from terminal result)
              (λ other apart. grind (arith, find-id id t.shared.jobs found)) found
              (grind (arith, find-id id t.shared.jobs found)) v)
      ]

  starting-IsNotified :
      (id : ℕ) (t : System Out)
      → IsNotified t
      → IsNotified (starting id t.debts (start_exchange id t.shared))
  starting-IsNotified id t v = elim (starting-cases id t) [
    | inl e ↦ subst IsNotified (sym e) v
    | inr (j, found, at, runs, e) ↦ subst IsNotified (sym e) (
        changed-IsNotified id (λ k. (try_start k).1) (started id) t j try_start-id try_start-notices
          (λ other apart. refl) found (grind arith) v)
  ]

  -- A step that leaves jobs, IDs and debts as they are.
  same-IsNotified :
      (t u : System Out)
      → u.shared.jobs ≡ t.shared.jobs
      → u.shared.next_job_id ≡ t.shared.next_job_id
      → ((id : ℕ) → owed_notices id u.debts ≡ owed_notices id t.debts)
      → IsNotified t
      → IsNotified u
  same-IsNotified t u jobs ids debts v = record {
    once = λ id j h. grind (arith, v.once id j (sym (ap (find id) jobs) ∙ h), debts id);
    unborn = λ id h. (
      ap (find id) jobs ∙ (v.unborn id (subst (λ n. n ≤ id) ids h)).0,
      debts id ∙ (v.unborn id (subst (λ n. n ≤ id) ids h)).1,
    );
  }
