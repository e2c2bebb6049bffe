-- ===== src/Runtime/Threads/Shutdown.antt =====
-- The jobs that a shutdown of crates/gitility-core/src/runtime/mod.rs hands over.
use mathlib.Core.Path.{subst, sym}
use gitility.Base.{
  ℕ, ◌≡◌, refl, ap, ◌∙◌, Bool, ◌||◌, List, [], ◌∷◌, ◌++◌, true, false, List, Option, some, ◌==◌,
  arith, Bool-cases, inl, inr,
}
use gitility.Error.{Result, err}
use gitility.Budget.{BudgetLimits}
use gitility.Runtime.Job.{
  Job, JobState, queued, running, failed, cancelled, is_terminal, terminal_of, run_result,
  discard_task, try_start, exchange, raise_flag, take_output, notify, timeout_error,
  cancelled_error,
}
use gitility.Runtime.Job.Frames.{
  discard_task-SameLife, raise_flag-SameLife, exchange-id, notify-id, SameLife,
  terminal_of-is_terminal, try_start-id, take_output-SameLife, run_result-SameLife,
}
use gitility.Runtime.Jobs.{find, update}
use gitility.Runtime.Shared.{
  new_shared, refused, shutting_down, RuntimeConfig, settle, record_terminal, cancel_flag,
}
use gitility.Runtime.Admission.{
  sweep, admit, reject, enqueue, fresh_job, begin_shutdown, start_exchange, count_started, run_task,
  take_job_output,
}
use gitility.Runtime.Threads.{
  Debt, started, ended, System, Step, sweeping, admitting, dequeuing, beginning, running_task,
  finishing, expiring, flagging, unqueuing, cancelling, discarding, paying, taking, shutting, Reach,
  here, next, start, on_shared, pay, publish, starting,
}
use gitility.Runtime.Threads.Cases.{admit-cases, publish-cases, starting-cases}
use gitility.Runtime.Threads.Notices.{IsNotified}
use gitility.Runtime.Threads.Notices.Once.{Reach-IsNotified}
use gitility.Runtime.Jobs.Lookup.{find-update}
use gitility.Runtime.Threads.Cases.{cancel_unqueue-cases}
use gitility.Runtime.Threads.Notices.{owed_notices, owed_notices-middle}
use gitility.Base.{any}
use mathlib.Core.List.{reverse, map, reverse-cons}
use gitility.Runtime.Jobs.{remove_active}

-- An ID among the active ones.
abbrev pub listed : ℕ → List (ℕ × ℕ) → Bool
listed id active = any (λ e. e.0 == id) active

abbrev pub named : ℕ → List ℕ → Bool
named id ids = any (λ i. i == id) ids

named-append : (id : ℕ) (xs ys : List ℕ) → named id (xs ++ ys) ≡ (named id xs || named id ys)
unfolding any
named-append id [] ys = refl
named-append id (x ∷ xs) ys = ground (arith, named-append id xs ys)

named-reverse : (id : ℕ) (xs : List ℕ) → named id (reverse xs) ≡ named id xs
unfolding any
named-reverse id [] = refl
named-reverse id (x ∷ xs) =
    ap (named id) (reverse-cons x xs)
    ∙ named-append id (reverse xs) (x ∷ [])
    ∙ ground (arith, named-reverse id xs)

named-map : (id : ℕ) (active : List (ℕ × ℕ)) → named id (map (λ e. e.0) active) ≡ listed id active
unfolding any
named-map id [] = refl
named-map id (e ∷ active) = ground (arith, named-map id active)

listed-remove_active :
    (at id : ℕ) (active : List (ℕ × ℕ))
    → (at == id) ≡ false
    → listed id (remove_active at active).0 ≡ listed id active
unfolding any remove_active
listed-remove_active at id [] h = refl
listed-remove_active at id ((i, o) ∷ active) h = ground (arith, listed-remove_active at id active h)

module _ {Out : Type 0} where
  -- A job that has not come to its end is active.
  IsListed : List (Job Out) → List (ℕ × ℕ) → Type 0
  IsListed jobs active =
      (id : ℕ) (j : Job Out)
      → find id jobs ≡ some j
      → is_terminal j.state ≡ false
      → listed id active ≡ true

  update-IsListed :
      (at : ℕ) (f : Job Out → Job Out) (jobs : List (Job Out)) (active : List (ℕ × ℕ))
      → ((k : Job Out) → (f k).id ≡ k.id)
      → ((j : Job Out)
          → find at jobs ≡ some j
          → is_terminal (f j).state ≡ false
          → is_terminal j.state ≡ false)
      → IsListed jobs active
      → IsListed (update at f jobs) active
  unfolding IsListed
  update-IsListed at f jobs active ids lives v id k h live =
      let (j, found, now) = find-update at id f jobs ids h in
      elim now [
        | inl (e, is) ↦ v id j found (ap (λ x. is_terminal x.state) (sym is) ∙ live)
        | inr (e, is) ↦ v id j found (
            lives j (ap (λ i. find i jobs) e ∙ found)
              (ap (λ x. is_terminal x.state) (sym is) ∙ live))
      ]

  with_job-IsListed :
      (at : ℕ) (f : Job Out → Job Out) (jobs : List (Job Out)) (active : List (ℕ × ℕ))
      → ((k : Job Out) → SameLife k (f k))
      → IsListed jobs active
      → IsListed (update at f jobs) active
  with_job-IsListed at f jobs active keeps v =
      update-IsListed at f jobs active (λ k. (keeps k).same_id)
        (λ j _ h. ap is_terminal (sym (keeps j).same_state) ∙ h) v

  Lists : System Out → Type 0
  Lists t = IsListed t.shared.jobs t.shared.active

  publish-Lists :
      (id : ℕ) (from terminal : JobState) (result : Result Out) (t : System Out)
      → is_terminal terminal ≡ true
      → Lists t
      → Lists (publish id from terminal result t)
  unfolding Lists
  publish-Lists id from terminal result t over v = elim (publish-cases id t from terminal result) [
    | inl e ↦ subst Lists (sym e) v
    | inr (j, found, at, ends, e) ↦ subst Lists (sym e) (
        update-IsListed id (λ k. (exchange from terminal result k).1) t.shared.jobs t.shared.active
          (exchange-id from terminal result) (λ i there live. absurd (grind arith)) v)
  ]

  starting-Lists :
      (id : ℕ) (t : System Out) → Lists t → Lists (starting id t.debts (start_exchange id t.shared))
  unfolding Lists
  starting-Lists id t v = elim (starting-cases id t) [
    | inl e ↦ subst Lists (sym e) v
    | inr (j, found, at, runs, e) ↦ subst Lists (sym e) (
        update-IsListed id (λ k. (try_start k).1) t.shared.jobs t.shared.active try_start-id
          (λ i there live. grind arith) v)
  ]

  enqueue-Lists :
      (owner : ℕ) (limits : BudgetLimits) (deadline : Option ℕ) (t : System Out)
      → Lists t
      → Lists (on_shared (λ s. (enqueue owner limits deadline s).1) t)
  unfolding Lists IsListed on_shared enqueue fresh_job find any
  enqueue-Lists owner limits deadline t v id j h live =
      elim (Bool-cases (t.shared.next_job_id == id)) [
        | inl e ↦ ground arith
        | inr e ↦ grind (arith, v id j)
      ]

  admit-Lists :
      (owner : ℕ) (limits : BudgetLimits) (deadline : Option ℕ) (t : System Out)
      → Lists t
      → Lists (on_shared (λ s. (admit owner limits deadline s).1) t)
  unfolding Lists on_shared reject
  admit-Lists owner limits deadline t v = elim (admit-cases owner limits deadline t.shared) [
    | inl (e, _, _) ↦
        subst (λ s. IsListed s.jobs s.active) (sym e) (enqueue-Lists owner limits deadline t v)
    | inr (x, e) ↦ subst (λ s. IsListed s.jobs s.active) (sym e) v
  ]

  -- The job of a debt has come to its end, so that it may leave the active ones.
  pay-Lists :
      (before behind : List (Debt Out)) (d : Debt Out) (t : System Out)
      → t.debts ≡ before ++ (d ∷ behind)
      → IsNotified t
      → Lists t
      → Lists (record { shared = pay d t.shared; debts = before ++ behind })
  unfolding Lists IsListed pay count_started settle record_terminal notify
  pay-Lists before behind (started i) t e n v = v
  pay-Lists before behind (ended i from terminal) t e n v =
      update-IsListed i.id notify t.shared.jobs (remove_active i.id t.shared.active).0 notify-id
        (λ j _ h. h) removed
    where
      removed : IsListed t.shared.jobs (remove_active i.id t.shared.active).0
      removed id j found live = elim (Bool-cases (i.id == id)) [
        | inr apart ↦ listed-remove_active i.id id t.shared.active apart ∙ v id j found live
        | inl is ↦ absurd (
            grind (
              arith,
              n.once id j found,
              ap (owed_notices id) e,
              owed_notices-middle id before behind (ended i from terminal),
            ))
      ]

  Step-Lists : {t u : System Out} → Step t u → IsNotified t → Lists t → Lists u
  unfolding Lists on_shared run_task cancel_flag take_job_output sweep begin_shutdown
  Step-Lists (sweeping now) n v = v
  Step-Lists {t} (admitting owner limits deadline room) n v = admit-Lists owner limits deadline t v
  Step-Lists (dequeuing id queue e) n v = v
  Step-Lists {t} (beginning id) n v = starting-Lists id t v
  Step-Lists {t} (running_task id now later effect) n v =
      with_job-IsListed id (λ k. (run_result now later effect k).1) t.shared.jobs t.shared.active
        (run_result-SameLife now later effect) v
  Step-Lists {t} (finishing id result) n v =
      publish-Lists id running (terminal_of result) result t (terminal_of-is_terminal result) v
  Step-Lists {t} (expiring id) n v = publish-Lists id queued failed (err timeout_error) t refl v
  Step-Lists {t} (flagging id) n v =
      with_job-IsListed id raise_flag t.shared.jobs t.shared.active raise_flag-SameLife v
  Step-Lists {t} (unqueuing id) n v = elim (cancel_unqueue-cases id t.shared) [
    | inl e ↦ subst (λ s. IsListed s.jobs s.active) (sym e) v
    | inr e ↦ subst (λ s. IsListed s.jobs s.active) (sym e) v
  ]
  Step-Lists {t} (cancelling id) n v =
      publish-Lists id queued cancelled (err cancelled_error) t refl v
  Step-Lists {t} (discarding id) n v =
      with_job-IsListed id discard_task t.shared.jobs t.shared.active discard_task-SameLife v
  Step-Lists {t} (paying before behind d e) n v = pay-Lists before behind d t e n v
  Step-Lists {t} (taking id) n v =
      with_job-IsListed id (λ k. (take_output k).1) t.shared.jobs t.shared.active
        take_output-SameLife v
  Step-Lists shutting n v = v

  Reach-Lists : (config : RuntimeConfig) {t : System Out} → Reach (start config) t → Lists t
  unfolding Lists IsListed new_shared find
  Reach-Lists config here = λ id j h live. absurd (cc)
  Reach-Lists config (next r st) = Step-Lists st (Reach-IsNotified config r) (Reach-Lists config r)

  -- In every state that the threads reach from a new runtime, by any interleaving, the jobs that
  -- `begin_shutdown` hands over for cancellation include every job that has not come to its end, and
  -- the state that it leaves has an empty queue and refuses every submission.
  pub begin_shutdown-Reaches :
      (config : RuntimeConfig) {t : System Out}
      → Reach (start config) t
      → ((id : ℕ) (j : Job Out)
          → find id t.shared.jobs ≡ some j
          → is_terminal j.state ≡ false
          → named id (begin_shutdown t.shared).0 ≡ true)
        × ((begin_shutdown t.shared).1.queue ≡ [])
        × ((owner : ℕ) (limits : BudgetLimits) (deadline : Option ℕ)
            → (admit owner limits deadline (begin_shutdown t.shared).1).0 ≡ refused shutting_down)
  unfolding Lists IsListed begin_shutdown admit reject
  begin_shutdown-Reaches config {t} r = (
    λ id j found live.
        named-reverse id (map (λ e. e.0) t.shared.active)
        ∙ named-map id t.shared.active
        ∙ Reach-Lists config r id j found live,
    refl,
    λ owner limits deadline. refl,
  )
