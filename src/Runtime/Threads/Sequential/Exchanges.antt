-- ===== src/Runtime/Threads/Sequential/Exchanges.antt =====
-- The exchanges of crates/gitility-core/src/runtime/mod.rs with what they owe, and a cancellation
-- and an expiry as sequences of steps.
use gitility.Base.{
  ℕ, ◌≡◌, refl, ap, Bool, true, false, List, [], ◌∷◌, ◌++◌, Option, none, some, Option-cases, inl,
  inr, ◌∙◌, arith,
}
use mathlib.Core.Path.{subst, sym}
use gitility.Error.{Result, err}
use gitility.Runtime.Job.{
  Job, JobState, exchange, queued, failed, cancelled, discard_task, timeout_error, cancelled_error,
  state_eq, raise_flag,
}
use gitility.Runtime.Jobs.{find}
use gitility.Runtime.Jobs.Lookup.{find-update_same, find-update-none}
use gitility.Runtime.Shared.{
  Shared, with_job, exchange_job, settle_changed, publish_terminal, discard_if, expire, cancel,
  cancel_flag, cancel_unqueue, cancel_publish,
}
use gitility.Runtime.Threads.Cases.{cancel_unqueue-jobs}
use gitility.Runtime.Threads.{
  ended, System, Step, expiring, flagging, unqueuing, cancelling, discarding, paying, on_shared,
  pay, publish, published,
}
use gitility.Runtime.Threads.Sequential.{
  Action, expire_job, raise_job_flag, unqueue_job, cancel_job, discard, pay_last, pay_one, act,
  act_all, AreSteps, Performs, found_at, is_at, closing, expire_actions, cancel_actions,
}

module _ {Out : Type 0} where
  -- A state with other shared data and the same debts.
  abbrev pub set : System Out → Shared Out → System Out
  set t s = record t { shared = s }

  act_all-append :
      (xs ys : List (Action Out)) (t : System Out)
      → act_all (xs ++ ys) t ≡ act_all ys (act_all xs t)
  unfolding act_all
  act_all-append [] ys t = refl
  act_all-append (x ∷ xs) ys t = act_all-append xs ys (act x t)

  AreSteps-append :
      (xs ys : List (Action Out)) (t : System Out)
      → AreSteps xs t
      → AreSteps ys (act_all xs t)
      → AreSteps (xs ++ ys) t
  unfolding AreSteps act_all
  AreSteps-append [] ys t p q = q
  AreSteps-append (x ∷ xs) ys t p q = (p.0, AreSteps-append xs ys (act x t) p.1 q)

  pub joined :
      {xs ys : List (Action Out)} {t u v : System Out}
      → Performs xs t u
      → Performs ys u v
      → Performs (xs ++ ys) t v
  joined {xs} {ys} {t} p q = record {
    steps = AreSteps-append xs ys t p.steps (subst (AreSteps ys) (sym p.reaches) q.steps);
    reaches = act_all-append xs ys t ∙ ap (act_all ys) p.reaches ∙ q.reaches;
  }

  exchange_job-at :
      (id : ℕ) (from terminal : JobState) (result : Result Out) (s : Shared Out)
      → is_at id from s ≡ true
      → (j : Job Out) × (s' : Shared Out) × (exchange_job id from terminal result s ≡ (some j, s'))
  unfolding is_at exchange_job exchange
  exchange_job-at id from terminal result s h = elim (Option-cases (find id s.jobs)) [
    | inl e ↦ absurd (ground (arith))
    | inr (j, e) ↦ (j, with_job id (λ k. (exchange from terminal result k).1) s, ground (arith))
  ]

  exchange_job-elsewhere :
      (id : ℕ) (from terminal : JobState) (result : Result Out) (s : Shared Out)
      → is_at id from s ≡ false
      → exchange_job id from terminal result s ≡ (none, s)
  unfolding is_at exchange_job exchange
  exchange_job-elsewhere id from terminal result s h = elim (Option-cases (find id s.jobs)) [
    | inl e ↦ ground (arith)
    | inr (j, e) ↦ ground (arith)
  ]

  -- An exchange that changed its job, with what it owes paid.
  record Ends (from terminal : JobState) (t : System Out) (r : Option (Job Out) × Shared Out)
      : Type 0 where
    owes : Step (published from terminal t.debts r) (pay_one (published from terminal t.debts r))
    paid : pay_one (published from terminal t.debts r) ≡ set t (settle_changed r from terminal).1
    changed : (settle_changed r from terminal).0 ≡ true

  exchanged-Ends :
      (from terminal : JobState) (t : System Out) (j : Job Out) (s : Shared Out)
      → Ends from terminal t (some j, s)
  unfolding pay_one published settle_changed pay
  exchanged-Ends from terminal t j s = record {
    owes = paying [] t.debts (ended j from terminal) refl;
    paid = refl;
    changed = refl;
  }

  publish-Ends :
      (id : ℕ) (from terminal : JobState) (result : Result Out) (t : System Out)
      → is_at id from t.shared ≡ true
      → Ends from terminal t (exchange_job id from terminal result t.shared)
  publish-Ends id from terminal result t h =
      let (j, s, e) = exchange_job-at id from terminal result t.shared h in
      subst (Ends from terminal t) (sym e) (exchanged-Ends from terminal t j s)

  pub publish_terminal-at :
      (id : ℕ) (from terminal : JobState) (result : Result Out) (s : Shared Out)
      → is_at id from s ≡ true
      → (publish_terminal id from terminal result s).0 ≡ true
  unfolding publish_terminal settle_changed
  publish_terminal-at id from terminal result s h =
      let (j, s', e) = exchange_job-at id from terminal result s h in rw e refl

  pub discard_if-true :
      (id : ℕ) (r : Bool × Shared Out) → r.0 ≡ true → discard_if id r ≡ with_job id discard_task r.1
  unfolding discard_if
  discard_if-true id (true, s) h = refl
  discard_if-true id (false, s) h = absurd (cc)

  publish-same :
      (id : ℕ) (from terminal : JobState) (result : Result Out) (t : System Out)
      → is_at id from t.shared ≡ false
      → publish id from terminal result t ≡ t
  unfolding publish published
  publish-same id from terminal result t h =
      rw (exchange_job-elsewhere id from terminal result t.shared h) refl

  pub publish_terminal-same :
      (id : ℕ) (from terminal : JobState) (result : Result Out) (s : Shared Out)
      → is_at id from s ≡ false
      → publish_terminal id from terminal result s ≡ (false, s)
  unfolding publish_terminal settle_changed
  publish_terminal-same id from terminal result s h =
      rw (exchange_job-elsewhere id from terminal result s h) refl

  pub one : (a : Action Out) (t : System Out) → Step t (act a t) → Performs (a ∷ []) t (act a t)
  unfolding act_all AreSteps
  one a t st = record { steps = (st, tt); reaches = refl }

  pub moved :
      {actions : List (Action Out)} {t u v : System Out}
      → Performs actions t u
      → u ≡ v
      → Performs actions t v
  moved p e = record { steps = p.steps; reaches = p.reaches ∙ e }

  -- An exchange that changes its job, and its debt.
  pub settled :
      (id : ℕ) (from terminal : JobState) (result : Result Out) (a : Action Out) (t : System Out)
      → act a t ≡ publish id from terminal result t
      → Step t (publish id from terminal result t)
      → is_at id from t.shared ≡ true
      → Performs (a ∷ pay_last ∷ []) t (set t (publish_terminal id from terminal result t.shared).1)
  unfolding act_all AreSteps publish publish_terminal
  settled id from terminal result a t e st h =
      let ends = publish-Ends id from terminal result t h in
      record {
        steps =
            (subst (Step t) (sym e) st, (subst (λ u. Step u (pay_one u)) (sym e) ends.owes, tt));
        reaches = ap pay_one e ∙ ends.paid;
      }

  -- The exchange that ends a queued job, in `expire` and in `cancel`.
  closes :
      (id : ℕ) (terminal : JobState) (result : Result Out) (a : Action Out) (t : System Out)
      → act a t ≡ publish id queued terminal result t
      → Step t (publish id queued terminal result t)
      → (b : Bool) → is_at id queued t.shared ≡ b
      → Performs
          (a ∷ closing id b)
          t
          (set t (discard_if id (publish_terminal id queued terminal result t.shared)))
  unfolding publish_terminal on_shared discard_if act
  closes id terminal result a t e st true h =
      let r = publish_terminal id queued terminal result t.shared in
      let changed = (publish-Ends id queued terminal result t h).changed in
      joined (settled id queued terminal result a t e st h) (
        moved (one (discard id) (set t r.1) (discarding id))
          (ap (set t) (sym (discard_if-true id r changed))))
  closes id terminal result a t e st false h =
      let same = publish-same id queued terminal result t h in
      let kept = publish_terminal-same id queued terminal result t.shared h in
      moved (one a t (subst (Step t) (sym e) st))
        (e ∙ same ∙ ap (set t) (sym (ap (discard_if id) kept)))

  pub expire-Performs :
      (id : ℕ) (t : System Out)
      → Performs (expire_actions id t.shared) t (set t (expire id t.shared))
  unfolding expire publish act
  expire-Performs id t =
      closes id failed (err timeout_error) (expire_job id) t refl (expiring id)
        (is_at id queued t.shared) refl

  pub is_at-with_job :
      (id : ℕ) (state : JobState) (f : Job Out → Job Out) (s : Shared Out)
      → ((k : Job Out) → (f k).id ≡ k.id)
      → ((k : Job Out) → (f k).state ≡ k.state)
      → is_at id state (with_job id f s) ≡ is_at id state s
  unfolding is_at
  is_at-with_job id state f s ids states = elim (Option-cases (find id s.jobs)) [
    | inl e ↦ ap (λ jobs. found_at state (find id jobs)) (find-update-none id f s.jobs e)
    | inr (j, e) ↦
        ap (found_at state) (find-update_same id f s.jobs ids e)
        ∙ ap (λ st. state_eq st state) (states j)
        ∙ sym (ap (found_at state) e)
  ]

  pub is_at-flagged :
      (id : ℕ) (state : JobState) (s : Shared Out)
      → is_at id state (cancel_unqueue id (cancel_flag id s)) ≡ is_at id state s
  unfolding is_at cancel_flag raise_flag
  is_at-flagged id state s =
      rw (cancel_unqueue-jobs id (cancel_flag id s))
        (is_at-with_job id state raise_flag s (λ k. refl) (λ k. refl))

  pub cancel-Performs :
      (id : ℕ) (t : System Out)
      → Performs (cancel_actions id t.shared) t (set t (cancel id t.shared))
  unfolding cancel cancel_publish on_shared publish act
  cancel-Performs id t =
      let flagged = set t (cancel_flag id t.shared) in
      let u = set t (cancel_unqueue id (cancel_flag id t.shared)) in
      joined (one (raise_job_flag id) t (flagging id)) (
        joined (one (unqueue_job id) flagged (unqueuing id)) (
          closes id cancelled (err cancelled_error) (cancel_job id) u refl (cancelling id)
            (is_at id queued t.shared) (is_at-flagged id queued t.shared)))
