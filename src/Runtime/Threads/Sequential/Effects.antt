-- ===== src/Runtime/Threads/Sequential/Effects.antt =====
-- What a cancellation and a worker's turn of crates/gitility-core/src/runtime/mod.rs do to the job.
use gitility.Base.{
  ℕ, ◌+◌, ◌≡◌, refl, ap, sym, ◌∙◌, Bool, true, false, Option, none, some, if◌then◌else◌,
  Option-cases, Bool-cases, inl, inr, arith,
}
use gitility.Error.{Result, err}
use gitility.Runtime.Job.{
  Job, JobState, exchange, notify, queued, cancelled, state_eq, cancelled_error, discard_task,
  raise_flag,
}
use gitility.Runtime.Job.Frames.{exchange-id}
use gitility.Runtime.Jobs.{find, update}
use gitility.Runtime.Jobs.Lookup.{find-update_same, find-update-none, find-id}
use gitility.Runtime.Shared.{
  Shared, with_job, exchange_job, settle, settle_changed, publish_terminal, discard_if, cancel,
  cancel_flag, cancel_unqueue, cancel_publish, record_terminal,
}
use gitility.Runtime.Threads.Sequential.{is_at, found_at}
use gitility.Runtime.Threads.Sequential.Exchanges.{
  publish_terminal-at, publish_terminal-same, discard_if-true, is_at-flagged,
}
use gitility.Runtime.Threads.Cases.{cancel_unqueue-jobs}

module _ {Out : Type 0} where
  abbrev pub over : (Job Out → Job Out) → Option (Job Out) → Option (Job Out)
  over f none = none
  over f (some j) = some (f j)

  -- A queued job ends, with the error as its output, its task gone and its observer called once
  -- more; of any other only the flag is raised.
  unfoldable pub after_cancel : Job Out → Job Out
  after_cancel j =
      let flagged = record (j.budget) { cancelled = true } in
      if state_eq j.state queued
      then record j {
        state = cancelled;
        budget = flagged;
        task = false;
        output = some (err cancelled_error);
        notices = j.notices + 1;
      }
      else record j { budget = flagged }

  pub find-with_job :
      (id : ℕ) (f : Job Out → Job Out) (s : Shared Out)
      → ((k : Job Out) → (f k).id ≡ k.id)
      → find id (with_job id f s).jobs ≡ over f (find id s.jobs)
  find-with_job id f s ids = elim (Option-cases (find id s.jobs)) [
    | inl e ↦ ap (find id) (find-update-none id f s.jobs e) ∙ e ∙ sym (ap (over f) e)
    | inr (j, e) ↦ find-update_same id f s.jobs ids e ∙ sym (ap (over f) e)
  ]

  -- A job behind an exchange, and its observer where it changed.
  abbrev pub published_job : JobState → JobState → Result Out → Job Out → Job Out
  published_job from terminal result j =
      if state_eq j.state from then notify (exchange from terminal result j).1 else j

  publish-jobs :
      (id : ℕ) (from terminal : JobState) (result : Result Out) (s : Shared Out) (j : Job Out)
      → find id s.jobs ≡ some j
      → j.id ≡ id
      → state_eq j.state from ≡ true
      → (publish_terminal id from terminal result s).1.jobs
        ≡ update id notify (update id (λ k. (exchange from terminal result k).1) s.jobs)
  unfolding publish_terminal settle_changed exchange_job settle record_terminal exchange
  publish-jobs id from terminal result s j e same h = ground arith

  publish-untouched :
      (id : ℕ) (from terminal : JobState) (result : Result Out) (s : Shared Out) (j : Job Out)
      → find id s.jobs ≡ some j
      → state_eq j.state from ≡ false
      → (publish_terminal id from terminal result s).1.jobs ≡ s.jobs
  unfolding publish_terminal settle_changed exchange_job exchange
  publish-untouched id from terminal result s j e h = ground arith

  publish-absent :
      (id : ℕ) (from terminal : JobState) (result : Result Out) (s : Shared Out)
      → find id s.jobs ≡ none
      → (publish_terminal id from terminal result s).1.jobs ≡ s.jobs
  unfolding publish_terminal settle_changed exchange_job
  publish-absent id from terminal result s e = ground arith

  notify-id : (k : Job Out) → (notify k).id ≡ k.id
  unfolding notify
  notify-id k = refl

  pub find-publish :
      (id : ℕ) (from terminal : JobState) (result : Result Out) (s : Shared Out)
      → find id (publish_terminal id from terminal result s).1.jobs
        ≡ over (published_job from terminal result) (find id s.jobs)
  find-publish id from terminal result s = elim (Option-cases (find id s.jobs)) [
    | inl e ↦
        ap (find id) (publish-absent id from terminal result s e)
        ∙ e
        ∙ sym (ap (over (published_job from terminal result)) e)
    | inr (j, e) ↦ elim (Bool-cases (state_eq j.state from)) [
      | inl h ↦
          ap (find id) (publish-jobs id from terminal result s j e (find-id id s.jobs e) h)
          ∙ find-update_same id notify (update id (λ k. (exchange from terminal result k).1) s.jobs)
              notify-id
              (find-update_same id (λ k. (exchange from terminal result k).1) s.jobs
                (exchange-id from terminal result) e)
          ∙ sym (ap (over (published_job from terminal result)) e ∙ rw h refl)
      | inr h ↦
          ap (find id) (publish-untouched id from terminal result s j e h)
          ∙ e
          ∙ sym (ap (over (published_job from terminal result)) e ∙ rw h refl)
    ]
  ]

  find-flagged :
      (id : ℕ) (s : Shared Out)
      → find id (cancel_unqueue id (cancel_flag id s)).jobs ≡ over raise_flag (find id s.jobs)
  unfolding cancel_flag raise_flag
  find-flagged id s =
      ap (find id) (cancel_unqueue-jobs id (cancel_flag id s))
      ∙ find-with_job id raise_flag s (λ k. refl)

  ending : Job Out → Job Out
  ending j = discard_task (published_job queued cancelled (err cancelled_error) (raise_flag j))

  ending-after : (j : Job Out) → state_eq j.state queued ≡ true → ending j ≡ after_cancel j
  unfolding ending after_cancel raise_flag exchange notify discard_task
  ending-after j h = rw h refl

  flagged-after : (j : Job Out) → state_eq j.state queued ≡ false → raise_flag j ≡ after_cancel j
  unfolding after_cancel raise_flag
  flagged-after j h = rw h refl

  find-ended :
      (id : ℕ) (u : Shared Out)
      → (b : Bool) → is_at id queued u ≡ b
      → find id (discard_if id (publish_terminal id queued cancelled (err cancelled_error) u)).jobs
        ≡ (if b
            then over discard_task
                (over (published_job queued cancelled (err cancelled_error)) (find id u.jobs))
            else find id u.jobs)
  unfolding discard_task discard_if
  find-ended id u true h =
      let r = publish_terminal id queued cancelled (err cancelled_error) u in
      ap (λ s. find id s.jobs)
        (discard_if-true id r (publish_terminal-at id queued cancelled (err cancelled_error) u h))
      ∙ find-with_job id discard_task r.1 (λ k. refl)
      ∙ ap (over discard_task) (find-publish id queued cancelled (err cancelled_error) u)
  find-ended id u false h =
      ap (λ r. find id (discard_if id r).jobs)
        (publish_terminal-same id queued cancelled (err cancelled_error) u h)

  pub find-cancel :
      (id : ℕ) (s : Shared Out) → find id (cancel id s).jobs ≡ over after_cancel (find id s.jobs)
  unfolding cancel cancel_publish is_at ending discard_task
  find-cancel id s =
      let u = cancel_unqueue id (cancel_flag id s) in
      elim (Option-cases (find id s.jobs)) [
        | inl e ↦
            find-ended id u false (is_at-flagged id queued s ∙ ap (found_at queued) e)
            ∙ find-flagged id s
            ∙ ap (over raise_flag) e
            ∙ sym (ap (over after_cancel) e)
        | inr (j, e) ↦ elim (Bool-cases (state_eq j.state queued)) [
          | inl h ↦
              find-ended id u true (is_at-flagged id queued s ∙ ap (found_at queued) e ∙ h)
              ∙ ap
                  (λ f.
                    over discard_task
                      (over (published_job queued cancelled (err cancelled_error)) f))
                  (find-flagged id s ∙ ap (over raise_flag) e)
              ∙ ap some (ending-after j h)
              ∙ sym (ap (over after_cancel) e)
          | inr h ↦
              find-ended id u false (is_at-flagged id queued s ∙ ap (found_at queued) e ∙ h)
              ∙ find-flagged id s
              ∙ ap (over raise_flag) e
              ∙ ap some (flagged-after j h)
              ∙ sym (ap (over after_cancel) e)
        ]
      ]
