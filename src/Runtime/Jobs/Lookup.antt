-- ===== src/Runtime/Jobs/Lookup.antt =====
-- Lookups in the shared jobs behind a change, and the jobs in a state.
use gitility.Base.{
  ℕ, ◌+◌, ◌≡◌, refl, sym, ◌∙◌, ◌⊎◌, inl, inr, Bool-cases, Option-cases, false, List, [], ◌∷◌, none,
  some, ◌==◌, if◌then◌else◌, length, arith,
}
use gitility.Runtime.Job.{Job, JobState, state_eq}
use gitility.Runtime.Jobs.{find, update}

-- One for a job in the state, zero for another.
unfoldable pub tally : JobState → JobState → ℕ
tally at wanted = if state_eq at wanted then 1 else 0

module _ {Out : Type 0} where
  -- How many jobs are in a state.
  abbrev pub in_state : JobState → List (Job Out) → ℕ
  in_state st [] = 0
  in_state st (j ∷ jobs) = tally j.state st + in_state st jobs

  pub find-update_same :
      (id : ℕ) (f : Job Out → Job Out) (jobs : List (Job Out)) {j : Job Out}
      → ((k : Job Out) → (f k).id ≡ k.id)
      → find id jobs ≡ some j
      → find id (update id f jobs) ≡ some (f j)
  unfolding find update
  find-update_same id f [] keeps h = absurd (cc)
  find-update_same id f (k ∷ jobs) keeps h =
      grind (arith, keeps k, find-update_same id f jobs keeps)

  pub find-update-none :
      (id : ℕ) (f : Job Out → Job Out) (jobs : List (Job Out))
      → find id jobs ≡ none
      → update id f jobs ≡ jobs
  unfolding find update
  find-update-none id f [] h = refl
  find-update-none id f (k ∷ jobs) h = ground (arith, find-update-none id f jobs)

  pub find-update_other :
      (id other : ℕ) (f : Job Out → Job Out) (jobs : List (Job Out))
      → ((k : Job Out) → (f k).id ≡ k.id)
      → (id == other) ≡ false
      → find other (update id f jobs) ≡ find other jobs
  unfolding find update
  find-update_other id other f [] keeps h = refl
  find-update_other id other f (k ∷ jobs) keeps h =
      ground (arith, keeps k, find-update_other id other f jobs keeps h)

  pub find-id : (id : ℕ) (jobs : List (Job Out)) {j : Job Out} → find id jobs ≡ some j → j.id ≡ id
  unfolding find
  find-id id [] h = absurd (cc)
  find-id id (k ∷ jobs) h = grind (arith, find-id id jobs)

  -- A job behind a change is a job from before, or the changed one.
  pub find-update :
      (id other : ℕ) (f : Job Out → Job Out) (jobs : List (Job Out)) {k : Job Out}
      → ((j : Job Out) → (f j).id ≡ j.id)
      → find other (update id f jobs) ≡ some k
      → (j : Job Out) × (find other jobs ≡ some j)
        × ((((id == other) ≡ false) × (k ≡ j)) ⊎ ((id ≡ other) × (k ≡ f j)))
  find-update id other f jobs keeps h = elim (Bool-cases (id == other)) [
    | inr e ↦ (_, sym (find-update_other id other f jobs keeps e) ∙ h, inl (e, refl))
    | inl e ↦ elim (Option-cases (find other jobs)) [
      | inl n ↦ absurd (grind (arith, find-update-none id f jobs))
      | inr (j, n) ↦ (j, n, inr (ground arith, grind (arith, find-update_same id f jobs keeps)))
    ]
  ]

  pub find-update_absent :
      (id other : ℕ) (f : Job Out → Job Out) (jobs : List (Job Out))
      → ((j : Job Out) → (f j).id ≡ j.id)
      → find other jobs ≡ none
      → find other (update id f jobs) ≡ none
  find-update_absent id other f jobs keeps h = elim (Option-cases (find other (update id f jobs))) [
    | inl e ↦ e
    | inr (k, e) ↦
        absurd (let (j, found, _) = find-update id other f jobs keeps e in grind (arith, found, h))
  ]

  pub length-update :
      (id : ℕ) (f : Job Out → Job Out) (jobs : List (Job Out))
      → length (update id f jobs) ≡ length jobs
  unfolding update
  length-update id f [] = refl
  length-update id f (k ∷ jobs) = ground (arith, length-update id f jobs)

  pub in_state-update :
      (st : JobState) (id : ℕ) (f : Job Out → Job Out) (jobs : List (Job Out)) {j : Job Out}
      → find id jobs ≡ some j
      → in_state st (update id f jobs) + tally j.state st ≡ in_state st jobs + tally (f j).state st
  unfolding find update
  in_state-update st id f [] h = absurd (cc)
  in_state-update st id f (k ∷ jobs) h = grind (arith, in_state-update st id f jobs)

  -- A change that keeps the states.
  pub in_state-update_same :
      (st : JobState) (id : ℕ) (f : Job Out → Job Out) (jobs : List (Job Out))
      → ((k : Job Out) → (f k).state ≡ k.state)
      → in_state st (update id f jobs) ≡ in_state st jobs
  unfolding update
  in_state-update_same st id f [] keeps = refl
  in_state-update_same st id f (k ∷ jobs) keeps =
      ground (arith, keeps k, in_state-update_same st id f jobs keeps)
