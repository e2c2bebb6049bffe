-- ===== src/Runtime/Jobs/Owners.antt =====
-- The owners' counts and the active jobs behind an admission and behind an end.
use gitility.Base.{
  ℕ, ◌+◌, ◌-◌, ◌≡◌, refl, Bool, true, false, List, [], ◌∷◌, Option, none, some, ◌==◌, if◌then◌else◌,
  All, arith, Bool-cases, if-cases, Option-cases, inl, inr,
}
use gitility.Runtime.Job.{Job}
use gitility.Runtime.Jobs.{find, update, remove_active, jobs_of, add_job, drop_job}
use gitility.Runtime.Jobs.Lookup.{find-id, find-update_same, find-update_other, find-update-none}

-- No owner has two entries.
abbrev pub AreDistinct : List (ℕ × ℕ) → Type 0
AreDistinct [] = Unit
AreDistinct ((o, n) ∷ owners) = (jobs_of o owners ≡ 0) × AreDistinct owners

-- One where two numbers are the same.
unfoldable pub same : ℕ → ℕ → ℕ
same a b = if a == b then 1 else 0

-- How many active jobs an owner has.
abbrev pub active_of : ℕ → List (ℕ × ℕ) → ℕ
active_of owner [] = 0
active_of owner ((id, o) ∷ active) = same o owner + active_of owner active

pub jobs_of-add_job :
    (p o : ℕ) (owners : List (ℕ × ℕ)) → jobs_of o (add_job p owners) ≡ same p o + jobs_of o owners
unfolding jobs_of add_job same
jobs_of-add_job p o [] = ground arith
jobs_of-add_job p o ((q, n) ∷ owners) = ground (arith, jobs_of-add_job p o owners)

pub add_job-AreDistinct :
    (p : ℕ) (owners : List (ℕ × ℕ)) → AreDistinct owners → AreDistinct (add_job p owners)
unfolding jobs_of add_job same
add_job-AreDistinct p [] h = (refl, tt)
add_job-AreDistinct p ((q, n) ∷ owners) h =
    if-cases AreDistinct (q == p) (λ e. h)
      (λ e. (grind (arith, jobs_of-add_job p q owners, h.0), add_job-AreDistinct p owners h.1))

pub jobs_of-drop_job :
    (p o : ℕ) (owners : List (ℕ × ℕ))
    → AreDistinct owners
    → jobs_of o (drop_job p owners) ≡ jobs_of o owners - same p o
unfolding jobs_of drop_job same
jobs_of-drop_job p o [] h = ground arith
jobs_of-drop_job p o ((q, n) ∷ owners) h = ground (arith, jobs_of-drop_job p o owners h.1)

pub drop_job-AreDistinct :
    (p : ℕ) (owners : List (ℕ × ℕ)) → AreDistinct owners → AreDistinct (drop_job p owners)
unfolding jobs_of drop_job same
drop_job-AreDistinct p [] h = tt
drop_job-AreDistinct p ((q, n) ∷ owners) h =
    if-cases AreDistinct (q == p) (λ e. if-cases AreDistinct (n - 1 == 0) (λ _. h.1) (λ _. h))
      (λ e.
        (grind (arith, jobs_of-drop_job p q owners h.1, h.0), drop_job-AreDistinct p owners h.1))

pub remove_active_absent :
    (id : ℕ) (active : List (ℕ × ℕ))
    → (remove_active id active).1 ≡ false
    → (remove_active id active).0 ≡ active
unfolding remove_active
remove_active_absent id [] h = refl
remove_active_absent id ((i, q) ∷ active) h = grind (arith, remove_active_absent id active)

module _ {Out : Type 0} where
  -- The owner of the job with an ID.
  unfoldable pub owner_at : ℕ → List (Job Out) → Option ℕ
  unfolding find
  owner_at id jobs = elim (find id jobs) [ none ↦ none | some j ↦ some j.owner ]

  abbrev pub AreOwned : List (Job Out) → List (ℕ × ℕ) → Type 0
  AreOwned jobs = All (λ e. owner_at e.0 jobs ≡ some e.1)

  pub owner_at-update :
      (id other : ℕ) (f : Job Out → Job Out) (jobs : List (Job Out))
      → ((k : Job Out) → (f k).id ≡ k.id)
      → ((k : Job Out) → (f k).owner ≡ k.owner)
      → owner_at other (update id f jobs) ≡ owner_at other jobs
  unfolding owner_at
  owner_at-update id other f jobs ids owners = elim (Bool-cases (id == other)) [
    | inr e ↦ grind (arith, find-update_other id other f jobs ids e)
    | inl e ↦ elim (Option-cases (find id jobs)) [
      | inl n ↦ grind (arith, find-update-none id f jobs n)
      | inr (j, n) ↦ grind (arith, find-update_same id f jobs ids n, owners j)
    ]
  ]

  pub remove_active-AreOwned :
      (id : ℕ) (jobs : List (Job Out)) (active : List (ℕ × ℕ))
      → AreOwned jobs active
      → AreOwned jobs (remove_active id active).0
  unfolding remove_active
  remove_active-AreOwned id jobs [] h = tt
  remove_active-AreOwned id jobs ((i, o) ∷ active) h =
      if-cases {A = List (ℕ × ℕ) × Bool} (λ r. AreOwned jobs r.0) (i == id) (λ _. h.1)
        (λ _. (h.0, remove_active-AreOwned id jobs active h.1))

  pub active_of-remove_active :
      (id p o : ℕ) (jobs : List (Job Out)) (active : List (ℕ × ℕ))
      → AreOwned jobs active
      → owner_at id jobs ≡ some p
      → (remove_active id active).1 ≡ true
      → same p o + active_of o (remove_active id active).0 ≡ active_of o active
  unfolding remove_active
  active_of-remove_active id p o jobs [] h e found = absurd (cc)
  active_of-remove_active id p o jobs ((i, q) ∷ active) h e found =
      grind (arith, active_of-remove_active id p o jobs active h.1 e, h.0)

  pub owner_at-found :
      (id : ℕ) (jobs : List (Job Out)) {j : Job Out}
      → find id jobs ≡ some j
      → owner_at j.id jobs ≡ some j.owner
  unfolding owner_at
  owner_at-found id jobs h = grind (arith, find-id id jobs h, h)

  pub owner_at-first :
      (k : Job Out) (jobs : List (Job Out)) → owner_at k.id (k ∷ jobs) ≡ some k.owner
  unfolding owner_at find
  owner_at-first k jobs = ground arith

  -- A job in front with an ID that was not there.
  pub owner_at-behind :
      (k : Job Out) (jobs : List (Job Out)) (id owner : ℕ)
      → find k.id jobs ≡ none
      → owner_at id jobs ≡ some owner
      → owner_at id (k ∷ jobs) ≡ some owner
  unfolding owner_at find
  owner_at-behind k jobs id owner fresh h = elim (Bool-cases (k.id == id)) [
    | inl e ↦ absurd (grind (arith, fresh, h, e))
    | inr e ↦ grind (arith, h, e)
  ]
