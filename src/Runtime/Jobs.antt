-- ===== src/Runtime/Jobs.antt =====
-- The jobs that the threads share, newest first, and the maps of the runtime's queue state:
-- `active` by job ID, `owners` by owner.
pub mod Lookup
pub mod Owners
use gitility.Base.{
  ℕ, ◌+◌, ◌-◌, Bool, true, false, List, [], ◌∷◌, Option, none, some, ◌==◌, if◌then◌else◌,
}
use gitility.Runtime.Job.{Job}

module _ {Out : Type 0} where
  unfoldable pub find : ℕ → List (Job Out) → Option (Job Out)
  find id [] = none
  find id (j ∷ jobs) = if j.id == id then some j else find id jobs

  -- A change of the job with the ID, seen through every handle to it.
  unfoldable pub update : ℕ → (Job Out → Job Out) → List (Job Out) → List (Job Out)
  update id f [] = []
  update id f (j ∷ jobs) = if j.id == id then f j ∷ jobs else j ∷ update id f jobs

-- `active.remove(&id)`: the map without the ID, and whether it was there. An entry has the owner of
-- its job.
unfoldable pub remove_active : ℕ → List (ℕ × ℕ) → List (ℕ × ℕ) × Bool
remove_active id [] = ([], false)
remove_active id ((i, o) ∷ active) =
    let (rest, found) = remove_active id active in
    if i == id then (active, true) else ((i, o) ∷ rest, found)

-- `owners.get(&owner).copied().unwrap_or(0)`.
unfoldable pub jobs_of : ℕ → List (ℕ × ℕ) → ℕ
jobs_of owner [] = 0
jobs_of owner ((o, n) ∷ owners) = if o == owner then n else jobs_of owner owners

-- `*owners.entry(owner).or_insert(0) += 1`.
unfoldable pub add_job : ℕ → List (ℕ × ℕ) → List (ℕ × ℕ)
add_job owner [] = (owner, 1) ∷ []
add_job owner ((o, n) ∷ owners) =
    if o == owner then (o, n + 1) ∷ owners else (o, n) ∷ add_job owner owners

-- The owner's count falls by one, and its entry goes at zero.
unfoldable pub drop_job : ℕ → List (ℕ × ℕ) → List (ℕ × ℕ)
drop_job owner [] = []
drop_job owner ((o, n) ∷ owners) =
    if o == owner
    then (if n - 1 == 0 then owners else (o, n - 1) ∷ owners)
    else (o, n) ∷ drop_job owner owners

-- `queue.iter().position(...)` and `queue.remove(position)`: the queue holds job IDs.
unfoldable pub unqueue : ℕ → List ℕ → List ℕ
unqueue id [] = []
unqueue id (i ∷ queue) = if i == id then queue else i ∷ unqueue id queue
