-- ===== src/Runtime/ThreadBudget/Interleaving.antt =====
-- Any number of threads on one budget of crates/gitility-core/src/runtime/thread_budget.rs.
use gitility.Base.{
  ℕ, zero, suc, ◌+◌, ◌≤◌, ◌<◌, ◌≡◌, refl, ap, ◌-◌, Bool, false, some, List, [], ◌∷◌, ◌++◌, arith,
  u64_mod,
}
use gitility.Runtime.ThreadBudget.{
  ThreadBudget, BudgetExhausted, Attempt, begin, Iteration, reserved, rejected, retry, iterate,
  split_one, release, new,
}

-- The budget, the attempts under way and the counts of the live reservations.
pub record System : Type 0 where
  pub budget : ThreadBudget
  pub attempts : List Attempt
  pub live : List ℕ

-- What an iteration leaves of its attempt and of the reservations.
unfoldable pub settle : List Attempt → List Attempt → List ℕ → Iteration × ThreadBudget → System
settle before behind live (reserved count, b) = record {
  budget = b;
  attempts = before ++ behind;
  live = count ∷ live;
}
settle before behind live (rejected _, b) = record {
  budget = b;
  attempts = before ++ behind;
  live = live;
}
settle before behind live (retry a, b) = record {
  budget = b;
  attempts = before ++ (a ∷ behind);
  live = live;
}

-- One atomic step of some thread.
pub data Step (s : System) : System → Type 0 where
  call : (count : ℕ) → Step s (record s { attempts = begin count s.budget ∷ s.attempts })
  iteration :
      (spurious : Bool) (before behind : List Attempt) (a : Attempt)
      → s.attempts ≡ before ++ (a ∷ behind)
      → Step s (settle before behind s.live (iterate spurious a s.budget))
  split :
      (before behind : List ℕ) (count stays off : ℕ)
      → s.live ≡ before ++ (count ∷ behind)
      → split_one count ≡ some (stays, off)
      → Step s (record s { live = before ++ (stays ∷ off ∷ behind) })
  dropped :
      (before behind : List ℕ) (count : ℕ)
      → s.live ≡ before ++ (count ∷ behind)
      → Step s (record s { budget = release count s.budget; live = before ++ behind })

pub data Reach (s : System) : System → Type 0 where
  here : Reach s s
  next : {t u : System} → Reach s t → Step t u → Reach s u

abbrev pub start : ℕ → System
start limit = record { budget = new limit; attempts = []; live = [] }

abbrev pub sum : List ℕ → ℕ
sum [] = 0
sum (x ∷ xs) = x + sum xs

sum-append : (xs ys : List ℕ) → sum (xs ++ ys) ≡ sum xs + sum ys
sum-append [] ys = omega arith
sum-append (x ∷ xs) ys = omega (arith, sum-append xs ys)

pub record IsSafe (limit : ℕ) (s : System) : Type 0 where
  pub fixed : s.budget.limit ≡ limit
  pub held : s.budget.used ≡ sum s.live
  pub bounded : s.budget.used ≤ s.budget.limit
  pub word : limit < u64_mod

settle-IsSafe :
    (limit : ℕ) (spurious : Bool) (before behind : List Attempt) (a : Attempt) (s : System)
    → IsSafe limit s
    → IsSafe limit (settle before behind s.live (iterate spurious a s.budget))
unfolding settle iterate
settle-IsSafe limit spurious before behind a s v = ground arith

Step-IsSafe : {limit : ℕ} {s t : System} → Step s t → IsSafe limit s → IsSafe limit t
unfolding split_one release
Step-IsSafe (call count) v = omega arith
Step-IsSafe {s} (iteration spurious before behind a e) v =
    settle-IsSafe _ spurious before behind a s v
Step-IsSafe {s} (split before behind zero stays off e p) v = absurd (cc)
Step-IsSafe {s} (split before behind (suc count) stays off e p) v = ground (
  arith,
  ap sum e,
  sum-append before (suc count ∷ behind),
  sum-append before (stays ∷ off ∷ behind),
)
Step-IsSafe {s} (dropped before behind count e) v =
    ground (arith, ap sum e, sum-append before (count ∷ behind), sum-append before behind)

-- In every state that threads can reach by any interleaving from a new budget, the counter is the
-- total of the live reservations and is at most the limit, which stays what it was.
pub Reach-IsSafe :
    {limit : ℕ} {s : System} → limit < u64_mod → Reach (start limit) s → IsSafe limit s
unfolding new
Reach-IsSafe h here = record { fixed = refl; held = refl; bounded = omega arith; word = h }
Reach-IsSafe h (next r st) = Step-IsSafe st (Reach-IsSafe h r)

-- A call that no other thread disturbs is granted when the request fits in what is left, and to
-- drop the reservation gives the budget back as it was.
reserve-release :
    (count : ℕ) (b : ThreadBudget)
    → b.used ≤ b.limit
    → b.limit < u64_mod
    → count ≤ b.limit - b.used
    → (iterate false (begin count b) b ≡ (reserved count, record b { used = b.used + count }))
      × (release count (record b { used = b.used + count }) ≡ b)
unfolding iterate begin release
reserve-release count b h w c = ground arith

-- A call is refused only with its own request, the limit and a use under which the request does
-- not fit; the budget is left as it was.
iterate-rejected :
    (spurious : Bool) (a : Attempt) (b c : ThreadBudget) (x : BudgetExhausted)
    → iterate spurious a b ≡ (rejected x, c)
    → (c ≡ b) × (x.requested ≡ a.count) × (x.limit ≡ b.limit) × (b.limit < x.used + x.requested)
unfolding iterate
iterate-rejected spurious a b c x h = ground arith
