-- ===== src/Runtime/ThreadBudget/Tests.antt =====
-- Two threads on a budget of five.
use gitility.Base.{◌≡◌, refl, true, false, [], ◌∷◌, arith}
use gitility.Runtime.ThreadBudget.{ThreadBudget, BudgetExhausted, begin, rejected, iterate, new}
use gitility.Runtime.ThreadBudget.Interleaving.{
  System, call, iteration, Reach, here, next, start, settle, IsSafe, Reach-IsSafe,
}

abbrev five : ThreadBudget
five = record { limit = 5; used = 0 }

-- Both threads load 0; the second takes two, so that the exchange of the first fails.
abbrev raced : System
raced = record {
  budget = record { limit = 5; used = 2 };
  attempts = record { count = 4; seen = 2 } ∷ [];
  live = 2 ∷ [];
}

raced_reached : Reach (start 5) raced
unfolding begin new settle iterate
raced_reached =
    next
      (next (next (next here (call 4)) (call 2)) (
        iteration false [] (record { count = 4; seen = 0 } ∷ []) (record { count = 2; seen = 0 })
          refl))
      (iteration false [] [] (record { count = 4; seen = 0 }) refl)

Reach-IsSafe_example : IsSafe 5 raced
Reach-IsSafe_example = Reach-IsSafe (omega arith) raced_reached

abbrev full : ThreadBudget
full = record { limit = 5; used = 4 }

abbrev exhausted : BudgetExhausted
exhausted = record { requested = 2; used = 4; limit = 5 }

rejects : iterate true (record { count = 2; seen = 4 }) full ≡ (rejected exhausted, full)
unfolding iterate
rejects = refl
