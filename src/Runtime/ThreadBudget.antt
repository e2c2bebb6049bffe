-- ===== src/Runtime/ThreadBudget.antt =====
-- crates/gitility-core/src/runtime/thread_budget.rs: the process-wide budget of threads. Threads
-- interleave at the atomic operations: a `try_reserve` is its first load, then one iteration after
-- another.
pub mod Interleaving
mod Tests
use gitility.Base.{
  ℕ, zero, suc, ◌+◌, ◌-◌, Bool, Option, none, some, ltb, ◌==◌, if◌then◌else◌, wrapping_sub,
}

pub record ThreadBudget : Type 0 where
  pub limit : ℕ
  pub used : ℕ

pub record BudgetExhausted : Type 0 where
  pub requested : ℕ
  pub used : ℕ
  pub limit : ℕ

-- `ThreadBudget::new`.
unfoldable pub new : ℕ → ThreadBudget
new limit = record { limit = limit; used = 0 }

-- A call of `try_reserve` under way: what it asks for and the last value that it saw.
pub record Attempt : Type 0 where
  pub count : ℕ
  pub seen : ℕ

-- The first load of `try_reserve`.
unfoldable pub begin : ℕ → ThreadBudget → Attempt
begin count b = record { count = count; seen = b.used }

pub data Iteration : Type 0 where
  reserved : ℕ → Iteration
  rejected : BudgetExhausted → Iteration
  retry : Attempt → Iteration

-- One iteration of the loop of `try_reserve`. `spurious` says that the weak exchange fails although
-- the counter holds the expected value.
unfoldable pub iterate : Bool → Attempt → ThreadBudget → Iteration × ThreadBudget
iterate spurious a b =
    if ltb (b.limit - a.seen) a.count
    then (rejected (record { requested = a.count; used = a.seen; limit = b.limit }), b)
    else if spurious
    then (retry (record a { seen = b.used }), b)
    else if b.used == a.seen
    then (reserved a.count, record b { used = a.seen + a.count })
    else (retry (record a { seen = b.used }), b)

-- `ThreadReservation::split_one`: what stays and what is split off; `none` is the panic.
unfoldable pub split_one : ℕ → Option (ℕ × ℕ)
split_one zero = none
split_one (suc count) = some (count, 1)

-- `Drop for ThreadReservation`.
unfoldable pub release : ℕ → ThreadBudget → ThreadBudget
release count b = if ltb 0 count then record b { used = wrapping_sub b.used count } else b

abbrev pub default_limit : ℕ
default_limit = 512

-- `limit_from_env`, from the number that the trimmed value of the variable parses to, if any.
unfoldable pub limit_from_env : Option ℕ → ℕ
limit_from_env none = default_limit
limit_from_env (some limit) = if ltb 0 limit then limit else default_limit
