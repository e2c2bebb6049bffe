-- ===== src/Runtime/Job/Frames.antt =====
-- What the operations on one job of crates/gitility-core/src/runtime/mod.rs leave as it was.
use gitility.Base.{ℕ, ◌≡◌, refl, true, arith}
use gitility.Error.{Result, ok, err}
use gitility.Budget.{Budget, check}
use gitility.Runtime.Job.{
  Job, notify, JobState, exchange, try_start, Outcome, run_result, discard_task, raise_flag,
  take_output, is_terminal, terminal_of,
}

-- A job that stays at its place in its life.
pub record SameLife {Out : Type 0} (j k : Job Out) : Type 0 where
  pub same_id : k.id ≡ j.id
  pub same_owner : k.owner ≡ j.owner
  pub same_state : k.state ≡ j.state
  pub same_notices : k.notices ≡ j.notices

module _ {Out : Type 0} where
  pub run_result-SameLife :
      (now later : ℕ) (effect : Budget → Outcome Out × Budget) (j : Job Out)
      → SameLife j (run_result now later effect j).1
  unfolding run_result check
  run_result-SameLife now later effect j = ground arith

  pub discard_task-SameLife : (j : Job Out) → SameLife j (discard_task j)
  unfolding discard_task
  discard_task-SameLife j = ground arith

  pub raise_flag-SameLife : (j : Job Out) → SameLife j (raise_flag j)
  unfolding raise_flag
  raise_flag-SameLife j = ground arith

  pub take_output-SameLife : (j : Job Out) → SameLife j (take_output j).1
  unfolding take_output
  take_output-SameLife j = ground arith

  pub terminal_of-is_terminal : (r : Result Out) → is_terminal (terminal_of r) ≡ true
  unfolding terminal_of
  terminal_of-is_terminal (ok x) = refl
  terminal_of-is_terminal (err e) = ground arith

  pub exchange-id :
      (from terminal : JobState) (r : Result Out) (j : Job Out)
      → (exchange from terminal r j).1.id ≡ j.id
  unfolding exchange
  exchange-id from terminal r j = ground arith

  pub exchange-notices :
      (from terminal : JobState) (r : Result Out) (j : Job Out)
      → (exchange from terminal r j).1.notices ≡ j.notices
  unfolding exchange
  exchange-notices from terminal r j = ground arith

  pub try_start-id : (j : Job Out) → (try_start j).1.id ≡ j.id
  unfolding try_start
  try_start-id j = ground arith

  pub try_start-notices : (j : Job Out) → (try_start j).1.notices ≡ j.notices
  unfolding try_start
  try_start-notices j = ground arith

  pub exchange-owner :
      (from terminal : JobState) (r : Result Out) (j : Job Out)
      → (exchange from terminal r j).1.owner ≡ j.owner
  unfolding exchange
  exchange-owner from terminal r j = ground arith

  pub try_start-owner : (j : Job Out) → (try_start j).1.owner ≡ j.owner
  unfolding try_start
  try_start-owner j = ground arith

  pub notify-id : (j : Job Out) → (notify j).id ≡ j.id
  unfolding notify
  notify-id j = refl
