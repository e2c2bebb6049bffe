-- ===== src/Runtime/Threads/Counters.antt =====
-- The counters of crates/gitility-core/src/runtime/mod.rs against the jobs and what threads still
-- owe.
pub mod Tally
use mathlib.Core.Path.{subst, sym}
use gitility.Base.{
  ℕ, suc, ◌+◌, ◌%◌, ◌≡◌, refl, true, false, List, [], ◌∷◌, ◌++◌, Option, some, length, arith,
  u64_mod, inl, inr,
}
use gitility.Error.{Result, err}
use gitility.Runtime.Job.{
  Job, JobState, queued, running, completed, failed, cancelled, is_terminal, terminal_of,
  run_result, discard_task, try_start, exchange, timeout_error, cancelled_error, raise_flag,
  take_output, notify,
}
use gitility.Budget.{BudgetLimits}
use gitility.Runtime.Job.Frames.{
  SameLife, run_result-SameLife, discard_task-SameLife, raise_flag-SameLife, take_output-SameLife,
  terminal_of-is_terminal,
}
use gitility.Runtime.Jobs.{find, update}
use gitility.Runtime.Jobs.Lookup.{
  tally, in_state, in_state-update, in_state-update_same, length-update,
}
use gitility.Runtime.Shared.{
  Counters, Shared, RuntimeConfig, new_shared, with_job, settle, cancel_flag, cancel_unqueue,
  record_terminal, count_from, count_terminal,
}
use gitility.Runtime.Admission.{
  sweep, admit, begin_shutdown, start_exchange, count_started, run_task, reject, enqueue, fresh_job,
  take_job_output,
}
use gitility.Runtime.Threads.{
  sweeping, admitting, dequeuing, beginning, running_task, finishing, expiring, flagging, unqueuing,
  cancelling, discarding, paying, taking, shutting, here, next, start, on_shared, Debt, started,
  ended, System, Step, Reach, pay, publish, starting,
}
use gitility.Runtime.Threads.Cases.{publish-cases, starting-cases}

module _ {Out : Type 0} where
  -- What the threads in between owe to the counter of a terminal state, and to that of running jobs:
  -- what is to be added, and what is to be taken off.
  abbrev pub owed : JobState → List (Debt Out) → ℕ
  owed st [] = 0
  owed st (started _ ∷ debts) = owed st debts
  owed st (ended j from terminal ∷ debts) = tally terminal st + owed st debts

  abbrev pub owed_starts : List (Debt Out) → ℕ
  owed_starts [] = 0
  owed_starts (started _ ∷ debts) = suc (owed_starts debts)
  owed_starts (ended _ _ _ ∷ debts) = owed_starts debts

  abbrev pub owed_ends : List (Debt Out) → ℕ
  owed_ends [] = 0
  owed_ends (started _ ∷ debts) = owed_ends debts
  owed_ends (ended j from terminal ∷ debts) = tally from running + owed_ends debts

  -- Up to a multiple of 2^64: every job was counted as submitted, and each counter with what is owed
  -- to it is the number of jobs in its state.
  pub record IsCounted (c : Counters) (jobs : List (Job Out)) (debts : List (Debt Out))
      : Type 0 where
    pub all : c.submitted % u64_mod ≡ length jobs % u64_mod
    pub completes :
        (c.completed + owed completed debts) % u64_mod ≡ in_state completed jobs % u64_mod
    pub fails : (c.failed + owed failed debts) % u64_mod ≡ in_state failed jobs % u64_mod
    pub cancels : (c.cancelled + owed cancelled debts) % u64_mod ≡ in_state cancelled jobs % u64_mod
    pub runs :
        (c.running + owed_starts debts) % u64_mod
        ≡ (in_state running jobs + owed_ends debts) % u64_mod

  owed-middle :
      (st : JobState) (before behind : List (Debt Out)) (d : Debt Out)
      → owed st (before ++ (d ∷ behind)) ≡ owed st (d ∷ before ++ behind)
  owed-middle st [] behind d = refl
  owed-middle st (started x ∷ before) behind d = ground (arith, owed-middle st before behind d)
  owed-middle st (ended x y z ∷ before) behind (started i) =
      ground (arith, owed-middle st before behind (started i))
  owed-middle st (ended x y z ∷ before) behind (ended j f t) =
      ground (arith, owed-middle st before behind (ended j f t))

  owed_starts-middle :
      (before behind : List (Debt Out)) (d : Debt Out)
      → owed_starts (before ++ (d ∷ behind)) ≡ owed_starts (d ∷ before ++ behind)
  owed_starts-middle [] behind d = refl
  owed_starts-middle (started x ∷ before) behind (started i) =
      ground (arith, owed_starts-middle before behind (started i))
  owed_starts-middle (started x ∷ before) behind (ended j f t) =
      ground (arith, owed_starts-middle before behind (ended j f t))
  owed_starts-middle (ended x y z ∷ before) behind d =
      ground (arith, owed_starts-middle before behind d)

  owed_ends-middle :
      (before behind : List (Debt Out)) (d : Debt Out)
      → owed_ends (before ++ (d ∷ behind)) ≡ owed_ends (d ∷ before ++ behind)
  owed_ends-middle [] behind d = refl
  owed_ends-middle (started x ∷ before) behind d = ground (arith, owed_ends-middle before behind d)
  owed_ends-middle (ended x y z ∷ before) behind (started i) =
      ground (arith, owed_ends-middle before behind (started i))
  owed_ends-middle (ended x y z ∷ before) behind (ended j f t) =
      ground (arith, owed_ends-middle before behind (ended j f t))

  -- A change that keeps the states.
  kept :
      (c : Counters) (id : ℕ) (f : Job Out → Job Out) (jobs : List (Job Out))
      (debts : List (Debt Out))
      → ((k : Job Out) → (f k).state ≡ k.state)
      → IsCounted c jobs debts
      → IsCounted c (update id f jobs) debts
  kept c id f jobs debts keeps v = ground (
    arith,
    length-update id f jobs,
    in_state-update_same completed id f jobs keeps,
    in_state-update_same failed id f jobs keeps,
    in_state-update_same cancelled id f jobs keeps,
    in_state-update_same running id f jobs keeps,
  )

  -- A job in one state comes to another, which the debt says.
  exchanged :
      (c : Counters) (id : ℕ) (f : Job Out → Job Out) (jobs : List (Job Out))
      (debts : List (Debt Out)) (j : Job Out) (from terminal : JobState)
      → is_terminal from ≡ false
      → is_terminal terminal ≡ true
      → find id jobs ≡ some j
      → j.state ≡ from
      → (f j).state ≡ terminal
      → IsCounted c jobs debts
      → IsCounted c (update id f jobs) (ended j from terminal ∷ debts)
  unfolding tally
  exchanged c id f jobs debts j from terminal active over h e g v = ground (
    arith,
    length-update id f jobs,
    in_state-update completed id f jobs h,
    in_state-update failed id f jobs h,
    in_state-update cancelled id f jobs h,
    in_state-update running id f jobs h,
  )

  begun :
      (c : Counters) (id : ℕ) (f : Job Out → Job Out) (jobs : List (Job Out))
      (debts : List (Debt Out)) (j : Job Out)
      → find id jobs ≡ some j
      → j.state ≡ queued
      → (f j).state ≡ running
      → IsCounted c jobs debts
      → IsCounted c (update id f jobs) (started id ∷ debts)
  unfolding tally
  begun c id f jobs debts j h e g v = ground (
    arith,
    length-update id f jobs,
    in_state-update completed id f jobs h,
    in_state-update failed id f jobs h,
    in_state-update cancelled id f jobs h,
    in_state-update running id f jobs h,
  )
