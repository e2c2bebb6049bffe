-- ===== src/Runtime/Shared.antt =====
-- The shared state of crates/gitility-core/src/runtime/mod.rs and the operations on it. Each
-- operation here runs without a step of another thread in between; Runtime/Threads interleaves them.
use gitility.Base.{
  ℕ, Bool, true, false, List, [], Option, none, some, if◌then◌else◌, wrapping_add, wrapping_sub,
}
use gitility.Error.{Result, err}
use gitility.Runtime.Job.{
  Job, JobState, queued, running, completed, failed, cancelled, state_eq, exchange, notify,
  discard_task, raise_flag, cancelled_error, timeout_error,
}
use gitility.Runtime.Jobs.{find, update, remove_active, drop_job, unqueue}

pub record RuntimeConfig : Type 0 where
  pub workers : ℕ
  pub max_queue : ℕ
  pub max_jobs_per_owner : ℕ
  pub retry_after_ms : ℕ
  pub shutdown_join_timeout_ms : ℕ

-- `RuntimeConfig::default`.
abbrev pub default_config : RuntimeConfig
default_config = record {
  workers = 4;
  max_queue = 1_000;
  max_jobs_per_owner = 16;
  retry_after_ms = 100;
  shutdown_join_timeout_ms = 5_000;
}

-- The counters but that of detached workers, which belongs to the join.
pub record Counters : Type 0 where
  pub submitted : ℕ
  pub completed : ℕ
  pub failed : ℕ
  pub cancelled : ℕ
  pub rejected : ℕ
  pub running : ℕ

pub data BusyReason : Type 0 where
  queue_full owner_ceiling : BusyReason

pub data SubmitError : Type 0 where
  busy : BusyReason → ℕ → SubmitError
  shutting_down : SubmitError

pub data Submitted : Type 0 where
  accepted : ℕ → Submitted
  refused : SubmitError → Submitted

pub record Shared (Out : Type 0) : Type 0 where
  pub config : RuntimeConfig
  pub queue : List ℕ
  pub active : List (ℕ × ℕ)
  pub owners : List (ℕ × ℕ)
  pub is_shutting_down : Bool
  pub counters : Counters
  pub next_job_id : ℕ
  pub jobs : List (Job Out)

abbrev pub no_counts : Counters
no_counts = record {
  submitted = 0;
  completed = 0;
  failed = 0;
  cancelled = 0;
  rejected = 0;
  running = 0;
}

-- `fetch_add(1)` on the counter of a terminal state.
unfoldable pub count_terminal : JobState → Counters → Counters
count_terminal completed c = record c { completed = wrapping_add c.completed 1 }
count_terminal failed c = record c { failed = wrapping_add c.failed 1 }
count_terminal cancelled c = record c { cancelled = wrapping_add c.cancelled 1 }
count_terminal _ c = c

unfoldable pub count_from : JobState → Counters → Counters
count_from from c =
    if state_eq from running then record c { running = wrapping_sub c.running 1 } else c

module _ {Out : Type 0} where
  -- `Shared::new`.
  unfoldable pub new_shared : RuntimeConfig → Shared Out
  new_shared config = record {
    config = config;
    queue = [];
    active = [];
    owners = [];
    is_shutting_down = false;
    counters = no_counts;
    next_job_id = 1;
    jobs = [];
  }

  abbrev pub with_job : ℕ → (Job Out → Job Out) → Shared Out → Shared Out
  with_job id f s = record s { jobs = update id f s.jobs }

  -- `record_terminal`: the counters, then `active` and `owners`.
  unfoldable pub record_terminal : Job Out → JobState → JobState → Shared Out → Shared Out
  unfolding count_from count_terminal
  record_terminal j from terminal s = record s {
    counters = count_terminal terminal (count_from from s.counters);
    active = (remove_active j.id s.active).0;
    owners = if (remove_active j.id s.active).1 then drop_job j.owner s.owners else s.owners;
  }

  -- The locked part of `publish_terminal`: the job, if it changed.
  unfoldable pub exchange_job :
      ℕ → JobState → JobState → Result Out → Shared Out → Option (Job Out) × Shared Out
  exchange_job id from terminal result s = elim (find id s.jobs) [
    | none ↦ (none, s)
    | some j ↦
        if (exchange from terminal result j).0
        then (some j, with_job id (λ k. (exchange from terminal result k).1) s)
        else (none, s)
  ]

  -- `publish_terminal` behind the lock.
  unfoldable pub settle : Job Out → JobState → JobState → Shared Out → Shared Out
  unfolding record_terminal
  settle j from terminal s = with_job j.id notify (record_terminal j from terminal s)

  unfoldable pub settle_changed :
      Option (Job Out) × Shared Out → JobState → JobState → Bool × Shared Out
  unfolding settle
  settle_changed (none, s) from terminal = (false, s)
  settle_changed (some j, s) from terminal = (true, settle j from terminal s)

  unfoldable pub publish_terminal :
      ℕ → JobState → JobState → Result Out → Shared Out → Bool × Shared Out
  unfolding exchange_job settle_changed
  publish_terminal id from terminal result s =
      settle_changed (exchange_job id from terminal result s) from terminal

  unfoldable pub discard_if : ℕ → Bool × Shared Out → Shared Out
  discard_if id (true, s) = with_job id discard_task s
  discard_if id (false, s) = s

  -- `expire`.
  unfoldable pub expire : ℕ → Shared Out → Shared Out
  unfolding discard_if publish_terminal
  expire id s = discard_if id (publish_terminal id queued failed (err timeout_error) s)

  -- `cancel`, in its three steps: the flag, the queue, the publication.
  unfoldable pub cancel_flag : ℕ → Shared Out → Shared Out
  cancel_flag id s = with_job id raise_flag s

  unfoldable pub cancel_unqueue : ℕ → Shared Out → Shared Out
  cancel_unqueue id s = elim (find id s.jobs) [
    | none ↦ s
    | some j ↦ if state_eq j.state queued then record s { queue = unqueue id s.queue } else s
  ]

  unfoldable pub cancel_publish : ℕ → Shared Out → Shared Out
  unfolding discard_if publish_terminal
  cancel_publish id s = discard_if id (publish_terminal id queued cancelled (err cancelled_error) s)

  unfoldable pub cancel : ℕ → Shared Out → Shared Out
  unfolding cancel_flag cancel_unqueue cancel_publish
  cancel id s = cancel_publish id (cancel_unqueue id (cancel_flag id s))
