-- ===== src/Budget/Calls.antt =====
-- The public operations of a budget as one type of calls, and a run of calls, which stands for any
-- interleaving of the threads of a job. A run counts what the successful calls were granted.
use gitility.Base.{ℕ, ◌+◌, ◌==◌, if◌then◌else◌, List, [], ◌∷◌}
use gitility.Error.{Result, ok, err}
use gitility.Budget.{
  Budget, M, charge_object, charge_object_visit, charge_header, charge_tree_entry,
  charge_integrity_bytes, charge_provider_request, charge_provider_bytes, record_cache_hit,
  record_cache_miss,
}

pub data Call : Type 0 where
  object : ℕ → Call
  visit header tree_entry : Call
  integrity : ℕ → Call
  request : Call
  reply : ℕ → Call
  hit miss : Call

unfoldable pub step : ℕ → Call → M (Unit {0})
step now (object bytes) = charge_object now bytes
step now visit = charge_object_visit now
step now header = charge_header now
step now tree_entry = charge_tree_entry now
step now (integrity bytes) = charge_integrity_bytes now bytes
step now request = charge_provider_request now
step now (reply bytes) = charge_provider_bytes now bytes
step now hit = λ b. (ok tt, record_cache_hit b)
step now miss = λ b. (ok tt, record_cache_miss b)

-- What the calls of a job were granted.
pub record Spend : Type 0 where
  pub objects : ℕ
  pub bytes : ℕ
  pub requests : ℕ
  pub reply_bytes : ℕ
  pub entries : ℕ

abbrev pub nothing : Spend
nothing = record { objects = 0; bytes = 0; requests = 0; reply_bytes = 0; entries = 0 }

-- An object counts where the count is not suspended, its bytes where the read is no repeated one.
abbrev pub one_object : Budget → ℕ
one_object b = if b.object_charge_suspensions == 0 then 1 else 0

abbrev pub payload : Budget → ℕ → ℕ
payload b bytes = if b.duplicate_graph_read_suspensions == 0 then bytes else 0

unfoldable pub grant : Call → Budget → Spend → Spend
grant (object bytes) b g = record g {
  objects = g.objects + one_object b;
  bytes = g.bytes + payload b bytes;
}
grant visit b g = record g { objects = g.objects + one_object b }
grant header b g = record g { objects = g.objects + one_object b }
grant tree_entry b g = record g { entries = g.entries + 1 }
grant (integrity bytes) b g = record g { bytes = g.bytes + bytes }
grant request b g = record g { requests = g.requests + 1 }
grant (reply bytes) b g = record g { reply_bytes = g.reply_bytes + bytes }
grant hit b g = g
grant miss b g = g

-- A refused call is granted nothing.
abbrev pub after : Result (Unit {0}) → Call → Budget → Spend → Spend
after (ok _) c b g = grant c b g
after (err _) c b g = g

unfoldable pub run : List (ℕ × Call) → Budget → Spend → Spend × Budget
run [] b g = (g, b)
run ((now, c) ∷ calls) b g = let (r, b') = step now c b in run calls b' (after r c b g)

-- A bound on what a call can add to any counter.
abbrev pub weight : Call → ℕ
weight (object bytes) = 1 + bytes
weight visit = 1
weight header = 1
weight tree_entry = 1
weight (integrity bytes) = bytes
weight request = 1
weight (reply bytes) = bytes
weight hit = 0
weight miss = 0

unfoldable pub demand : List (ℕ × Call) → ℕ
demand [] = 0
demand ((now, c) ∷ calls) = weight c + demand calls
