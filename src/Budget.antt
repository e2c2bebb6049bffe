-- ===== src/Budget.antt =====
-- crates/gitility-core/src/budget.rs: the per-operation resource budget. An operation takes the
-- budget and returns its result beside the new budget; `now` is the instant that it reads. The
-- counters are atomic, so that the operations of parallel threads are a sequence of such calls.
pub mod Calls
pub mod Ceilings
pub mod Refusals
pub mod Suspend
mod Tests
use gitility.Base.{
  ℕ, ◌*◌, ◌^◌, ◌-◌, Bool, false, String, List, [], ◌∷◌, Option, none, some, ltb, leb, ◌==◌,
  if◌then◌else◌, wrapping_add, saturating_add, u64_max,
}
use gitility.Oid.{Oid}
use gitility.Error.{
  Piece, Result, ok, err, new, new_text, text, number, with_limit, cancelled, timeout,
  object_too_large, budget_exceeded,
}

pub record BudgetLimits : Type 0 where
  pub max_objects : ℕ
  pub max_object_bytes : ℕ
  pub max_total_object_bytes : ℕ
  pub max_provider_requests : ℕ
  pub max_provider_bytes : ℕ
  pub max_tree_entries : ℕ
  pub max_delta_depth : ℕ

-- `BudgetLimits::default`.
abbrev pub default_limits : BudgetLimits
default_limits = record {
  max_objects = 100_000;
  max_object_bytes = 4 * 2 ^ 20;
  max_total_object_bytes = 256 * 2 ^ 20;
  max_provider_requests = 500;
  max_provider_bytes = 256 * 2 ^ 20;
  max_tree_entries = 20_000;
  max_delta_depth = 128;
}

pub record Budget : Type 0 where
  pub limits : BudgetLimits
  pub deadline : Option ℕ
  pub cancelled : Bool
  pub objects : ℕ
  pub object_charge_suspensions : ℕ
  pub duplicate_graph_read_suspensions : ℕ
  pub graph_reads : List Oid
  pub objects_read : ℕ
  pub object_bytes : ℕ
  pub provider_requests : ℕ
  pub provider_bytes : ℕ
  pub tree_entries : ℕ
  pub cache_hits : ℕ
  pub cache_misses : ℕ

-- `Budget::new`.
unfoldable pub new_budget : BudgetLimits → Option ℕ → Bool → Budget
new_budget limits deadline flag = record {
  limits = limits;
  deadline = deadline;
  cancelled = flag;
  objects = 0;
  object_charge_suspensions = 0;
  duplicate_graph_read_suspensions = 0;
  graph_reads = [];
  objects_read = 0;
  object_bytes = 0;
  provider_requests = 0;
  provider_bytes = 0;
  tree_entries = 0;
  cache_hits = 0;
  cache_misses = 0;
}

-- `Budget::unlimited`.
unfoldable pub unlimited : Budget
unfolding new_budget
unlimited = new_budget limits none false
  where
    limits : BudgetLimits
    limits = record {
      max_objects = u64_max;
      max_object_bytes = u64_max;
      max_total_object_bytes = u64_max;
      max_provider_requests = u64_max;
      max_provider_bytes = u64_max;
      max_tree_entries = u64_max;
      max_delta_depth = 2 ^ 32 - 1;
    }

-- An operation on the budget, with its result.
abbrev pub M : Type 0 → Type 0
M A = Budget → Result A × Budget

abbrev and_then : {A B : Type 0} → Result A × Budget → (A → M B) → Result B × Budget
and_then (ok a, b) f = f a b
and_then (err e, b) f = (err e, b)

-- The `?` operator: what was spent stays spent.
infixl 5 ◌>>=◌
abbrev pub ◌>>=◌ : {B A : Type 0} → M A → (A → M B) → M B
◌>>=◌ first next budget = and_then (first budget) next

infixl 5 ◌>>◌
abbrev pub ◌>>◌ : {B : Type 0} → M (Unit {0}) → M B → M B
◌>>◌ first next budget = and_then (first budget) (λ _. next)

abbrev pub pure : {A : Type 0} → A → M A
pure a b = (ok a, b)

-- `deadline_expired`: a deadline that has passed, if there is one.
abbrev pub expired : Option ℕ → ℕ → Bool
expired none now = false
expired (some deadline) now = leb deadline now

-- `Budget::check`.
unfoldable pub check : ℕ → M (Unit {0})
check now b =
    if b.cancelled
    then (err (new_text cancelled "operation cancelled"), b)
    else if expired b.deadline now
    then (err (new_text timeout "operation budget expired"), b)
    else (ok tt, b)

unfoldable pub deadline_expired : Budget → ℕ → Bool
deadline_expired b now = expired b.deadline now

-- `charge`: the new counter and the verdict. The amount is added also where it is refused.
unfoldable pub charge : ℕ → ℕ → ℕ → String → ℕ × Result (Unit {0})
charge previous amount ceiling limit_name = (
  wrapping_add previous amount,
  if ltb ceiling (saturating_add previous amount)
      then err
          (with_limit limit_name (new budget_exceeded (text limit_name ∷ text " exceeded" ∷ [])))
      else ok tt,
)

-- The calls of `charge`, one for each counter.
unfoldable pub charge_objects : M (Unit {0})
charge_objects b =
    let (counter, r) = charge b.objects 1 b.limits.max_objects "max_objects" in
    (r, record b { objects = counter })

unfoldable pub charge_object_bytes : ℕ → M (Unit {0})
charge_object_bytes bytes b =
    let (counter, r) =
      charge b.object_bytes bytes b.limits.max_total_object_bytes "max_total_object_bytes" in
    (r, record b { object_bytes = counter })

-- `if object_charge_suspensions == 0 { charge(objects, 1, ...) }`.
unfoldable pub charge_unsuspended : M (Unit {0})
unfolding charge_objects
charge_unsuspended b = if b.object_charge_suspensions == 0 then charge_objects b else (ok tt, b)

-- `if duplicate_graph_read_suspensions == 0 { count the read, charge its bytes }`.
unfoldable pub charge_payload : ℕ → M (Unit {0})
unfolding charge_object_bytes
charge_payload bytes b =
    if b.duplicate_graph_read_suspensions == 0
    then charge_object_bytes bytes (record b { objects_read = wrapping_add b.objects_read 1 })
    else (ok tt, b)

-- The per-object cap.
unfoldable pub check_object_size : ℕ → M (Unit {0})
check_object_size bytes b =
    if ltb b.limits.max_object_bytes bytes
    then (err (with_limit "max_object_bytes" (new object_too_large message)), b)
    else (ok tt, b)
  where
    message : List Piece
    message =
        text "object of "
        ∷ number bytes
        ∷ text " bytes exceeds max_object_bytes "
        ∷ number b.limits.max_object_bytes
        ∷ []

unfoldable pub charge_object : ℕ → ℕ → M (Unit {0})
unfolding check check_object_size charge_unsuspended charge_payload
charge_object now bytes = do
  check now
  check_object_size bytes
  charge_unsuspended
  charge_payload bytes

unfoldable pub charge_object_visit : ℕ → M (Unit {0})
unfolding check charge_unsuspended
charge_object_visit now = do check now; charge_unsuspended

unfoldable pub charge_header : ℕ → M (Unit {0})
unfolding check charge_unsuspended
charge_header now = do check now; charge_unsuspended

unfoldable pub charge_tree_entries : M (Unit {0})
charge_tree_entries b =
    let (counter, r) = charge b.tree_entries 1 b.limits.max_tree_entries "max_tree_entries" in
    (r, record b { tree_entries = counter })

unfoldable pub charge_tree_entry : ℕ → M (Unit {0})
unfolding check charge_tree_entries
charge_tree_entry now = do check now; charge_tree_entries

unfoldable pub charge_integrity_bytes : ℕ → ℕ → M (Unit {0})
unfolding check charge_object_bytes
charge_integrity_bytes now bytes = do check now; charge_object_bytes bytes

unfoldable pub charge_requests : M (Unit {0})
charge_requests b =
    let (counter, r) =
      charge b.provider_requests 1 b.limits.max_provider_requests "max_provider_requests" in
    (r, record b { provider_requests = counter })

unfoldable pub charge_provider_request : ℕ → M (Unit {0})
unfolding check charge_requests
charge_provider_request now = do check now; charge_requests

unfoldable pub charge_reply_bytes : ℕ → M (Unit {0})
charge_reply_bytes bytes b =
    let (counter, r) =
      charge b.provider_bytes bytes b.limits.max_provider_bytes "max_provider_bytes" in
    (r, record b { provider_bytes = counter })

unfoldable pub charge_provider_bytes : ℕ → ℕ → M (Unit {0})
unfolding check charge_reply_bytes
charge_provider_bytes now bytes = do check now; charge_reply_bytes bytes

unfoldable pub record_cache_hit : Budget → Budget
record_cache_hit b = record b { cache_hits = wrapping_add b.cache_hits 1 }

unfoldable pub record_cache_miss : Budget → Budget
record_cache_miss b = record b { cache_misses = wrapping_add b.cache_misses 1 }

unfoldable pub check_delta_depth : ℕ → Budget → Result (Unit {0})
check_delta_depth depth b =
    if ltb b.limits.max_delta_depth depth
    then err (with_limit "max_delta_depth" (new budget_exceeded message))
    else ok tt
  where
    message : List Piece
    message =
        text "delta chain depth "
        ∷ number depth
        ∷ text " exceeds max_delta_depth "
        ∷ number b.limits.max_delta_depth
        ∷ []

-- `spent`: payload objects read, object bytes, provider requests, provider bytes.
unfoldable pub spent : Budget → ℕ × ℕ × ℕ × ℕ
spent b = (b.objects_read, b.object_bytes, b.provider_requests, b.provider_bytes)

unfoldable pub tree_entries_spent : Budget → ℕ
tree_entries_spent b = b.tree_entries

-- `cache_spent`: hits, misses.
unfoldable pub cache_spent : Budget → ℕ × ℕ
cache_spent b = (b.cache_hits, b.cache_misses)
