-- ===== src/Budget/Tests.antt =====
-- Budgets at concrete limits.
use gitility.Base.{ℕ, ◌↔◌, ◌≡◌, refl, false, List, [], ◌∷◌, some, arith, replicate}
use gitility.Oid.{Oid, sha1, sha256}
use gitility.Error.{ok, err, new_text, timeout}
use gitility.Budget.{
  charge_provider_request, Budget, BudgetLimits, default_limits, new_budget, charge_object, charge,
}
use gitility.Budget.Calls.{grant, Call, object, tree_entry, request, step, nothing, run, demand}
use gitility.Budget.Ceilings.{Respects, run-Respects}
use gitility.Budget.Refusals.{Admits, step-Refused, charge_object-Admits}
use gitility.Budget.Suspend.{contains, without_object_charge, without_object_recharge}
use gitility.Budget.Suspend.Once.{SameDepths}
use gitility.Budget.Suspend.Nested.{
  Program, done, then_call, then_read, then_replay, perform, suspensions, scans, perform-SameDepths,
  Unspent, without_object_recharge-Unspent,
}
use gitility.Budget.Suspend.Distinct.{Read, read_all, new_reads, Counted, read_all-CountsOnce}

-- Two objects of at most ten bytes each, fifteen bytes in all.
abbrev small : BudgetLimits
small = record default_limits {
  max_objects = 2;
  max_object_bytes = 10;
  max_total_object_bytes = 15;
}

abbrev calls : List (ℕ × Call)
calls = (0, object 8) ∷ (1, object 12) ∷ (2, object 9) ∷ (3, object 1) ∷ (4, request) ∷ []

abbrev start : Budget
start = record {
  limits = small;
  deadline = some 50;
  cancelled = false;
  objects = 0;
  object_charge_suspensions = 0;
  duplicate_graph_read_suspensions = 0;
  graph_reads = [];
  objects_read = 0;
  object_bytes = 0;
  provider_requests = 0;
  provider_bytes = 0;
  tree_entries = 0;
  cache_hits = 0;
  cache_misses = 0;
}

-- The second object is too large, the third passes the byte total, the fourth the object count.
spent_example :
    (run calls start nothing).0 ≡ record nothing { objects = 1; bytes = 8; requests = 1 }
unfolding run step charge_object charge charge_provider_request grant
spent_example = refl

run-Respects_example : Respects small (run calls (new_budget small (some 50) false) nothing).0
unfolding demand
run-Respects_example = run-Respects calls small (some 50) false (omega arith)

step-Refused_example :
    step 50 tree_entry start ≡ (err (new_text timeout "operation budget expired"), start)
step-Refused_example = step-Refused 50 tree_entry start tt refl

abbrev oid : Oid
oid = record { kind = sha1; bytes = replicate 32 7 }

abbrev after_first : Budget
after_first = record start { graph_reads = oid ∷ []; objects_read = 1; object_bytes = 8 }

first_read_counts : (without_object_charge oid (charge_object 3 8) start).1 ≡ after_first
unfolding without_object_charge charge_object charge contains
first_read_counts = refl

charge_object-Admits_example : ((charge_object 3 8 start).0 ≡ ok tt) ↔ Admits 3 8 start
charge_object-Admits_example = charge_object-Admits 3 8 start

-- A read with a replay inside, and a tree entry behind it.
abbrev nested : Program
nested =
    then_read oid (then_call 3 (object 8) (then_replay (then_call 3 (object 8) done) done))
      (then_call 4 tree_entry done)

perform-SameDepths_example : SameDepths start (perform nested start).1
perform-SameDepths_example = perform-SameDepths nested start (omega arith)

without_object_recharge-Unspent_example :
    Unspent start (without_object_recharge (perform nested) start).1
unfolding suspensions scans
without_object_recharge-Unspent_example =
    without_object_recharge-Unspent nested start refl (omega arith) (omega arith)

-- One object twice, then another.
abbrev three_reads : List Read
three_reads =
    record { oid = oid; now = 3; bytes = 8 }
    ∷ record { oid = oid; now = 4; bytes = 8 }
    ∷ record { oid = record oid { kind = sha256 }; now = 5; bytes = 6 }
    ∷ []

walk_counts : new_reads three_reads [] ≡ 2
unfolding new_reads contains
walk_counts = refl

read_all-CountsOnce_example :
    Counted 10 (new_reads three_reads []) start (read_all three_reads start)
read_all-CountsOnce_example = read_all-CountsOnce three_reads start (omega arith)
