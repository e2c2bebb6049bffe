-- ===== src/Budget/Suspend.antt =====
-- Graph reads whose charges are suspended: `without_object_charge` and `without_object_recharge` of
-- crates/gitility-core/src/budget.rs. The closure that they run is a function on the budget.
pub mod Distinct
pub mod Nested
pub mod Once
use mathlib.Core.Bool.{not}
use gitility.Base.{
  ℕ, Bool, true, false, ◌||◌, if◌then◌else◌, List, [], ◌∷◌, wrapping_add, wrapping_sub,
}
use gitility.Oid.{Oid, oid_eq}
use gitility.Error.{Result, ok, err}
use gitility.Budget.{Budget, charge_object}

unfoldable pub contains : Oid → List Oid → Bool
contains oid [] = false
contains oid (x ∷ xs) = oid_eq oid x || contains oid xs

-- `HashSet::insert`: the set with the member, and whether it was new.
unfoldable pub insert_new : Oid → List Oid → List Oid × Bool
unfolding contains
insert_new oid reads = if contains oid reads then (reads, false) else (oid ∷ reads, true)

suspend_objects : Budget → Budget
suspend_objects b = record b {
  object_charge_suspensions = wrapping_add b.object_charge_suspensions 1;
}

suspend_duplicates : Budget → Budget
suspend_duplicates b = record b {
  duplicate_graph_read_suspensions = wrapping_add b.duplicate_graph_read_suspensions 1;
}

-- `Restore::drop`.
resume : Bool → Budget → Budget
resume duplicate b = record b {
  object_charge_suspensions = wrapping_sub b.object_charge_suspensions 1;
  duplicate_graph_read_suspensions =
      if duplicate
      then wrapping_sub b.duplicate_graph_read_suspensions 1
      else b.duplicate_graph_read_suspensions;
}

module _ {T : Type 0} where
  finish : Bool → T × Budget → T × Budget
  unfolding resume
  finish duplicate (t, b) = (t, resume duplicate b)

  unfoldable pub without_object_charge : Oid → (Budget → T × Budget) → Budget → T × Budget
  unfolding insert_new suspend_objects suspend_duplicates finish
  without_object_charge oid read b =
      let (reads, fresh) = insert_new oid b.graph_reads in
      let b' = suspend_objects (record b { graph_reads = reads }) in
      finish (not fresh) (read (if fresh then b' else suspend_duplicates b'))

  unfoldable pub without_object_recharge : (Budget → T × Budget) → Budget → T × Budget
  unfolding suspend_objects suspend_duplicates finish
  without_object_recharge replay b = finish true (replay (suspend_duplicates (suspend_objects b)))
