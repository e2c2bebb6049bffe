-- ===== src/Budget/Suspend/Once.antt =====
-- The suspended charges of crates/gitility-core/src/budget.rs: nesting depths, and repeated reads
-- of a graph payload.
use gitility.Base.{ℕ, ◌+◌, ◌<◌, ◌≡◌, true, List, arith, u64_mod, inl, inr, Bool-cases}
use gitility.Oid.{Oid}
use gitility.Oid.Equal.{oid_eq_refl}
use gitility.Budget.{Budget, charge_object}
use gitility.Budget.Suspend.{contains, insert_new, without_object_charge, without_object_recharge}

-- Both nesting depths are 64-bit words.
pub record AreWords (b : Budget) : Type 0 where
  pub objects : b.object_charge_suspensions < u64_mod
  pub duplicates : b.duplicate_graph_read_suspensions < u64_mod

pub record SameDepths (b c : Budget) : Type 0 where
  pub objects : c.object_charge_suspensions ≡ b.object_charge_suspensions
  pub duplicates : c.duplicate_graph_read_suspensions ≡ b.duplicate_graph_read_suspensions

-- A closure that leaves the nesting depths as it finds them.
pub record IsBalanced {T : Type 0} (read : Budget → T × Budget) : Type 0 where
  pub depths : (b : Budget) → AreWords b → SameDepths b (read b).1

module _ {T : Type 0} (read : Budget → T × Budget) (balanced : IsBalanced read) where
  -- After a read with the object charge suspended both nesting depths are what they were, if the
  -- read itself leaves them as it finds them.
  pub without_object_charge-SameDepths :
      (oid : Oid) (b : Budget) → AreWords b → SameDepths b (without_object_charge oid read b).1
  unfolding without_object_charge
  without_object_charge-SameDepths oid b w = elim (Bool-cases (contains oid b.graph_reads)) [
    | inl old ↦ rw old (grind (arith, balanced.depths))
    | inr new ↦ rw new (grind (arith, balanced.depths))
  ]

  -- So too after a replay with every recharge suspended.
  pub without_object_recharge-SameDepths :
      (b : Budget) → AreWords b → SameDepths b (without_object_recharge read b).1
  unfolding without_object_recharge
  without_object_recharge-SameDepths b w = grind (arith, balanced.depths)

contains-insert_new : (oid : Oid) (reads : List Oid) → contains oid (insert_new oid reads).0 ≡ true
unfolding insert_new contains
contains-insert_new oid reads = elim (Bool-cases (contains oid reads)) [
  | inl old ↦ rw old old
  | inr new ↦ rw (new, oid_eq_refl oid)
]

-- What reading an object under suspension leaves alone.
record Kept (b c : Budget) : Type 0 where
  objects : c.objects ≡ b.objects
  reads : c.graph_reads ≡ b.graph_reads
  depth : c.object_charge_suspensions ≡ b.object_charge_suspensions
  repeats : c.duplicate_graph_read_suspensions ≡ b.duplicate_graph_read_suspensions

charge_object-Kept :
    (now bytes : ℕ) (b : Budget)
    → 0 < b.object_charge_suspensions
    → Kept b (charge_object now bytes b).1
unfolding charge_object
charge_object-Kept now bytes b h = ground arith

pub charge_object_repeat :
    (now bytes : ℕ) (b : Budget)
    → 0 < b.object_charge_suspensions
    → 0 < b.duplicate_graph_read_suspensions
    → (charge_object now bytes b).1 ≡ b
unfolding charge_object
charge_object_repeat now bytes b h k = ground arith

-- Room for one more level of nesting.
pub record HasRoom (b : Budget) : Type 0 where
  pub objects : b.object_charge_suspensions + 1 < u64_mod
  pub duplicates : b.duplicate_graph_read_suspensions + 1 < u64_mod

-- The effect of a first and of a repeated suspended read.
record First (oid : Oid) (b c : Budget) : Type 0 where
  objects : c.objects ≡ b.objects
  known : contains oid c.graph_reads ≡ true
  depths : SameDepths b c

-- The object count, the read count and the payload bytes.
pub record SamePayload (b c : Budget) : Type 0 where
  pub objects : c.objects ≡ b.objects
  pub reads : c.objects_read ≡ b.objects_read
  pub bytes : c.object_bytes ≡ b.object_bytes

First-read :
    (oid : Oid) (now bytes : ℕ) (b : Budget)
    → HasRoom b
    → First oid b (without_object_charge oid (charge_object now bytes) b).1
unfolding without_object_charge contains
First-read oid now bytes b room = elim (Bool-cases (contains oid b.graph_reads)) [
  | inl old ↦ rw old (grind (arith, charge_object-Kept now bytes))
  | inr new ↦ rw new (grind (arith, charge_object-Kept now bytes, oid_eq_refl oid))
]

repeated_read :
    (oid : Oid) (now bytes : ℕ) (b : Budget)
    → HasRoom b
    → contains oid b.graph_reads ≡ true
    → SamePayload b (without_object_charge oid (charge_object now bytes) b).1
unfolding without_object_charge
repeated_read oid now bytes b room known = rw known (grind (arith, charge_object_repeat now bytes))

-- Reading the payload of one graph object twice under suspension spends no object count, and the
-- second read, whatever its size and time, neither counts as a read nor spends payload bytes.
read_twice-SamePayload :
    (oid : Oid) (now bytes later bytes' : ℕ) (b : Budget)
    → HasRoom b
    → let first = (without_object_charge oid (charge_object now bytes) b).1 in
      (first.objects ≡ b.objects)
      × SamePayload first (without_object_charge oid (charge_object later bytes') first).1
read_twice-SamePayload oid now bytes later bytes' b room =
    let f = First-read oid now bytes b room in
    (
      f.objects,
      repeated_read oid later bytes' _ (omega (arith, f.depths.objects, f.depths.duplicates))
          f.known,
    )

-- A replayed read spends nothing of the object count, the read count or the payload bytes.
without_object_recharge-SamePayload :
    (now bytes : ℕ) (b : Budget)
    → HasRoom b
    → SamePayload b (without_object_recharge (charge_object now bytes) b).1
unfolding without_object_recharge
without_object_recharge-SamePayload now bytes b room = grind (arith, charge_object_repeat now bytes)
