-- ===== src/Budget/Suspend/Distinct.antt =====
-- A walk over graph objects: reads under `without_object_charge` of
-- crates/gitility-core/src/budget.rs, against the set of the payloads that it has met.
use gitility.Base.{
  ◌∙◌, sym, ap, if◌then◌else◌, ℕ, ◌+◌, ◌*◌, ◌≤◌, ◌<◌, ◌≡◌, refl, true, false, List, [], ◌∷◌, length,
  arith, inl, inr, Bool-cases,
}
use gitility.Oid.{Oid}
use gitility.Budget.{Budget, BudgetLimits, charge_object, charge}
use gitility.Budget.Suspend.{contains, without_object_charge}
use gitility.Budget.Suspend.Once.{SameDepths, HasRoom, charge_object_repeat}

-- A read of an object, at an instant, of a payload of some size.
pub record Read : Type 0 where
  pub oid : Oid
  pub now : ℕ
  pub bytes : ℕ

unfoldable pub read_all : List Read → Budget → Budget
unfolding without_object_charge
read_all [] b = b
read_all (r ∷ rs) b = read_all rs (without_object_charge r.oid (charge_object r.now r.bytes) b).1

-- `n` further payloads were met, and at most these were counted, each within the cap of an object.
pub record Counted (largest n : ℕ) (b c : Budget) : Type 0 where
  pub objects : c.objects ≡ b.objects
  pub limits : c.limits ≡ b.limits
  pub depths : SameDepths b c
  pub met : length c.graph_reads ≡ length b.graph_reads + n
  pub reads : c.objects_read ≤ b.objects_read + n
  pub bytes : c.object_bytes ≤ b.object_bytes + n * largest

-- What a suspended read leaves alone, and the most that it counts.
record AtMost (b c : Budget) : Type 0 where
  objects : c.objects ≡ b.objects
  limits : c.limits ≡ b.limits
  graph_reads : c.graph_reads ≡ b.graph_reads
  depths : SameDepths b c
  reads : c.objects_read ≤ b.objects_read + 1
  bytes : c.object_bytes ≤ b.object_bytes + b.limits.max_object_bytes

charge_object-AtMost :
    (now bytes : ℕ) (b : Budget)
    → 0 < b.object_charge_suspensions
    → AtMost b (charge_object now bytes b).1
unfolding charge_object charge
charge_object-AtMost now bytes b h = ground arith

read-new :
    (r : Read) (b : Budget)
    → HasRoom b
    → contains r.oid b.graph_reads ≡ false
    → let c = (without_object_charge r.oid (charge_object r.now r.bytes) b).1 in
      Counted b.limits.max_object_bytes 1 b c × (c.graph_reads ≡ r.oid ∷ b.graph_reads)
unfolding without_object_charge
read-new r b room new = rw new (grind (arith, charge_object-AtMost))

read-known :
    (r : Read) (b : Budget)
    → HasRoom b
    → contains r.oid b.graph_reads ≡ true
    → let c = (without_object_charge r.oid (charge_object r.now r.bytes) b).1 in
      Counted b.limits.max_object_bytes 0 b c × (c.graph_reads ≡ b.graph_reads)
unfolding without_object_charge
read-known r b room known = rw known (grind (arith, charge_object_repeat r.now r.bytes))

-- The payloads of a walk that were not met before, each counted once.
unfoldable pub new_reads : List Read → List Oid → ℕ
unfolding contains
new_reads [] seen = 0
new_reads (r ∷ rs) seen =
    let known = contains r.oid seen in
    (if known then 0 else 1) + new_reads rs (if known then seen else r.oid ∷ seen)

Counted-trans :
    {largest m n : ℕ} {a b c : Budget}
    → Counted largest m a b
    → Counted largest n b c
    → Counted largest (m + n) a c
Counted-trans {largest} {m} {n} p q =
    let sum : (m + n) * largest ≡ m * largest + n * largest = omega arith in
    record {
      objects = q.objects ∙ p.objects;
      limits = q.limits ∙ p.limits;
      depths =
          omega
            (arith, p.depths.objects, p.depths.duplicates, q.depths.objects, q.depths.duplicates);
      met = omega (arith, p.met, q.met);
      reads = omega (arith, p.reads, q.reads);
      bytes = omega (arith, sum, p.bytes, q.bytes);
    }

-- The state that a read leaves.
abbrev read_one : Read → Budget → Budget
read_one r b = (without_object_charge r.oid (charge_object r.now r.bytes) b).1

abbrev seen_after : Read → List Oid → List Oid
seen_after r seen = if contains r.oid seen then seen else r.oid ∷ seen

read_one-Counted :
    (r : Read) (b : Budget)
    → HasRoom b
    → Counted b.limits.max_object_bytes
        (if contains r.oid b.graph_reads then 0 else 1)
        b
        (read_one r b)
      × ((read_one r b).graph_reads ≡ seen_after r b.graph_reads)
read_one-Counted r b room = elim (Bool-cases (contains r.oid b.graph_reads)) [
  | inl known ↦ rw known (read-known r b room known)
  | inr new ↦ rw new (read-new r b room new)
]

read_all-within :
    (rs : List Read) (largest : ℕ) (b : Budget)
    → largest ≡ b.limits.max_object_bytes
    → HasRoom b
    → Counted largest (new_reads rs b.graph_reads) b (read_all rs b)
unfolding read_all new_reads
read_all-within [] largest b e room = record {
  objects = refl;
  limits = refl;
  depths = record { objects = refl; duplicates = refl };
  met = omega arith;
  reads = omega arith;
  bytes = omega arith;
}
read_all-within (r ∷ rs) largest b e room =
    let (c, seen) = read_one-Counted r b room in
    let rest =
      read_all-within rs largest (read_one r b)
        (e ∙ sym (ap (λ (l : BudgetLimits). l.max_object_bytes) c.limits))
        (omega (arith, c.depths.objects, c.depths.duplicates)) in
    Counted-trans {b = read_one r b} (rw e c) (rw (sym seen) rest)

-- A walk that reads each of its objects under suspension, its repeats included, spends no object
-- count, restores both nesting depths, counts at most one payload read for each object ID that the
-- budget had not met before, and for each at most the bytes that one object may have; where the
-- nesting depths leave room for one more level in 64 bits.
pub read_all-CountsOnce :
    (rs : List Read) (b : Budget)
    → HasRoom b
    → Counted b.limits.max_object_bytes (new_reads rs b.graph_reads) b (read_all rs b)
read_all-CountsOnce rs b room = read_all-within rs _ b refl room
