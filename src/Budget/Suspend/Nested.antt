-- ===== src/Budget/Suspend/Nested.antt =====
-- Programs of a traversal: the public operations of crates/gitility-core/src/budget.rs with the
-- closures of `without_object_charge` and `without_object_recharge` nested to any depth. A caller
-- that stops at an error is a shorter program.
use gitility.Base.{ℕ, ◌+◌, ◌≤◌, ◌<◌, ◌≡◌, refl, arith, u64_mod, inl, inr, Bool-cases}
use gitility.Oid.{Oid}
use gitility.Budget.{
  Budget, charge, charge_object, charge_object_visit, charge_header, charge_tree_entry,
  charge_integrity_bytes, charge_provider_request, charge_provider_bytes, record_cache_hit,
  record_cache_miss,
}
use gitility.Budget.Calls.{Call, integrity, hit, miss, step}
use gitility.Budget.Suspend.{contains, without_object_charge, without_object_recharge}
use gitility.Budget.Suspend.Once.{
  AreWords, SameDepths, SamePayload, without_object_charge-SameDepths,
  without_object_recharge-SameDepths,
}

pub data Program : Type 0 where
  done : Program
  then_call : ℕ → Call → Program → Program
  then_read : Oid → Program → Program → Program
  then_replay : Program → Program → Program

unfoldable pub perform : Program → Budget → Unit {0} × Budget
unfolding step without_object_charge without_object_recharge
perform done b = (tt, b)
perform (then_call now c rest) b = perform rest (step now c b).1
perform (then_read oid read rest) b = perform rest (without_object_charge oid (perform read) b).1
perform (then_replay replay rest) b = perform rest (without_object_recharge (perform replay) b).1

-- The suspensions of a program, an upper bound for its nesting.
unfoldable pub suspensions : Program → ℕ
suspensions done = 0
suspensions (then_call _ _ rest) = suspensions rest
suspensions (then_read _ read rest) = 1 + suspensions read + suspensions rest
suspensions (then_replay replay rest) = 1 + suspensions replay + suspensions rest

abbrev scan : Call → ℕ
scan (integrity _) = 1
scan c = 0

-- The calls of a program that charge an integrity scan, which no suspension covers.
unfoldable pub scans : Program → ℕ
scans done = 0
scans (then_call _ c rest) = scan c + scans rest
scans (then_read _ read rest) = scans read + scans rest
scans (then_replay replay rest) = scans replay + scans rest

-- A call leaves both depths alone.
step-SameDepths : (now : ℕ) (c : Call) (b : Budget) → SameDepths b (step now c b).1
unfolding step charge charge_object charge_object_visit charge_header charge_tree_entry
    charge_integrity_bytes charge_provider_request charge_provider_bytes record_cache_hit
    record_cache_miss
step-SameDepths now hit b = record { objects = refl; duplicates = refl }
step-SameDepths now miss b = record { objects = refl; duplicates = refl }
step-SameDepths now c b = ground arith

SameDepths-trans : {a b c : Budget} → SameDepths a b → SameDepths b c → SameDepths a c
SameDepths-trans p q = omega (arith, p.objects, p.duplicates, q.objects, q.duplicates)

AreWords-SameDepths : {a b : Budget} → SameDepths a b → AreWords a → AreWords b
AreWords-SameDepths p w = omega (arith, p.objects, p.duplicates)

-- Any program of the public operations, with suspensions nested in it, leaves both nesting depths,
-- words of 64 bits, as it finds them, whatever its calls give.
pub perform-SameDepths : (p : Program) (b : Budget) → AreWords b → SameDepths b (perform p b).1
unfolding perform
perform-SameDepths done b w = record { objects = refl; duplicates = refl }
perform-SameDepths (then_call now c rest) b w =
    let s = step-SameDepths now c b in
    SameDepths-trans s (perform-SameDepths rest _ (AreWords-SameDepths s w))
perform-SameDepths (then_read oid read rest) b w =
    let s =
      without_object_charge-SameDepths (perform read) (record { depths = perform-SameDepths read })
        oid b w in
    SameDepths-trans s (perform-SameDepths rest _ (AreWords-SameDepths s w))
perform-SameDepths (then_replay replay rest) b w =
    let s =
      without_object_recharge-SameDepths (perform replay)
        (record { depths = perform-SameDepths replay }) b w in
    SameDepths-trans s (perform-SameDepths rest _ (AreWords-SameDepths s w))

-- Inside a replay: both counts are suspended, and there is room for `n` more levels.
record IsReplaying (n : ℕ) (b : Budget) : Type 0 where
  objects : 0 < b.object_charge_suspensions
  duplicates : 0 < b.duplicate_graph_read_suspensions
  objects_room : b.object_charge_suspensions + n < u64_mod
  duplicates_room : b.duplicate_graph_read_suspensions + n < u64_mod

pub record Unspent (b c : Budget) : Type 0 where
  pub payload : SamePayload b c
  pub depths : SameDepths b c

Unspent-trans : {a b c : Budget} → Unspent a b → Unspent b c → Unspent a c
Unspent-trans p q = omega (
  arith, p.payload.objects, p.payload.reads, p.payload.bytes, p.depths.objects, p.depths.duplicates,
  q.payload.objects, q.payload.reads, q.payload.bytes, q.depths.objects, q.depths.duplicates,
)

step-Unspent :
    (now : ℕ) (c : Call) {n : ℕ} (b : Budget)
    → scan c ≡ 0
    → IsReplaying n b
    → Unspent b (step now c b).1
unfolding step charge charge_object charge_object_visit charge_header charge_tree_entry
    charge_integrity_bytes charge_provider_request charge_provider_bytes record_cache_hit
    record_cache_miss
step-Unspent now c b h k = ground arith

IsReplaying-weaken :
    {a b : Budget} {m n : ℕ} → SameDepths a b → m ≤ n → IsReplaying n a → IsReplaying m b
IsReplaying-weaken s h w = omega (arith, s.objects, s.duplicates)

module _ (p : Program) (n : ℕ)
    (kept : (b : Budget) → IsReplaying n b → Unspent b (perform p b).1) where
  replay-Unspent :
      (b : Budget) → IsReplaying (1 + n) b → Unspent b (without_object_recharge (perform p) b).1
  unfolding without_object_recharge
  replay-Unspent b w = grind (arith, kept)

  read-Unspent :
      (oid : Oid) (b : Budget)
      → IsReplaying (1 + n) b
      → Unspent b (without_object_charge oid (perform p) b).1
  unfolding without_object_charge
  read-Unspent oid b w = elim (Bool-cases (contains oid b.graph_reads)) [
    | inl old ↦ rw old (grind (arith, kept))
    | inr new ↦ rw new (grind (arith, kept))
  ]

perform-Unspent :
    (p : Program) (b : Budget)
    → scans p ≡ 0
    → IsReplaying (suspensions p) b
    → Unspent b (perform p b).1
unfolding perform scans suspensions
perform-Unspent done b h w = record {
  payload = record { objects = refl; reads = refl; bytes = refl };
  depths = record { objects = refl; duplicates = refl };
}
perform-Unspent (then_call now c rest) b h w =
    let s = step-Unspent now c b (omega arith) w in
    Unspent-trans s
      (perform-Unspent rest _ (omega arith) (IsReplaying-weaken s.depths (omega arith) w))
perform-Unspent (then_read oid read rest) b h w =
    let s =
      read-Unspent read (suspensions read) (λ a. perform-Unspent read a (omega arith)) oid b
        (omega arith) in
    Unspent-trans s
      (perform-Unspent rest _ (omega arith) (IsReplaying-weaken s.depths (omega arith) w))
perform-Unspent (then_replay replay rest) b h w =
    let s =
      replay-Unspent replay (suspensions replay) (λ a. perform-Unspent replay a (omega arith)) b
        (omega arith) in
    Unspent-trans s
      (perform-Unspent rest _ (omega arith) (IsReplaying-weaken s.depths (omega arith) w))

-- A replay of any program without an integrity scan, with suspensions nested in it, spends nothing
-- of the object count, the read count or the payload bytes and restores both nesting depths, where
-- these leave room for the program's suspensions in 64 bits.
pub without_object_recharge-Unspent :
    (p : Program) (b : Budget)
    → scans p ≡ 0
    → b.object_charge_suspensions + 1 + suspensions p < u64_mod
    → b.duplicate_graph_read_suspensions + 1 + suspensions p < u64_mod
    → Unspent b (without_object_recharge (perform p) b).1
unfolding without_object_recharge
without_object_recharge-Unspent p b h o d = grind (arith, perform-Unspent p)
