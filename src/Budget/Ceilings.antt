-- ===== src/Budget/Ceilings.antt =====
-- The ceilings of crates/gitility-core/src/budget.rs against what the successful calls of a run
-- were granted.
use mathlib.Core.Path.{subst}
use gitility.Base.{ℕ, ◌+◌, ◌≤◌, ◌<◌, ◌≡◌, refl, ◌∙◌, Bool, Option, List, [], ◌∷◌, arith, u64_mod}
use gitility.Budget.{
  Budget, BudgetLimits, new_budget, charge, charge_object, charge_object_visit, charge_header,
  charge_tree_entry, charge_integrity_bytes, charge_provider_request, charge_provider_bytes,
  record_cache_hit, record_cache_miss,
}
use gitility.Budget.Calls.{
  Call, object, visit, header, tree_entry, integrity, request, reply, hit, miss, step, Spend,
  nothing, grant, after, run, weight, demand,
}

-- One counter: the amount granted is within the counter and the ceiling, and the counter within
-- the demand so far.
pub record Meter (d granted counter ceiling : ℕ) : Type 0 where
  pub counted : granted ≤ counter
  pub bounded : granted ≤ ceiling
  pub demanded : counter ≤ d

pub record Within (d : ℕ) (g : Spend) (b : Budget) : Type 0 where
  pub objects : Meter d g.objects b.objects b.limits.max_objects
  pub bytes : Meter d g.bytes b.object_bytes b.limits.max_total_object_bytes
  pub requests : Meter d g.requests b.provider_requests b.limits.max_provider_requests
  pub reply_bytes : Meter d g.reply_bytes b.provider_bytes b.limits.max_provider_bytes
  pub entries : Meter d g.entries b.tree_entries b.limits.max_tree_entries

step-Within :
    (now d : ℕ) (c : Call) (b : Budget) (g : Spend)
    → d + weight c < u64_mod
    → Within d g b
    → Within (d + weight c) (after (step now c b).0 c b g) (step now c b).1
unfolding step grant charge charge_object charge_object_visit charge_header charge_tree_entry
    charge_integrity_bytes charge_provider_request charge_provider_bytes record_cache_hit
    record_cache_miss
step-Within now d (object bytes) b g h w = ground arith
step-Within now d visit b g h w = ground arith
step-Within now d header b g h w = ground arith
step-Within now d tree_entry b g h w = ground arith
step-Within now d (integrity bytes) b g h w = ground arith
step-Within now d request b g h w = ground arith
step-Within now d (reply bytes) b g h w = ground arith
step-Within now d hit b g h w = omega arith
step-Within now d miss b g h w = omega arith

step-limits : (now : ℕ) (c : Call) (b : Budget) → (step now c b).1.limits ≡ b.limits
unfolding step charge_object charge_object_visit charge_header charge_tree_entry
    charge_integrity_bytes charge_provider_request charge_provider_bytes record_cache_hit
    record_cache_miss
step-limits now hit b = refl
step-limits now c b = ground arith

run-Within :
    (calls : List (ℕ × Call)) (d : ℕ) (b : Budget) (g : Spend)
    → d + demand calls < u64_mod
    → Within d g b
    → Within (d + demand calls) (run calls b g).0 (run calls b g).1
unfolding run demand
run-Within [] d b g h w = let e : d + 0 ≡ d = omega arith in rw e w
run-Within ((now, c) ∷ calls) d b g h w =
    let e : d + (weight c + demand calls) ≡ d + weight c + demand calls = omega arith in
    rw e (
      run-Within calls (d + weight c) (step now c b).1 (after (step now c b).0 c b g) (omega arith)
        (step-Within now d c b g (omega arith) w))

run-limits :
    (calls : List (ℕ × Call)) (b : Budget) (g : Spend) → (run calls b g).1.limits ≡ b.limits
unfolding run
run-limits [] b g = refl
run-limits ((now, c) ∷ calls) b g =
    run-limits calls (step now c b).1 (after (step now c b).0 c b g) ∙ step-limits now c b

-- What was granted is within each limit.
pub record Respects (limits : BudgetLimits) (g : Spend) : Type 0 where
  pub objects : g.objects ≤ limits.max_objects
  pub bytes : g.bytes ≤ limits.max_total_object_bytes
  pub requests : g.requests ≤ limits.max_provider_requests
  pub reply_bytes : g.reply_bytes ≤ limits.max_provider_bytes
  pub entries : g.entries ≤ limits.max_tree_entries

Within-Respects : {d : ℕ} {g : Spend} {b : Budget} → Within d g b → Respects b.limits g
Within-Respects w = record {
  objects = w.objects.bounded;
  bytes = w.bytes.bounded;
  requests = w.requests.bounded;
  reply_bytes = w.reply_bytes.bounded;
  entries = w.entries.bounded;
}

-- In any run of the public operations from a new budget whose whole demand fits in 64 bits, the
-- objects, object bytes, provider requests, provider bytes and tree entries granted by calls that
-- succeeded stay within their five limits.
pub run-Respects :
    (calls : List (ℕ × Call)) (limits : BudgetLimits) (deadline : Option ℕ) (flag : Bool)
    → demand calls < u64_mod
    → Respects limits (run calls (new_budget limits deadline flag) nothing).0
unfolding new_budget
run-Respects calls limits deadline flag h =
    let start = new_budget limits deadline flag in
    let w = run-Within calls 0 start nothing (omega arith) (omega arith) in
    subst (λ l. Respects l (run calls start nothing).0) (run-limits calls start nothing)
      (Within-Respects w)
