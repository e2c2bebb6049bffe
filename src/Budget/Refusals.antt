-- ===== src/Budget/Refusals.antt =====
-- Which errors a budget gives, and what a refused or a cancelled job can still spend.
use gitility.Base.{
  ℕ, ◌≡◌, true, false, Option, none, some, if◌then◌else◌, arith, ◌⊎◌, ◌↔◌, saturating_add, ◌≤◌, ◌<◌,
}
use gitility.Error.{Error, ok, err, new_text, cancelled, timeout}
use gitility.Budget.{
  Budget, charge, expired, charge_object, charge_object_visit, charge_header, charge_tree_entry,
  charge_integrity_bytes, charge_provider_request, charge_provider_bytes,
}
use gitility.Budget.Calls.{Call, hit, miss, step}

-- The calls that can fail: all but the cache statistics.
abbrev pub IsCharge : Call → Type 0
IsCharge hit = ⊥
IsCharge miss = ⊥
IsCharge _ = Unit {0}

-- Why a job may not go on: a cancellation comes before a deadline that has passed.
abbrev pub refusal : ℕ → Budget → Option Error
refusal now b =
    if b.cancelled
    then some (new_text cancelled "operation cancelled")
    else if expired b.deadline now
    then some (new_text timeout "operation budget expired")
    else none

-- Where the job may not go on, every charge, whatever its amount and the limits, is refused with that
-- error and leaves the budget as it was: with the cancellation, or else with the passed deadline.
pub step-Refused :
    (now : ℕ) (c : Call) (b : Budget) {e : Error}
    → IsCharge c
    → refusal now b ≡ some e
    → step now c b ≡ (err e, b)
unfolding step charge_object charge_object_visit charge_header charge_tree_entry
    charge_integrity_bytes charge_provider_request charge_provider_bytes
step-Refused now hit b i h = absurd i
step-Refused now miss b i h = absurd i
step-Refused now c b i h = ground arith

-- A cancelled job is refused with the cancellation error.
step_cancelled :
    (now : ℕ) (c : Call) (b : Budget)
    → IsCharge c
    → b.cancelled ≡ true
    → step now c b ≡ (err (new_text cancelled "operation cancelled"), b)
step_cancelled now c b i h = step-Refused now c b i (ground arith)

-- From the deadline on, a job that is not cancelled is refused with the timeout error.
step_expired :
    (now t : ℕ) (c : Call) (b : Budget)
    → IsCharge c
    → b.cancelled ≡ false
    → b.deadline ≡ some t
    → t ≤ now
    → step now c b ≡ (err (new_text timeout "operation budget expired"), b)
step_expired now t c b i h d l = step-Refused now c b i (ground arith)

-- `charge_object` succeeds exactly when the job may go on, the object is within its own cap, and
-- the object count and the byte total stay within their ceilings unless their count is suspended.
pub record Admits (now bytes : ℕ) (b : Budget) : Type 0 where
  pub live : b.cancelled ≡ false
  pub early : expired b.deadline now ≡ false
  pub size : bytes ≤ b.limits.max_object_bytes
  pub count :
      (0 < b.object_charge_suspensions) ⊎ (saturating_add b.objects 1 ≤ b.limits.max_objects)
  pub total :
      (0 < b.duplicate_graph_read_suspensions)
      ⊎ (saturating_add b.object_bytes bytes ≤ b.limits.max_total_object_bytes)

pub charge_object-Admits :
    (now bytes : ℕ) (b : Budget) → ((charge_object now bytes b).0 ≡ ok tt) ↔ Admits now bytes b
unfolding charge_object charge
charge_object-Admits now bytes b = (λ h. ground arith, λ a. ground arith)
