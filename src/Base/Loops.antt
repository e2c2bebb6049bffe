-- ===== src/Base/Loops.antt =====
-- Loops on fuel: a turn goes on or is done.
use Prim.Native.Nat.{ℕ, zero, suc, ◌<◌}
use mathlib.Core.Path.{◌≡◌, refl, ap}
use mathlib.Core.Option.{Option, none, some}
use native.Mathlib.Omega.{arith}

pub data Flow {ℓ κ} (S : Type ℓ) (R : Type κ) : Type (ℓ ⊔ κ) where
  more : S → Flow S R
  done : R → Flow S R

-- `none` says that the fuel ran out.
unfoldable pub loop {ℓ κ} : {S : Type ℓ} {R : Type κ} → (S → Flow S R) → ℕ → S → Option R
loop turn zero s = none
loop turn (suc n) s = elim (turn s) [ more t ↦ loop turn n t | done r ↦ some r ]

-- What a turn makes of a state: one of less weight that keeps a property, or a result with another.
abbrev pub Descends {ℓ κ} :
    {S : Type ℓ} {R : Type κ} → (S → ℕ) → (S → Type 0) → (R → Type 0) → S → Flow S R → Type 0
Descends weight P Q s (more t) = (weight t < weight s) × P t
Descends weight P Q s (done r) = Q r

-- Fuel above the weight is enough, where every turn descends.
pub loop-Returns {ℓ κ} :
    {S : Type ℓ} {R : Type κ} (turn : S → Flow S R) (weight : S → ℕ) (P : S → Type 0)
    (Q : R → Type 0)
    → ((s : S) → P s → Descends weight P Q s (turn s))
    → (fuel : ℕ) (s : S) → weight s < fuel
    → P s
    → (r : R) × (loop turn fuel s ≡ some r) × Q r
unfolding loop
loop-Returns turn weight P Q step zero s h p = absurd (omega arith)
loop-Returns {S = S} {R = R} turn weight P Q step (suc fuel) s h p =
    settle (turn s) (step s p)
      (λ t less kept. loop-Returns turn weight P Q step fuel t (omega arith) kept)
  where
    settle :
        (f : Flow S R)
        → Descends weight P Q s f
        → ((t : S) → weight t < weight s → P t → (r : R) × (loop turn fuel t ≡ some r) × Q r)
        → (r : R) × ((elim f as (λ _. Option R) [ more t ↦ loop turn fuel t | done r ↦ some r ])
            ≡ some r)
          × Q r
    settle (more t) d rest = rest t d.0 d.1
    settle (done r) d rest = (r, refl, d)

pub loop-more {ℓ κ} :
    {S : Type ℓ} {R : Type κ} (turn : S → Flow S R) (fuel : ℕ) {s t : S}
    → turn s ≡ more t
    → loop turn (suc fuel) s ≡ loop turn fuel t
unfolding loop
loop-more {R = R} turn fuel e =
    ap (λ f. elim f as (λ _. Option R) [ more t ↦ loop turn fuel t | done r ↦ some r ]) e

pub loop-done {ℓ κ} :
    {S : Type ℓ} {R : Type κ} (turn : S → Flow S R) (fuel : ℕ) {s : S} {r : R}
    → turn s ≡ done r
    → loop turn (suc fuel) s ≡ some r
unfolding loop
loop-done {R = R} turn fuel e =
    ap (λ f. elim f as (λ _. Option R) [ more t ↦ loop turn fuel t | done r ↦ some r ]) e
