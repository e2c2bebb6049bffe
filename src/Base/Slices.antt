-- ===== src/Base/Slices.antt =====
-- The slice methods of the standard library that the source uses, on lists of bytes.
use Prim.Native.Nat.{ℕ, suc}
use mathlib.Core.Bool.{Bool, true, false, ◌&&◌, ◌||◌}
use mathlib.Core.List.{List, [], ◌∷◌}
use mathlib.Core.Option
use mathlib.Core.Option.{Option, none, some}
use gitility.Base.Tests.{◌==◌, if◌then◌else◌}

-- `bytes.starts_with(prefix)`.
unfoldable pub starts_with : List ℕ → List ℕ → Bool
starts_with bytes [] = true
starts_with [] (p ∷ prefix) = false
starts_with (b ∷ bytes) (p ∷ prefix) = b == p && starts_with bytes prefix

-- `bytes.strip_prefix(prefix)`.
unfoldable pub strip_prefix : List ℕ → List ℕ → Option (List ℕ)
strip_prefix bytes [] = some bytes
strip_prefix [] (p ∷ prefix) = none
strip_prefix (b ∷ bytes) (p ∷ prefix) = if b == p then strip_prefix bytes prefix else none

-- `bytes.iter().any(test)`.
unfoldable pub any {ℓ} : {A : Type ℓ} → (A → Bool) → List A → Bool
any test [] = false
any test (x ∷ xs) = test x || any test xs

-- `bytes.iter().position(test)`.
unfoldable pub position : (ℕ → Bool) → List ℕ → Option ℕ
position test [] = none
position test (x ∷ xs) = if test x then some 0 else Option.map (λ i. suc i) (position test xs)

-- `bytes.iter().rposition(test)`.
unfoldable pub rposition : (ℕ → Bool) → List ℕ → Option ℕ
rposition test [] = none
rposition test (x ∷ xs) = elim (rposition test xs) [
  | some i ↦ some (suc i)
  | none ↦ if test x then some 0 else none
]
