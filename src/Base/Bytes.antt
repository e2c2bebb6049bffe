-- ===== src/Base/Bytes.antt =====
-- Little-endian words: `to_le_bytes` and `from_le_bytes` at a width in bytes.
use Prim.Native.Nat.{ℕ, zero, suc, ◌+◌, ◌*◌, ◌/◌, ◌%◌, ◌^◌, ◌<◌}
use native.Mathlib.Nat.{pow-suc}
use mathlib.Core.Path.{◌≡◌, refl, ap, ap₂}
use mathlib.Core.List.{List, [], ◌∷◌}
use native.Mathlib.Omega.{arith}
use gitility.Base.Lists.{length, AreBytes}

unfoldable pub to_le_bytes : ℕ → ℕ → List ℕ
to_le_bytes zero n = []
to_le_bytes (suc w) n = n % 256 ∷ to_le_bytes w (n / 256)

unfoldable pub from_le_bytes : List ℕ → ℕ
from_le_bytes [] = 0
from_le_bytes (b ∷ bs) = b + 256 * from_le_bytes bs

pub length-to_le_bytes : (w n : ℕ) → length (to_le_bytes w n) ≡ w
unfolding to_le_bytes
length-to_le_bytes zero n = refl
length-to_le_bytes (suc w) n = ap suc (length-to_le_bytes w (n / 256))

pub to_le_bytes-AreBytes : (w n : ℕ) → AreBytes (to_le_bytes w n)
unfolding to_le_bytes
to_le_bytes-AreBytes zero n = tt
to_le_bytes-AreBytes (suc w) n = (omega arith, to_le_bytes-AreBytes w (n / 256))

pub from_le_bytes-to_le_bytes : (w n : ℕ) → n < 256 ^ w → from_le_bytes (to_le_bytes w n) ≡ n
unfolding from_le_bytes to_le_bytes
from_le_bytes-to_le_bytes zero n h = omega arith
from_le_bytes-to_le_bytes (suc w) n h =
    omega (arith, from_le_bytes-to_le_bytes w (n / 256) (omega (arith, pow-suc 256 w)))

tail_lem : (b n : ℕ) → b < 256 → (b + 256 * n) / 256 ≡ n
tail_lem b n h = omega arith

pub to_le_bytes-from_le_bytes :
    (w : ℕ) (bs : List ℕ) → length bs ≡ w → AreBytes bs → to_le_bytes w (from_le_bytes bs) ≡ bs
unfolding from_le_bytes to_le_bytes
to_le_bytes-from_le_bytes zero [] e h = refl
to_le_bytes-from_le_bytes zero (b ∷ bs) e h = absurd (omega arith)
to_le_bytes-from_le_bytes (suc w) [] e h = absurd (omega arith)
to_le_bytes-from_le_bytes (suc w) (b ∷ bs) e h =
    ap₂ ◌∷◌ (omega arith)
      (rw (tail_lem b (from_le_bytes bs) h.0) (to_le_bytes-from_le_bytes w bs (omega arith) h.1))

pub from_le_bytes-lt : (bs : List ℕ) → AreBytes bs → from_le_bytes bs < 256 ^ length bs
unfolding from_le_bytes
from_le_bytes-lt [] h = omega arith
from_le_bytes-lt (b ∷ bs) h = omega (arith, from_le_bytes-lt bs h.1, pow-suc 256 (length bs))
