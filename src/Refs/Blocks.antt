-- ===== src/Refs/Blocks.antt =====
-- The blocks of a compact cursor position in crates/gitility-core/src/refs.rs.
use mathlib.Core.Path.{sym}
use gitility.Base.{
  ℕ, zero, suc, ◌+◌, ◌*◌, ◌/◌, ◌%◌, ◌≤◌, ◌<◌, ◌≡◌, refl, ap, ◌∙◌, List, [], ◌∷◌, ◌++◌, length, All,
  arith,
}
use gitility.Refs.{mul_add, div_rem, unpack}

-- A number in slots, the lowest first, and a carry behind the slots.
unfoldable pub value_of : List ℕ → ℕ
value_of [] = 0
value_of (slot ∷ slots) = slot + 256 * value_of slots

unfoldable pub behind : List ℕ → ℕ → ℕ
behind [] carry = carry
behind (slot ∷ slots) carry = 256 * behind slots carry

abbrev pub IsByte : ℕ → Type 0
IsByte c = c < 256

mul_add-value_of :
    (slots : List ℕ) (carry : ℕ)
    → value_of (mul_add slots carry).0 + behind slots (mul_add slots carry).1
      ≡ value_of slots * 215 + carry
unfolding value_of behind mul_add
mul_add-value_of [] carry = omega arith
mul_add-value_of (slot ∷ slots) carry =
    omega (arith, mul_add-value_of slots ((slot * 215 + carry) / 256))

pub mul_add-IsByte : (slots : List ℕ) (carry : ℕ) → All IsByte (mul_add slots carry).0
unfolding mul_add
mul_add-IsByte [] carry = tt
mul_add-IsByte (slot ∷ slots) carry =
    (omega arith, mul_add-IsByte slots ((slot * 215 + carry) / 256))

pub length-mul_add : (slots : List ℕ) (carry : ℕ) → length (mul_add slots carry).0 ≡ length slots
unfolding mul_add
length-mul_add [] carry = refl
length-mul_add (slot ∷ slots) carry = ap suc (length-mul_add slots ((slot * 215 + carry) / 256))

-- The division finds a symbol again, and the slots from before, if nothing was lost.
div_rem_from : List ℕ → ℕ → List ℕ × ℕ
div_rem_from [] remainder = ([], remainder)
div_rem_from (slot ∷ slots) remainder =
    let (rest, r) = div_rem_from slots remainder in
    let dividend = r * 256 + slot in (dividend / 215 % 256 ∷ rest, dividend % 215)

abbrev pub Pair : Type 0
Pair = List ℕ × ℕ

div_rem_from-mul_add :
    (slots : List ℕ) (carry : ℕ)
    → All IsByte slots
    → carry < 215
    → div_rem_from (mul_add slots carry).0 (mul_add slots carry).1 ≡ (slots, carry)
unfolding mul_add div_rem_from
div_rem_from-mul_add [] carry h small = refl
div_rem_from-mul_add (slot ∷ slots) carry h small =
    let value = slot * 215 + carry in
    let top : value / 256 < 215 = omega (arith, h.0, small) in
    let join : value / 256 * 256 + value % 256 ≡ value = omega arith in
    let first : value / 215 % 256 ≡ slot = omega (arith, h.0, small) in
    let last : value % 215 ≡ carry = omega (arith, small) in
    let next : Pair → Pair =
      λ r. ((r.1 * 256 + value % 256) / 215 % 256 ∷ r.0, (r.1 * 256 + value % 256) % 215) in
    ap next (div_rem_from-mul_add slots (value / 256) h.1 top)
    ∙ ap (λ d. (d / 215 % 256 ∷ slots, d % 215)) join
    ∙ ap (λ d. (d ∷ slots, value % 215)) first
    ∙ ap (λ d. (slot ∷ slots, d)) last

div_rem_from_zero : (slots : List ℕ) → div_rem_from slots 0 ≡ div_rem slots
unfolding div_rem div_rem_from
div_rem_from_zero [] = refl
div_rem_from_zero (slot ∷ slots) =
    ap (λ r. ((r.1 * 256 + slot) / 215 % 256 ∷ r.0, (r.1 * 256 + slot) % 215))
      (div_rem_from_zero slots)

behind_mono : (slots : List ℕ) (a b : ℕ) → a ≤ b → behind slots a ≤ behind slots b
unfolding behind
behind_mono [] a b h = h
behind_mono (slot ∷ slots) a b h = omega (arith, behind_mono slots a b h)

behind-length : (xs ys : List ℕ) (c : ℕ) → length xs ≡ length ys → behind xs c ≡ behind ys c
unfolding behind
behind-length [] [] c h = refl
behind-length [] (y ∷ ys) c h = absurd (omega (arith, h))
behind-length (x ∷ xs) [] c h = absurd (omega (arith, h))
behind-length (x ∷ xs) (y ∷ ys) c h = ap (λ n. 256 * n) (behind-length xs ys c (omega (arith, h)))

-- Where a value times 215 fits, nothing is lost.
mul_add-fits :
    (slots : List ℕ) (carry bound : ℕ)
    → value_of slots < bound
    → carry < 215
    → 215 * bound ≤ behind slots 1
    → ((mul_add slots carry).1 ≡ 0) × (value_of (mul_add slots carry).0 < 215 * bound)
mul_add-fits slots carry bound small digit fits =
    let lost = (mul_add slots carry).1 in
    let sum = mul_add-value_of slots carry in
    let none_lost : lost ≡ 0 =
      zero-or lost
        (λ some_lost. omega (arith, sum, small, digit, fits, behind_mono slots 1 lost some_lost)) in
    (none_lost, omega (arith, sum, small, digit))
  where
    zero-or : (n : ℕ) → (1 ≤ n → ⊥) → n ≡ 0
    zero-or zero h = refl
    zero-or (suc n) h = absurd (h (omega arith))

unfoldable pub mul_all : List ℕ → List ℕ → List ℕ
unfolding mul_add
mul_all [] slots = slots
mul_all (rank ∷ ranks) slots = mul_all ranks (mul_add slots rank).0

-- The bound behind some more symbols.
unfoldable pub grown : ℕ → ℕ → ℕ
grown zero bound = bound
grown (suc count) bound = grown count (215 * bound)

grown-le : (count bound : ℕ) → bound ≤ grown count bound
unfolding grown
grown-le zero bound = omega arith
grown-le (suc count) bound = omega (arith, grown-le count (215 * bound))

unpack-next :
    (count : ℕ) (slots rest : List ℕ) (rank : ℕ) (ranks : List ℕ)
    → div_rem slots ≡ (rest, rank)
    → unpack (suc count) slots ranks ≡ unpack count rest (rank ∷ ranks)
unfolding unpack
unpack-next count slots rest rank ranks h = ap (λ r. unpack count r.0 (r.1 ∷ ranks)) h

abbrev pub IsRank : ℕ → Type 0
IsRank rank = rank < 215

pub unpack-mul_all :
    (ranks slots : List ℕ) (bound count : ℕ) (found : List ℕ)
    → All IsRank ranks
    → All IsByte slots
    → value_of slots < bound
    → grown (length ranks) bound ≤ behind slots 1
    → unpack (length ranks + count) (mul_all ranks slots) found
      ≡ unpack count slots (ranks ++ found)
unfolding mul_all grown
unpack-mul_all [] slots bound count found r h small fits =
    ap (λ n. unpack n slots found) (omega arith)
unpack-mul_all (rank ∷ ranks) slots bound count found r h small fits =
    let next = (mul_add slots rank).0 in
    let (kept, less) =
      mul_add-fits slots rank bound small r.0
        (omega (arith, fits, grown-le (length ranks) (215 * bound))) in
    let same : behind next 1 ≡ behind slots 1 =
      behind-length next slots 1 (length-mul_add slots rank) in
    let back : div_rem next ≡ (slots, rank) =
      sym (div_rem_from_zero next)
      ∙ ap (div_rem_from next) (sym kept)
      ∙ div_rem_from-mul_add slots rank h r.0 in
    ap (λ n. unpack n (mul_all ranks next) found) (omega arith)
    ∙ unpack-mul_all ranks next (215 * bound) (suc count) found r.1 (mul_add-IsByte slots rank) less
        (omega (arith, fits, same))
    ∙ unpack-next count next slots rank (ranks ++ found) back
