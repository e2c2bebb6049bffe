-- ===== src/File/Lfs/Lines.antt =====
-- The lines and the spaces of an LFS pointer in crates/gitility-core/src/file.rs.
use gitility.Base.{
  ℕ, zero, suc, ◌-◌, ◌<◌, ◌≤◌, ◌≡◌, refl, sym, ap, ◌∙◌, Bool, true, false, not, Bool-cases, inl,
  inr, ltb, ◌==◌, List, [], ◌∷◌, ◌++◌, Option, none, some, length, take, drop, All, take-append,
  take-append-drop, length-append, bytes_eq-eq, any, arith,
}
use gitility.Decode.Identities.{IsDigit}
use gitility.File.Lfs.{
  unicode_spaces, is_space, ends_with, find_space, leading_lfs_space, last?, space_at_end,
  trailing_lfs_space, trim_front, trim_back, trim_lfs_space, split_lines, strip_return,
}

-- A byte that ends no line and is no blank of a line's end.
abbrev pub IsPlain : ℕ → Type 0
IsPlain c = 13 < c

pub split_lines-append :
    (line rest : List ℕ)
    → All IsPlain line
    → split_lines (line ++ (10 ∷ rest)) ≡ line ∷ split_lines rest
unfolding split_lines
split_lines-append [] rest h = refl
split_lines-append (c ∷ line) rest h =
    let plain : (c == 10) ≡ false = ground (arith, h.0) in
    rw (split_lines-append line rest h.1, plain)

pub split_lines_one : (line : List ℕ) → All IsPlain line → split_lines line ≡ line ∷ []
unfolding split_lines
split_lines_one [] h = refl
split_lines_one (c ∷ line) h =
    let plain : (c == 10) ≡ false = ground (arith, h.0) in rw (split_lines_one line h.1, plain)

pub strip_return_plain : (line : List ℕ) → All IsPlain line → strip_return line ≡ line
unfolding strip_return
strip_return_plain [] h = refl
strip_return_plain (c ∷ []) h = ground (arith, h.0)
strip_return_plain (c ∷ d ∷ line) h = ap (λ l. c ∷ l) (strip_return_plain (d ∷ line) h.1)

pub last?-append : (xs : List ℕ) (y : ℕ) (ys : List ℕ) → last? (xs ++ (y ∷ ys)) ≡ last? (y ∷ ys)
unfolding last?
last?-append [] y ys = refl
last?-append (x ∷ []) y ys = refl
last?-append (x ∷ z ∷ xs) y ys = last?-append (z ∷ xs) y ys

last?-ends_with :
    (xs : List ℕ) (y : ℕ) (ys : List ℕ) → ends_with xs (y ∷ ys) ≡ true → last? xs ≡ last? (y ∷ ys)
unfolding ends_with
last?-ends_with xs y ys h =
    let n = length xs - length (y ∷ ys) in
    let same : drop n xs ≡ y ∷ ys = bytes_eq-eq (drop n xs) (y ∷ ys) (ground (arith, h)) in
    ap last? (sym (take-append-drop n xs) ∙ ap (λ t. take n xs ++ t) same)
    ∙ last?-append (take n xs) y ys

-- No space ends in an ASCII byte.
is_high : List ℕ → Bool
is_high [] = false
is_high (c ∷ []) = ltb 127 c
is_high (c ∷ d ∷ bytes) = is_high (d ∷ bytes)

high_spaces : any (λ s. not (is_high s)) unicode_spaces ≡ false
unfolding any is_high
high_spaces = refl

is_high-last? : (s : List ℕ) (d : ℕ) → is_high s ≡ true → last? s ≡ some d → 127 < d
unfolding is_high last?
is_high-last? [] d h e = absurd (cc)
is_high-last? (c ∷ []) d h e = ground (arith, h, e)
is_high-last? (c ∷ x ∷ bytes) d h e = is_high-last? (x ∷ bytes) d h e

not_at_end :
    (xs s : List ℕ) (d : ℕ)
    → last? xs ≡ some d
    → d ≤ 127
    → is_high s ≡ true
    → ends_with xs s ≡ false
unfolding is_high
not_at_end xs [] d l low high = absurd (cc)
not_at_end xs (y ∷ ys) d l low high = elim (Bool-cases (ends_with xs (y ∷ ys))) [
  | inl e ↦
      absurd
        (omega (arith, low, is_high-last? (y ∷ ys) d high (sym (last?-ends_with xs y ys e) ∙ l)))
  | inr e ↦ e
]

find_space-none :
    (xs : List ℕ) (d : ℕ) (spaces : List (List ℕ))
    → last? xs ≡ some d
    → d ≤ 127
    → any (λ s. not (is_high s)) spaces ≡ false
    → find_space (ends_with xs) spaces ≡ none
unfolding find_space any
find_space-none xs d [] l low high = refl
find_space-none xs d (s ∷ spaces) l low high =
    let first : is_high s ≡ true = ground (arith, high) in
    let later : any (λ s. not (is_high s)) spaces ≡ false = ground (arith, high) in
    rw (not_at_end xs s d l low first, find_space-none xs d spaces l low later)

trim_back-step :
    (fuel : ℕ) (xs : List ℕ) {o : Option ℕ}
    → trailing_lfs_space xs ≡ o
    → trim_back (suc fuel) xs
      ≡ (elim o as (λ _. List ℕ) [ some n ↦ trim_back fuel (take (length xs - n) xs) | none ↦ xs ])
unfolding trim_back
trim_back-step fuel xs h =
    ap
      (λ (o : Option ℕ). elim o as (λ _. List ℕ) [
        | some n ↦ trim_back fuel (take (length xs - n) xs)
        | none ↦ xs
      ])
      h

trim_back_digit :
    (fuel : ℕ) (xs : List ℕ) (d : ℕ) → last? xs ≡ some d → IsDigit d → trim_back fuel xs ≡ xs
unfolding trim_back trailing_lfs_space
trim_back_digit zero xs d l h = refl
trim_back_digit (suc fuel) xs d l h =
    let solid : is_space d ≡ false = ground (arith, h) in
    let none_left : space_at_end xs (some d) ≡ none =
      rw (solid, find_space-none xs d unicode_spaces l (omega (arith, h)) high_spaces) in
    trim_back-step fuel xs (ap (space_at_end xs) l ∙ none_left)

trim_back_newline :
    (fuel : ℕ) (xs : List ℕ) → trim_back (suc fuel) (xs ++ (10 ∷ [])) ≡ trim_back fuel xs
unfolding trailing_lfs_space last?
trim_back_newline fuel xs =
    let size : length (xs ++ (10 ∷ [])) - 1 ≡ length xs =
      omega (arith, length-append xs (10 ∷ [])) in
    trim_back-step fuel (xs ++ (10 ∷ []))
      (ap (space_at_end (xs ++ (10 ∷ []))) (last?-append xs 10 []))
    ∙ ap (λ n. trim_back fuel (take n (xs ++ (10 ∷ [])))) size
    ∙ ap (trim_back fuel) (take-append (length xs) xs (10 ∷ []) refl)

pub last-IsDigit :
    (ds : List ℕ) → 0 < length ds → All IsDigit ds → (d : ℕ) × (last? ds ≡ some d) × IsDigit d
unfolding last?
last-IsDigit [] n h = absurd (omega (arith, n))
last-IsDigit (d ∷ []) n h = (d, refl, h.0)
last-IsDigit (d ∷ e ∷ ds) n h = last-IsDigit (e ∷ ds) (omega arith) h.1

pub last?-behind : (xs ys : List ℕ) → 0 < length ys → last? (xs ++ ys) ≡ last? ys
last?-behind xs [] h = absurd (omega (arith, h))
last?-behind xs (y ∷ ys) h = last?-append xs y ys

trim_lfs_space-eq :
    (xs : List ℕ)
    → trim_lfs_space xs ≡ trim_back (length (trim_front (length xs) xs)) (trim_front (length xs) xs)
unfolding trim_lfs_space
trim_lfs_space-eq xs = refl

trim_front_solid : (fuel : ℕ) (xs : List ℕ) → leading_lfs_space xs ≡ none → trim_front fuel xs ≡ xs
unfolding trim_front
trim_front_solid zero xs h = refl
trim_front_solid (suc fuel) xs h =
    ap
      (λ (o : Option ℕ). elim o as (λ _. List ℕ) [
        | some n ↦ trim_front fuel (drop n xs)
        | none ↦ xs
      ])
      h

-- Bytes that begin with no space and end in a digit, with a line feed behind them.
pub trimmed_line :
    (xs : List ℕ) (d : ℕ)
    → leading_lfs_space (xs ++ (10 ∷ [])) ≡ none
    → last? xs ≡ some d
    → IsDigit d
    → trim_lfs_space (xs ++ (10 ∷ [])) ≡ xs
trimmed_line xs d first l h =
    let whole = xs ++ (10 ∷ []) in
    let size : length whole ≡ suc (length xs) = omega (arith, length-append xs (10 ∷ [])) in
    trim_lfs_space-eq whole
    ∙ ap (λ ys. trim_back (length ys) ys) (trim_front_solid (length whole) whole first)
    ∙ ap (λ n. trim_back n whole) size
    ∙ trim_back_newline (length xs) xs
    ∙ trim_back_digit (length xs) xs d l h
