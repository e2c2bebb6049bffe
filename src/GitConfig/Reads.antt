-- ===== src/GitConfig/Reads.antt =====
-- What a read of crates/gitility-core/src/git_config.rs leaves of the input.
use gitility.Base.{
  ℕ, ◌+◌, ◌≤◌, ◌<◌, ◌≡◌, refl, ap, ◌∙◌, ◌⊎◌, inl, inr, true, false, List, [], ◌∷◌, Option, none,
  some, ◌==◌, if◌then◌else◌, length, arith,
}
use gitility.GitConfig.{Parser, Parsed, next_char, raw_char, fold_return, at_char}
use gitility.GitConfig.Methods.{fuel}

-- How many bytes are left.
abbrev pub left : Parser → ℕ
left p = length p.rest

-- Either a byte is read, or the input is at its end, which reads as a line feed.
Shrinks : Parser → ℕ × Parser → Type 0
Shrinks p (c, q) = (left q < left p) ⊎ ((c ≡ b'\n') × (q.eof ≡ true) × (left p ≡ 0) × (left q ≡ 0))

length-raw_char : (b : ℕ) (rest : List ℕ) → length (raw_char (b ∷ rest)).1 ≡ length rest
unfolding raw_char
length-raw_char b rest = ground arith

at_char-left : (p : Parser) (r : ℕ × List ℕ) → left (at_char p r).1 ≡ length r.1
unfolding at_char
at_char-left p (c, rest) = ground arith

fold_return-length : (rest : List ℕ) → length (fold_return rest (raw_char rest)).1 ≤ length rest
unfolding fold_return raw_char
fold_return-length [] = omega arith
fold_return-length (b ∷ rest) = ground arith

next_char-Shrinks_at :
    (rest : List ℕ) (p : Parser)
    → Shrinks (record p { rest = rest }) (next_char (record p { rest = rest }))
unfolding Shrinks next_char raw_char
next_char-Shrinks_at [] p = inr (refl, refl, refl, refl)
next_char-Shrinks_at (b ∷ rest) p = inl (
    grind (
      arith,
      at_char-left (record p { rest = b ∷ rest }) (b, rest),
      at_char-left (record p { rest = b ∷ rest }) (fold_return rest (raw_char rest)),
      fold_return-length rest,
    ))

next_char-Shrinks : (p : Parser) → Shrinks p (next_char p)
next_char-Shrinks p = next_char-Shrinks_at p.rest p

-- What a read leaves: at most what there was; less before the end, which is a line feed.
pub left-next_char : (p : Parser) → left (next_char p).1 ≤ left p
unfolding Shrinks
left-next_char p = elim (next_char-Shrinks p) [
  | inl e ↦ omega (arith, e)
  | inr (_, _, e, f) ↦ omega (arith, e, f)
]

pub left-next_char_inside :
    (p : Parser) → ((next_char p).0 == b'\n') ≡ false → left (next_char p).1 < left p
unfolding Shrinks
left-next_char_inside p h = elim (next_char-Shrinks p) [
  | inl e ↦ e
  | inr (f, _, _, _) ↦ absurd (ground (arith, f))
]

pub left-next_char_open : (p : Parser) → (next_char p).1.eof ≡ false → left (next_char p).1 < left p
unfolding Shrinks
left-next_char_open p h = elim (next_char-Shrinks p) [ inl e ↦ e | inr (_, f, _, _) ↦ absurd (cc) ]

-- The blanks before a subsection: a line feed ends them in the next turn.
unfoldable pub weight_of : ℕ × Parser → ℕ
weight_of (c, p) = if c == b'\n' then left p else left p + 1

next-weight : (p : Parser) → weight_of (next_char p) ≤ left p
unfolding Shrinks weight_of
next-weight p = ground (arith, next_char-Shrinks p)

pub weight-fuel : (c : ℕ) (p : Parser) → weight_of (c, p) < fuel p
unfolding weight_of
weight-fuel c p = ground arith

weight-open : (c : ℕ) (p : Parser) → (c == b'\n') ≡ false → weight_of (c, p) ≡ left p + 1
unfolding weight_of
weight-open c p e = ground arith

pub weight-blank :
    (c : ℕ) (p : Parser) → (c == b'\n') ≡ false → weight_of (next_char p) < weight_of (c, p)
weight-blank c p e = omega (arith, next-weight p, weight-open c p e)

-- A method comes to an end, and leaves no more bytes than it found.
unfoldable pub Ends : Parser → Option (Parsed × Parser) → Type 0
Ends p o = (r : Parsed × Parser) × (o ≡ some r) × (left r.1 ≤ left p)

-- One fallible part behind another.
pub chained :
    {A B : Type 0} {o : Option A} {a : A} {b : B} (next : A → Option B)
    → o ≡ some a
    → next a ≡ some b
    → (elim o as (λ _. Option B) [ none ↦ none | some x ↦ next x ]) ≡ some b
chained {B = B} next e f =
    ap (λ o. elim o as (λ _. Option B) [ none ↦ none | some x ↦ next x ]) e ∙ f
