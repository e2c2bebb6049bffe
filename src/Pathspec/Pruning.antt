-- ===== src/Pathspec/Pruning.antt =====
-- The pruning of walks by crates/gitility-core/src/pathspec.rs: which directories a walk may skip.
use mathlib.Core.List.{append-nil}
use gitility.Base.{
  ℕ, zero, suc, ◌≡◌, refl, ◌∙◌, Bool, true, false, List, [], ◌∷◌, ◌++◌, Option, none, some, arith,
  ◌==◌, take, drop, take-append-drop, starts_with, strip_prefix, any, position, rposition,
  Option-cases, inl, inr,
}
use gitility.Pathspec.{
  is_meta, is_slash, glob_magic, split_magic, fixed_part, may_match_fixed, may_match_behind,
  pattern_may_match_descendant, path_prefixes_overlap, matches_behind, matches, matcher_matches,
  may_match_descendant,
}
use gitility.Pathspec.Prefixes.{under, literal-under, overlap-under, under_both, directory-under}

abbrev pub is_backslash : ℕ → Bool
is_backslash byte = byte == b'\\'

-- What a wildmatch does with the bytes that are special to it neither way: they match themselves.
abbrev pub RespectsLiterals : (List ℕ → List ℕ → Bool) → Type 0
RespectsLiterals wildmatch =
    (fixed rest path : List ℕ)
    → any is_meta fixed ≡ false
    → any is_backslash fixed ≡ false
    → wildmatch (fixed ++ rest) path ≡ true
    → starts_with path fixed ≡ true

any-take :
    (test : ℕ → Bool) (n : ℕ) (xs : List ℕ) → any test xs ≡ false → any test (take n xs) ≡ false
unfolding any
any-take test zero xs h = refl
any-take test (suc n) [] h = refl
any-take test (suc n) (x ∷ xs) h = ground (arith, any-take test n xs)

-- There is no metacharacter before the first.
any_position : (p : List ℕ) (n : ℕ) → position is_meta p ≡ some n → any is_meta (take n p) ≡ false
unfolding any position
any_position [] n h = absurd (cc)
any_position (x ∷ p) zero h = refl
any_position (x ∷ p) (suc n) h = ground (arith, any_position p n)

any-none : (p : List ℕ) → position is_meta p ≡ none → any is_meta p ≡ false
unfolding any position
any-none [] h = refl
any-none (x ∷ p) h = ground (arith, any-none p)

none_of_any : (p : List ℕ) → any is_meta p ≡ false → position is_meta p ≡ none
unfolding any position
none_of_any [] h = refl
none_of_any (x ∷ p) h = ground (arith, none_of_any p)

strip_plain :
    (p magic : List ℕ) {rest : List ℕ}
    → strip_prefix p magic ≡ some rest
    → any is_backslash p ≡ false
    → any is_backslash rest ≡ false
unfolding strip_prefix any
strip_plain p [] e h = ground arith
strip_plain [] (m ∷ magic) e h = absurd (cc)
strip_plain (x ∷ p) (m ∷ magic) {rest} e h = ground (arith, strip_plain p magic {rest = rest})

split_magic_plain :
    (p : List ℕ) → any is_backslash p ≡ false → any is_backslash (split_magic p).0 ≡ false
unfolding split_magic
split_magic_plain p h = elim (Option-cases (strip_prefix p glob_magic)) [
  | inl e ↦ rw (e, split_magic) h
  | inr (rest, e) ↦ rw (e, split_magic) (strip_plain p glob_magic e h)
]

-- What comes behind the fixed part of a pattern.
behind_fixed : List ℕ → Option ℕ → List ℕ
behind_fixed p none = []
behind_fixed p (some n) = drop n p

fixed-append-behind : (p : List ℕ) (o : Option ℕ) → fixed_part p o ++ behind_fixed p o ≡ p
unfolding fixed_part behind_fixed
fixed-append-behind p none = append-nil p
fixed-append-behind p (some n) = take-append-drop n p

fixed_plain :
    (p : List ℕ) (o : Option ℕ) → position is_meta p ≡ o → any is_meta (fixed_part p o) ≡ false
unfolding fixed_part
fixed_plain p none e = any-none p e
fixed_plain p (some n) e = any_position p n e

fixed_unescaped :
    (p : List ℕ) (o : Option ℕ)
    → any is_backslash p ≡ false
    → any is_backslash (fixed_part p o) ≡ false
unfolding fixed_part
fixed_unescaped p none h = h
fixed_unescaped p (some n) h = any-take is_backslash n p h

overlap_of_under :
    (a prefix path : List ℕ)
    → under a path ≡ true
    → under prefix path ≡ true
    → path_prefixes_overlap a prefix ≡ true
overlap_of_under a prefix path h k = overlap-under a prefix ∙ under_both a prefix path h k

may_match_fixed-starts_with :
    (fixed prefix path : List ℕ)
    → starts_with path fixed ≡ true
    → under prefix path ≡ true
    → may_match_fixed fixed prefix ≡ true
unfolding may_match_fixed
may_match_fixed-starts_with fixed prefix path h k = elim (Option-cases (rposition is_slash fixed)) [
  | inl e ↦ rw (e, may_match_fixed)
  | inr (n, e) ↦
      rw (e, may_match_fixed)
        (overlap_of_under (take n fixed) prefix path (directory-under fixed path n h e) k)
]

module _ (wildmatch : List ℕ → List ℕ → Bool) (respects : RespectsLiterals wildmatch) where
  glob_may_match :
      (p prefix path : List ℕ)
      → any is_backslash p ≡ false
      → wildmatch p path ≡ true
      → under prefix path ≡ true
      → may_match_fixed (fixed_part p (position is_meta p)) prefix ≡ true
  glob_may_match p prefix path plain h k =
      let o = position is_meta p in
      may_match_fixed-starts_with (fixed_part p o) prefix path
        (respects (fixed_part p o) (behind_fixed p o) path (fixed_plain p o refl)
          (fixed_unescaped p o plain) (rw (fixed-append-behind p o) h))
        k

  behind_may_match :
      (p : List ℕ) (force : Bool) (prefix path : List ℕ)
      → any is_backslash p ≡ false
      → matches_behind wildmatch (p, force) path ≡ true
      → under prefix path ≡ true
      → may_match_behind (p, force) prefix ≡ true
  unfolding matches_behind may_match_behind
  behind_may_match p true prefix path plain h k = glob_may_match p prefix path plain h k
  behind_may_match p false prefix path plain h k = ground (
    arith,
    any-none p,
    none_of_any p,
    glob_may_match p prefix path plain,
    overlap_of_under p prefix path,
    literal-under p path,
  )

  pattern_may_match :
      (pattern prefix path : List ℕ)
      → any is_backslash pattern ≡ false
      → matches wildmatch pattern path ≡ true
      → under prefix path ≡ true
      → pattern_may_match_descendant pattern prefix ≡ true
  unfolding matches pattern_may_match_descendant
  pattern_may_match pattern prefix path plain h k =
      behind_may_match (split_magic pattern).0 (split_magic pattern).1 prefix path
        (split_magic_plain pattern plain) h k

  any_may_match :
      (patterns : List (List ℕ)) (prefix path : List ℕ)
      → any (any is_backslash) patterns ≡ false
      → any (λ p. matches wildmatch p path) patterns ≡ true
      → under prefix path ≡ true
      → any (λ p. pattern_may_match_descendant p prefix) patterns ≡ true
  unfolding any
  any_may_match [] prefix path plain h k = h
  any_may_match (p ∷ patterns) prefix path plain h k =
      ground (arith, pattern_may_match p prefix path, any_may_match patterns prefix path)

  -- For patterns without a backslash, and a wildmatch in which the bytes before the first special
  -- one match themselves: where the matcher selects some path at or below a directory, the walk
  -- is not told to skip that directory.
  pub matcher_may_match :
      (patterns : List (List ℕ)) (prefix path : List ℕ)
      → any (any is_backslash) patterns ≡ false
      → matcher_matches wildmatch patterns path ≡ true
      → under prefix path ≡ true
      → may_match_descendant patterns prefix ≡ true
  unfolding matcher_matches may_match_descendant
  matcher_may_match patterns prefix path plain h k =
      ground (arith, any_may_match patterns prefix path plain)
